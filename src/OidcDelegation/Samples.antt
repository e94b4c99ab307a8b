-- ===== src/OidcDelegation/Samples.antt =====
-- A policy, an exchange under it, and a provider that is down.
use appspine_packages.Base.{
  ◌≤◌, ◌≡◌, refl, Option, none, some, List, [], ◌∷◌, arith, dedupe, Text, text, same, includes,
  split_on, Dict, get, put, All, ◌+◌, Result, ok, err,
}
use appspine_packages.OidcDelegation.Policies.{
  DelegationPolicyConfig, is_policy_name, validate_policy, validate_all, new_registry, resolve,
}
use appspine_packages.OidcDelegation.Throttle.{
  Throttle, failure_threshold, check_and_consume, consume_if_closed, is_circuit_open, circuit_state,
  try_consume, counted_bucket, record_provider_failure,
}
use appspine_packages.OidcDelegation.Exchange.{
  belongs_to_source_client, admitted_policy, call_provider, normalize_error, failed_throttle,
  provider_unavailable, Thrown, delegation_error, Claims, ProviderResult, Attempt, exchange,
}
use appspine_packages.OidcDelegation.Delegated.{IsBounded, exchange-IsBounded}
use appspine_packages.OidcDelegation.InFlight.{
  Step, begins, ends, begun, put_before, taken_out, ended, end_exchange, begin_admitted, step, run,
}
use appspine_packages.OidcDelegation.Breaker.{IsDown, IsWithin, AreDown, calls-le}

abbrev policies : Dict DelegationPolicyConfig
policies =
    (
      text "crm",
      record {
        target_audience = text "crm";
        requested_scopes = text "read" ∷ [];
        max_expires_in_seconds = some 300;
      },
    )
    ∷ []

abbrev decode : Text → Option Claims
decode payload = some (record { azp = some payload; client_id = none })

abbrev idle : Throttle
idle = record { buckets = []; circuits = [] }

abbrev attempt : Result Thrown ProviderResult → Attempt
attempt run = record {
  input = record { subject_token = text "h.wiki.s"; policy = text "crm" };
  checked_at = 1000;
  failed_at = 1005;
  provider_run = run;
}

abbrev given : Attempt
given = attempt (ok (record { access_token = text "t"; expires_in_seconds = some 60 }))

built : new_registry policies ≡ ok policies
unfolding new_registry validate_all validate_policy is_policy_name text includes same dedupe
built = refl

exchange-IsBounded_example :
    IsBounded decode
      (text "wiki")
      policies
      given.input
      (exchange decode (text "wiki") 60 policies given idle)
exchange-IsBounded_example =
    exchange-IsBounded decode (text "wiki") policies policies 60 given idle built

abbrev failing : Attempt
failing = attempt (err (delegation_error provider_unavailable))

failing-IsDown : IsDown 1000 (text "crm") failing
failing-IsDown = record {
  named = refl;
  down = refl;
  after_start = omega arith;
  before_end = omega arith;
}

-- Three exchanges, of which two wait at the same time.
abbrev steps : List Step
steps = begins failing ∷ begins failing ∷ ends 1 ∷ begins failing ∷ ends 0 ∷ ends 0 ∷ []

steps_down : All (AreDown decode (text "wiki") 60 policies 1000 2 (text "crm")) steps
steps_down = (failing-IsDown, (failing-IsDown, (tt, (failing-IsDown, (tt, (tt, tt))))))

two_at_a_time :
    IsWithin decode
      (text "wiki")
      60
      policies
      2
      steps
      (record { throttle = idle; in_flight = []; calls = 0 })
unfolding step begun begin_admitted admitted_policy belongs_to_source_client resolve
    check_and_consume consume_if_closed is_circuit_open circuit_state try_consume counted_bucket
    ended taken_out put_before end_exchange call_provider normalize_error failed_throttle
    record_provider_failure get put text same split_on
two_at_a_time = (
  omega arith,
  (omega arith, (omega arith, (omega arith, (omega arith, (omega arith, omega arith))))),
)

unknown_circuit : get (text "crm") idle.circuits ≡ none
unfolding get
unknown_circuit = refl

calls-le_example :
    (run decode
        (text "wiki")
        60
        policies
        steps
        (record { throttle = idle; in_flight = []; calls = 0 })).calls
      + 1
    ≤ failure_threshold + 2
calls-le_example =
    calls-le decode (text "wiki") 60 policies 1000 2 (text "crm") steps idle steps_down
      unknown_circuit two_at_a_time
