-- ===== src/OidcDelegation/Exchange.antt =====
-- packages/oidc-delegation/src/oidc-delegation.service.ts and subject-token-sanity-check.ts: `exchange`.
-- The logs are left out. What the provider answers is an argument, and so are the readings of the clock.
use appspine_packages.Base.{
  ℕ, Bool, true, false, ◌&&◌, not, Option, none, some, List, [], ◌∷◌, if◌then◌else◌, is_empty, leb,
  ltb, get_or, Text, same, split_on, Dict, Result, ok, err, ◌>>=◌, ◌>>◌, guard, need,
}
use appspine_packages.OidcDelegation.Policies.{DelegationPolicyConfig, resolve}
use appspine_packages.OidcDelegation.Throttle.{
  Throttle, check_and_consume, record_success, record_provider_failure,
}

pub data Category : Type 0 where
  invalid_subject_token policy_not_found policy_violation exchange_denied : Category
  provider_unavailable malformed_provider_response : Category

-- An error that the provider throws: one of the package's own, or any other.
pub data Thrown : Type 0 where
  delegation_error : Category → Thrown
  policy_not_found_error other_error : Thrown

-- The claims of a token that are read, where they are strings.
pub record Claims : Type 0 where
  pub azp : Option Text
  pub client_id : Option Text

pub record ProviderParams : Type 0 where
  pub subject_token : Text
  pub target_audience : Text
  pub requested_scopes : List Text

pub record ProviderResult : Type 0 where
  pub access_token : Text
  pub expires_in_seconds : Option ℕ

pub record DelegatedAccessToken : Type 0 where
  pub access_token : Text
  pub expires_in_seconds : ℕ

pub record ExchangeInput : Type 0 where
  pub subject_token : Text
  pub policy : Text

-- An exchange with its surroundings: when the throttle reads the clock, and how a call would end.
pub record Attempt : Type 0 where
  pub input : ExchangeInput
  pub checked_at : ℕ
  pub failed_at : ℕ
  pub provider_run : Result Thrown ProviderResult

-- What `exchange` comes to, with the calls that it made to the provider.
pub record Exchanged : Type 0 where
  pub answer : Result Category DelegatedAccessToken
  pub throttle : Throttle
  pub calls : List ProviderParams

unfoldable pub normalize_error : Thrown → Category
normalize_error (delegation_error category) = category
normalize_error policy_not_found_error = policy_not_found
normalize_error other_error = malformed_provider_response

abbrev pub claimant_of : Claims → Text
claimant_of claims = elim claims.azp [ some azp ↦ azp | none ↦ get_or claims.client_id [] ]

abbrev payload_part : List Text → Option Text
payload_part (header ∷ payload ∷ signature ∷ []) = some payload
payload_part _ = none

-- `assertProviderResult`
unfoldable pub assert_provider_result :
    ProviderResult → Option ℕ → Result Category DelegatedAccessToken
assert_provider_result result max_expires = do
  seconds ← need result.expires_in_seconds malformed_provider_response
  guard (not (is_empty result.access_token) && ltb 0 seconds) malformed_provider_response
  guard (leb seconds (get_or max_expires 0)) policy_violation
  ok (record { access_token = result.access_token; expires_in_seconds = seconds })

abbrev is_unavailable : Category → Bool
is_unavailable provider_unavailable = true
is_unavailable _ = false

unfoldable pub params_of : ExchangeInput → DelegationPolicyConfig → ProviderParams
params_of input policy = record {
  subject_token = input.subject_token;
  target_audience = policy.target_audience;
  requested_scopes = policy.requested_scopes;
}

-- The answer of the provider, checked.
unfoldable pub conclude_exchange :
    Attempt → DelegationPolicyConfig → Throttle → Result Category DelegatedAccessToken → Exchanged
conclude_exchange attempt policy throttle (err category) = record {
  answer = err category;
  throttle = throttle;
  calls = params_of attempt.input policy ∷ [];
}
conclude_exchange attempt policy throttle (ok token) = record {
  answer = ok token;
  throttle = record_success attempt.input.policy throttle;
  calls = params_of attempt.input policy ∷ [];
}

unfoldable pub failed_throttle : Attempt → Throttle → Category → Throttle
failed_throttle attempt throttle category =
    if is_unavailable category
    then record_provider_failure attempt.input.policy attempt.failed_at throttle
    else throttle

unfoldable pub call_provider :
    Attempt → DelegationPolicyConfig → Throttle → Result Thrown ProviderResult → Exchanged
call_provider attempt policy throttle (err thrown) = record {
  answer = err (normalize_error thrown);
  throttle = failed_throttle attempt throttle (normalize_error thrown);
  calls = params_of attempt.input policy ∷ [];
}
call_provider attempt policy throttle (ok result) =
    conclude_exchange attempt policy throttle
      (assert_provider_result result policy.max_expires_in_seconds)

unfoldable pub throttled_exchange : Attempt → DelegationPolicyConfig → Bool × Throttle → Exchanged
throttled_exchange attempt policy (false, throttle) = record {
  answer = err provider_unavailable;
  throttle = throttle;
  calls = [];
}
throttled_exchange attempt policy (true, throttle) =
    call_provider attempt policy throttle attempt.provider_run

-- The payload of a token is decoded by the platform: base64url, then JSON.
module _ (decode_claims : Text → Option Claims) (issuer_client_id : Text) where
  -- `assertSubjectTokenBelongsToSourceClient`
  unfoldable pub belongs_to_source_client : Text → Bool
  belongs_to_source_client token = elim (payload_part (split_on 46 token)) [
    | none ↦ false
    | some payload ↦ elim (decode_claims payload) [
      | none ↦ false
      | some claims ↦
          not (is_empty (claimant_of claims)) && same (claimant_of claims) issuer_client_id
    ]
  ]

  unfoldable pub admitted_policy :
      Dict DelegationPolicyConfig → ExchangeInput → Result Category DelegationPolicyConfig
  admitted_policy policies input = do
    policy ← need (resolve input.policy policies) policy_not_found
    guard (belongs_to_source_client input.subject_token) invalid_subject_token
    ok policy

  unfoldable pub exchange_admitted :
      ℕ → Attempt → Throttle → Result Category DelegationPolicyConfig → Exchanged
  exchange_admitted limit attempt throttle (err category) = record {
    answer = err category;
    throttle = throttle;
    calls = [];
  }
  exchange_admitted limit attempt throttle (ok policy) =
      throttled_exchange attempt policy
        (check_and_consume limit attempt.input.policy attempt.checked_at throttle)

  unfoldable pub exchange : ℕ → Dict DelegationPolicyConfig → Attempt → Throttle → Exchanged
  exchange limit policies attempt throttle =
      exchange_admitted limit attempt throttle (admitted_policy policies attempt.input)
