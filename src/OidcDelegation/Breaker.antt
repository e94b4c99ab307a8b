-- ===== src/OidcDelegation/Breaker.antt =====
-- packages/oidc-delegation/src/observability/outbound-throttle.ts: the circuit breaker bounds the calls to
-- a provider that is down.
use appspine_packages.Base.{
  ℕ, zero, suc, ◌+◌, ◌≤◌, ◌<◌, ◌≡◌, refl, ap, inl, inr, Bool, true, false, ◌&&◌, Option, none, some,
  List, [], ◌∷◌, arith, if◌then◌else◌, All, length, leb, ◌==◌, Text, same_refl, Dict, get, get-put,
  Bool-cases, Result, ok, err,
}
use appspine_packages.OidcDelegation.Policies.{DelegationPolicyConfig}
use appspine_packages.OidcDelegation.Throttle.{
  Circuit, Throttle, cooldown_ms, failure_threshold, circuit_state, is_circuit_open,
  consume_if_closed, check_and_consume, failures_of, record_provider_failure,
}
use appspine_packages.OidcDelegation.Exchange.{
  Category, provider_unavailable, delegation_error, Claims, Attempt, normalize_error,
  failed_throttle, call_provider, admitted_policy,
}
use appspine_packages.OidcDelegation.InFlight.{
  Flight, World, Step, begins, ends, begun, end_exchange, put_before, taken_out, ended,
  begin_admitted, step, run,
}

-- A breaker that has counted `n` failures since `start`.
abbrev has_counted : ℕ → ℕ → Option Circuit → Bool
has_counted start n none = n == 0
has_counted start n (some circuit) =
    circuit.consecutive_failures == n
    && (if leb failure_threshold n
        then leb (start + cooldown_ms) circuit.circuit_open_until
        else circuit.circuit_open_until == 0)

circuit_state-has_counted :
    (start n now : ℕ) (name : Text) (circuits : Dict Circuit) (found : Option Circuit)
    → has_counted start n found ≡ true
    → now < start + cooldown_ms
    → circuit_state name now circuits found ≡ (leb failure_threshold n, circuits)
unfolding circuit_state
circuit_state-has_counted start n now name circuits none h before = ground arith
circuit_state-has_counted start n now name circuits (some circuit) h before = ground arith

failure-has_counted :
    (start n now : ℕ) (name : Text) (throttle : Throttle)
    → has_counted start n (get name throttle.circuits) ≡ true
    → start ≤ now
    → has_counted start (suc n) (get name (record_provider_failure name now throttle).circuits)
      ≡ true
unfolding record_provider_failure
failure-has_counted start n now name throttle h after =
    rw
      (
        get-put name name
            (record {
              consecutive_failures = suc (failures_of (get name throttle.circuits));
              circuit_open_until =
                  if leb failure_threshold (suc (failures_of (get name throttle.circuits)))
                  then now + cooldown_ms
                  else 0;
            })
            throttle.circuits,
        same_refl name,
      )
      (counted (get name throttle.circuits) h)
  where
    counted :
        (found : Option Circuit)
        → has_counted start n found ≡ true
        → has_counted start (suc n) (
            some (record {
              consecutive_failures = suc (failures_of found);
              circuit_open_until =
                  if leb failure_threshold (suc (failures_of found)) then now + cooldown_ms else 0;
            }))
          ≡ true
    counted none k = ground arith
    counted (some circuit) k = ground arith

-- A provider that is down: every call to it fails as unavailable, at a time of the cooldown.
pub record IsDown (start : ℕ) (name : Text) (attempt : Attempt) : Type 0 where
  pub named : attempt.input.policy ≡ name
  pub down : attempt.provider_run ≡ err (delegation_error provider_unavailable)
  pub after_start : start ≤ attempt.failed_at
  pub before_end : attempt.checked_at < start + cooldown_ms

module _ (decode_claims : Text → Option Claims) (issuer : Text) (limit : ℕ)
    (policies : Dict DelegationPolicyConfig) where
  -- No more than `m` exchanges wait for the provider at any time.
  abbrev pub IsWithin : ℕ → List Step → World → Type 0
  IsWithin m [] w = length w.in_flight ≤ m
  IsWithin m (s ∷ steps) w =
      (length w.in_flight ≤ m) × IsWithin m steps (step decode_claims issuer limit policies s w)

  within_now : (m : ℕ) (steps : List Step) (w : World) → IsWithin m steps w → length w.in_flight ≤ m
  within_now m [] w h = h
  within_now m (s ∷ steps) w (h, _) = h

  module _ (start m : ℕ) (name : Text) where
    -- `n` failures have come back: the calls are these and the ones in flight.
    pub record IsBroken (n : ℕ) (w : World) : Type 0 where
      pub counted : has_counted start n (get name w.throttle.circuits) ≡ true
      pub flights : All (λ f. IsDown start name f.attempt) w.in_flight
      pub all_calls : w.calls ≡ n + length w.in_flight
      pub few : w.calls + 1 ≤ failure_threshold + m

    abbrev pub AreDown : Step → Type 0
    AreDown (begins attempt) = IsDown start name attempt
    AreDown (ends n) = Unit

    checked :
        (attempt : Attempt) (n : ℕ) (throttle : Throttle)
        → IsDown start name attempt
        → has_counted start n (get name throttle.circuits) ≡ true
        → check_and_consume limit attempt.input.policy attempt.checked_at throttle
          ≡ consume_if_closed limit name attempt.checked_at throttle.buckets
              (leb failure_threshold n, throttle.circuits)
    unfolding check_and_consume is_circuit_open
    checked attempt n throttle d h =
        rw
          (
            d.named,
            circuit_state-has_counted start n attempt.checked_at name throttle.circuits _ h
                d.before_end,
          )
          refl

    passed-IsBroken :
        (attempt : Attempt) (policy : DelegationPolicyConfig) (n : ℕ) (w : World) (allowed : Bool)
        (throttle : Throttle)
        → IsDown start name attempt
        → IsBroken n w
        → n < failure_threshold
        → throttle.circuits ≡ w.throttle.circuits
        → length (begun attempt policy w (allowed, throttle)).in_flight ≤ m
        → IsBroken n (begun attempt policy w (allowed, throttle))
    unfolding begun
    passed-IsBroken attempt policy n w false throttle d b below same_circuits small = record {
      counted = rw same_circuits b.counted;
      flights = b.flights;
      all_calls = b.all_calls;
      few = b.few;
    }
    passed-IsBroken attempt policy n w true throttle d b below same_circuits small = record {
      counted = rw same_circuits b.counted;
      flights = (d, b.flights);
      all_calls = omega (arith, b.all_calls);
      few = omega (arith, b.all_calls, below, small);
    }

    begun-IsBroken :
        (attempt : Attempt) (policy : DelegationPolicyConfig) (n : ℕ) (w : World)
        → IsDown start name attempt
        → IsBroken n w
        → length
            (begun attempt policy w (
              check_and_consume limit attempt.input.policy attempt.checked_at w.throttle)).in_flight
          ≤ m
        → IsBroken n (
            begun attempt policy w
              (check_and_consume limit attempt.input.policy attempt.checked_at w.throttle))
    unfolding consume_if_closed begun
    begun-IsBroken attempt policy n w d b small =
        let same_check = checked attempt n w.throttle d b.counted in
        elim (Bool-cases (leb failure_threshold n)) [
          | inl e ↦
              rw (same_check, e)
                (record {
                  counted = b.counted;
                  flights = b.flights;
                  all_calls = b.all_calls;
                  few = b.few;
                })
          | inr e ↦
              rw (same_check, e)
                (passed-IsBroken attempt policy n w _ _ d b (ground arith) refl
                  (rw (same_check, e) at small))
        ]

    begin_admitted-IsBroken :
        (attempt : Attempt) (n : ℕ) (w : World) (admitted : Result Category DelegationPolicyConfig)
        → IsDown start name attempt
        → IsBroken n w
        → length (begin_admitted decode_claims issuer limit policies attempt w admitted).in_flight
          ≤ m
        → IsBroken n (begin_admitted decode_claims issuer limit policies attempt w admitted)
    unfolding begin_admitted
    begin_admitted-IsBroken attempt n w (err category) d b small = b
    begin_admitted-IsBroken attempt n w (ok policy) d b small =
        begun-IsBroken attempt policy n w d b small

    abbrev IsTaken : List Flight → Option (Flight × List Flight) → Type 0
    IsTaken flights none = Unit
    IsTaken flights (some (f, others)) =
        IsDown start name f.attempt
        × All (λ g. IsDown start name g.attempt) others
        × (length flights ≡ suc (length others))

    put_before-IsTaken :
        (f : Flight) (flights : List Flight) (o : Option (Flight × List Flight))
        → IsDown start name f.attempt
        → IsTaken flights o
        → IsTaken (f ∷ flights) (put_before f o)
    unfolding put_before
    put_before-IsTaken f flights none d t = tt
    put_before-IsTaken f flights (some (g, others)) d (one, rest, size) =
        (one, (d, rest), ap suc size)

    taken_out-IsTaken :
        (n : ℕ) (flights : List Flight)
        → All (λ f. IsDown start name f.attempt) flights
        → IsTaken flights (taken_out n flights)
    unfolding taken_out
    taken_out-IsTaken n [] d = tt
    taken_out-IsTaken zero (f ∷ rest) (here, d) = (here, d, refl)
    taken_out-IsTaken (suc n) (f ∷ rest) (here, d) =
        put_before-IsTaken f rest (taken_out n rest) here (taken_out-IsTaken n rest d)

    end_exchange-down :
        (f : Flight) (throttle : Throttle)
        → IsDown start name f.attempt
        → end_exchange f throttle ≡ record_provider_failure name f.attempt.failed_at throttle
    unfolding end_exchange call_provider normalize_error failed_throttle
    end_exchange-down f throttle d = rw (d.down, d.named) refl

    ended-IsBroken :
        (n : ℕ) (w : World) (o : Option (Flight × List Flight))
        → IsTaken w.in_flight o
        → IsBroken n w
        → (k : ℕ) × IsBroken k (ended w o)
    unfolding ended
    ended-IsBroken n w none t b = (n, b)
    ended-IsBroken n w (some (f, others)) (d, rest, size) b = (
      suc n,
      record {
        counted = rw (end_exchange-down f w.throttle d) (
            failure-has_counted start n f.attempt.failed_at name w.throttle b.counted
              d.after_start);
        flights = rest;
        all_calls = omega (arith, b.all_calls, size);
        few = b.few;
      },
    )

    step-IsBroken :
        (s : Step) (n : ℕ) (w : World)
        → AreDown s
        → IsBroken n w
        → length (step decode_claims issuer limit policies s w).in_flight ≤ m
        → (k : ℕ) × IsBroken k (step decode_claims issuer limit policies s w)
    unfolding step
    step-IsBroken (begins attempt) n w d b small = (
      n,
      begin_admitted-IsBroken attempt n w
          (admitted_policy decode_claims issuer policies attempt.input) d b small,
    )
    step-IsBroken (ends k) n w d b small =
        ended-IsBroken n w (taken_out k w.in_flight) (taken_out-IsTaken k w.in_flight b.flights) b

    run-few :
        (steps : List Step) (n : ℕ) (w : World)
        → All AreDown steps
        → IsBroken n w
        → IsWithin m steps w
        → (run decode_claims issuer limit policies steps w).calls + 1 ≤ failure_threshold + m
    unfolding run
    run-few [] n w d b small = b.few
    run-few (s ∷ steps) n w (here, d) b (_, small) =
        let (k, later) =
          step-IsBroken s n w here b
            (within_now m steps (step decode_claims issuer limit policies s w) small) in
        run-few steps k (step decode_claims issuer limit policies s w) d later small

    -- A provider that is down is called no more often than four times and once for each exchange that may
    -- wait for it at the same time: five times where they come one after the other. However many
    -- exchanges are tried for a policy within the cooldown, all of whose calls fail as unavailable, and
    -- in whatever order their calls come back, the breaker cuts the rest off. No failure of the policy
    -- was counted before, and none is in flight.
    pub calls-le :
        (steps : List Step) (throttle : Throttle)
        → All AreDown steps
        → get name throttle.circuits ≡ none
        → IsWithin m steps (record { throttle = throttle; in_flight = []; calls = 0 })
        → (run decode_claims issuer limit policies steps
              (record { throttle = throttle; in_flight = []; calls = 0 })).calls
            + 1
          ≤ failure_threshold + m
    calls-le steps throttle down clear small =
        run-few steps 0 _ down
          (record { counted = rw clear refl; flights = tt; all_calls = refl; few = omega arith })
          small
