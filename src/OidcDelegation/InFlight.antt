-- ===== src/OidcDelegation/InFlight.antt =====
-- packages/oidc-delegation/src/oidc-delegation.service.ts: `exchange` split where it awaits the provider, with
-- several exchanges in flight at the same time.
use appspine_packages.Base.{
  ℕ, zero, suc, ◌≡◌, refl, inl, inr, Bool, true, false, Option, none, some, List, [], ◌∷◌, Text,
  Dict, Result, ok, err, Result-cases,
}
use appspine_packages.OidcDelegation.Policies.{DelegationPolicyConfig}
use appspine_packages.OidcDelegation.Throttle.{Throttle, check_and_consume}
use appspine_packages.OidcDelegation.Exchange.{
  Category, Claims, Attempt, call_provider, throttled_exchange, admitted_policy, exchange_admitted,
  exchange,
}

-- An exchange that waits for the provider, with the policy that it was admitted under.
pub record Flight : Type 0 where
  pub attempt : Attempt
  pub policy : DelegationPolicyConfig

-- The exchanges of a process: those that wait for the provider, and how many calls were made.
pub record World : Type 0 where
  pub throttle : Throttle
  pub in_flight : List Flight
  pub calls : ℕ

-- An exchange is called, or the call of the one at this place among those in flight comes back.
pub data Step : Type 0 where
  begins : Attempt → Step
  ends : ℕ → Step

-- The exchange behind the check of the throttle: it calls the provider, or throws.
unfoldable pub begun : Attempt → DelegationPolicyConfig → World → Bool × Throttle → World
begun attempt policy w (false, throttle) = record w { throttle = throttle }
begun attempt policy w (true, throttle) = record {
  throttle = throttle;
  in_flight = record { attempt = attempt; policy = policy } ∷ w.in_flight;
  calls = suc w.calls;
}

-- The rest of the exchange, from the throttle that it finds when its call comes back.
unfoldable pub end_exchange : Flight → Throttle → Throttle
end_exchange f throttle =
    (call_provider f.attempt f.policy throttle f.attempt.provider_run).throttle

unfoldable pub put_before : Flight → Option (Flight × List Flight) → Option (Flight × List Flight)
put_before f none = none
put_before f (some (g, others)) = some (g, f ∷ others)

unfoldable pub taken_out : ℕ → List Flight → Option (Flight × List Flight)
unfolding put_before
taken_out n [] = none
taken_out zero (f ∷ rest) = some (f, rest)
taken_out (suc n) (f ∷ rest) = put_before f (taken_out n rest)

unfoldable pub ended : World → Option (Flight × List Flight) → World
ended w none = w
ended w (some (f, others)) = record w { throttle = end_exchange f w.throttle; in_flight = others }

module _ (decode_claims : Text → Option Claims) (issuer : Text) (limit : ℕ)
    (policies : Dict DelegationPolicyConfig) where
  unfoldable pub begin_admitted : Attempt → World → Result Category DelegationPolicyConfig → World
  begin_admitted attempt w (err category) = w
  begin_admitted attempt w (ok policy) =
      begun attempt policy w
        (check_and_consume limit attempt.input.policy attempt.checked_at w.throttle)

  unfoldable pub step : Step → World → World
  step (begins attempt) w =
      begin_admitted attempt w (admitted_policy decode_claims issuer policies attempt.input)
  step (ends n) w = ended w (taken_out n w.in_flight)

  unfoldable pub run : List Step → World → World
  run [] w = w
  run (s ∷ steps) w = run steps (step s w)

  alone_begun :
      (attempt : Attempt) (policy : DelegationPolicyConfig) (w : World) (passed : Bool × Throttle)
      → w.in_flight ≡ []
      → (ended
          (begun attempt policy w passed)
          (taken_out 0 (begun attempt policy w passed).in_flight)).throttle
        ≡ (throttled_exchange attempt policy passed).throttle
  unfolding begun ended taken_out end_exchange throttled_exchange
  alone_begun attempt policy w (false, throttle) none_left = rw none_left refl
  alone_begun attempt policy w (true, throttle) none_left = refl

  -- The two halves, with nothing between them, are `exchange`.
  exchange-halves :
      (attempt : Attempt) (w : World)
      → w.in_flight ≡ []
      → (run (begins attempt ∷ ends 0 ∷ []) w).throttle
        ≡ (exchange decode_claims issuer limit policies attempt w.throttle).throttle
  unfolding run step begin_admitted exchange exchange_admitted ended taken_out
  exchange-halves attempt w none_left =
      elim (Result-cases (admitted_policy decode_claims issuer policies attempt.input)) [
        | inr (e, refused) ↦ rw (refused, none_left) refl
        | inl (policy, admitted) ↦ rw admitted (alone_begun attempt policy w _ none_left)
      ]
