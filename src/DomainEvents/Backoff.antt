-- ===== src/DomainEvents/Backoff.antt =====
-- packages/domain-events/src/domain-event-dispatcher.service.ts: `retryDelayMs`, and its bounds.
use appspine_packages.Base.{
  ℕ, zero, suc, ◌+◌, ◌≡◌, refl, ap, ◌∙◌, inl, inr, Option-cases, ◌*◌, ◌≤◌, ℤ, pos, negsuc, Option,
  none, some, arith, if◌then◌else◌, ltb,
}
use native.Mathlib.Nat.{mul-add}
use appspine_packages.DomainEvents.{HandlerError, retryable_error}

unfoldable pub least : ℕ → ℕ → ℕ
least a b = if ltb b a then b else a

-- `2 ** attempts`
unfoldable pub two_to : ℕ → ℕ
two_to zero = 1
two_to (suc n) = two_to n + two_to n

-- `Math.max(ms, 0)`
unfoldable pub clamp : ℤ → ℕ
clamp (pos n) = n
clamp (negsuc n) = 0

unfoldable pub retry_hint : HandlerError → Option ℤ
retry_hint (retryable_error message hint) = hint
retry_hint _ = none

least-le : (a b : ℕ) → least a b ≤ b
unfolding least
least-le a b = ground arith

least_twice : (a c : ℕ) → least (a + a) c ≡ least (least a c + least a c) c
unfolding least
least_twice a c = ground arith

least_again : (a c : ℕ) → least a c ≡ least (least a c) c
unfolding least
least_again a c = ground arith

times_once : (b : ℕ) → b * two_to 0 ≡ b
unfolding two_to
times_once b = omega arith

times_twice : (b n : ℕ) → b * two_to (suc n) ≡ b * two_to n + b * two_to n
unfolding two_to
times_twice b n = rw mul-add refl

module _ (base_backoff_ms max_backoff_ms : ℕ) where
  unfoldable pub retry_delay_ms : ℕ → HandlerError → ℕ
  unfolding retry_hint clamp
  retry_delay_ms attempts error = elim (retry_hint error) [
    | some hint ↦ least (clamp hint) max_backoff_ms
    | none ↦ least (base_backoff_ms * two_to attempts) max_backoff_ms
  ]

  -- What a chain of retries starts from, and what follows on a delay.
  abbrev pub start_of : Option ℤ → ℕ
  start_of none = base_backoff_ms
  start_of (some (pos n)) = n
  start_of (some (negsuc n)) = 0

  abbrev pub next_of : Option ℤ → ℕ → ℕ
  next_of none delay = delay + delay
  next_of (some hint) delay = delay

  start_of-clamp : (hint : ℤ) → clamp hint ≡ start_of (some hint)
  unfolding clamp
  start_of-clamp (pos n) = refl
  start_of-clamp (negsuc n) = refl

  -- The delay of a first retry is what the error asks for, taken as no less than zero, or else the base;
  -- the next attempt's delay is the same where the error asks for one, and else twice as long; and
  -- all of this up to the cap, which no delay exceeds.
  pub retry_delay_ms_bounds :
      (attempts : ℕ) (error : HandlerError)
      → (retry_delay_ms attempts error ≤ max_backoff_ms)
        × (retry_delay_ms 0 error ≡ least (start_of (retry_hint error)) max_backoff_ms)
        × (retry_delay_ms (suc attempts) error
            ≡ least (next_of (retry_hint error) (retry_delay_ms attempts error)) max_backoff_ms)
  unfolding retry_delay_ms
  retry_delay_ms_bounds attempts error = elim (Option-cases (retry_hint error)) [
    | inl e ↦
        rw (e, retry_delay_ms)
          (
            least-le _ max_backoff_ms,
            ap (λ d. least d max_backoff_ms) (times_once base_backoff_ms),
            ap (λ d. least d max_backoff_ms) (times_twice base_backoff_ms attempts)
                ∙ least_twice (base_backoff_ms * two_to attempts) max_backoff_ms,
          )
    | inr (hint, e) ↦
        rw (e, retry_delay_ms)
          (
            least-le (clamp hint) max_backoff_ms,
            ap (λ d. least d max_backoff_ms) (start_of-clamp hint),
            least_again (clamp hint) max_backoff_ms,
          )
  ]
