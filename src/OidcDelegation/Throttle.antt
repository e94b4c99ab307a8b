-- ===== src/OidcDelegation/Throttle.antt =====
-- packages/oidc-delegation/src/observability/outbound-throttle.ts and rate-limiter.ts: `OutboundThrottle`
-- with its `RollingWindowRateLimiter`.
use appspine_packages.Base.{
  ℕ, suc, ◌+◌, Bool, true, false, not, Option, none, some, if◌then◌else◌, leb, ltb, select, Text,
  same, Dict, get, put,
}

pub record Bucket : Type 0 where
  pub count : ℕ
  pub window_start : ℕ

pub record Circuit : Type 0 where
  pub consecutive_failures : ℕ
  pub circuit_open_until : ℕ

pub record Throttle : Type 0 where
  pub buckets : Dict Bucket
  pub circuits : Dict Circuit

abbrev pub window_ms : ℕ
window_ms = 60000

abbrev pub failure_threshold : ℕ
failure_threshold = 5

abbrev pub cooldown_ms : ℕ
cooldown_ms = 30000

-- `map.delete(k)`
unfoldable pub delete {ℓ} : {V : Type ℓ} → Text → Dict V → Dict V
delete k m = select (λ e. not (same e.0 k)) m

unfoldable pub counted_bucket : Option Bucket → ℕ → Bucket
counted_bucket none now = record { count = 1; window_start = now }
counted_bucket (some bucket) now =
    if leb (bucket.window_start + window_ms) now
    then record { count = 1; window_start = now }
    else record bucket { count = suc bucket.count }

-- `tryConsume`: whether the key is within its allowance, and the buckets.
unfoldable pub try_consume : ℕ → Text → ℕ → Dict Bucket → Bool × Dict Bucket
try_consume limit key now buckets =
    let bucket = counted_bucket (get key buckets) now in
    (leb bucket.count limit, put key bucket buckets)

unfoldable pub circuit_state : Text → ℕ → Dict Circuit → Option Circuit → Bool × Dict Circuit
circuit_state name now circuits none = (false, circuits)
circuit_state name now circuits (some circuit) =
    if ltb now circuit.circuit_open_until
    then (true, circuits)
    else if ltb 0 circuit.circuit_open_until
    then (false, delete name circuits)
    else (false, circuits)

-- `isCircuitOpen`, which forgets a circuit whose cooldown is over.
unfoldable pub is_circuit_open : Text → ℕ → Dict Circuit → Bool × Dict Circuit
is_circuit_open name now circuits = circuit_state name now circuits (get name circuits)

unfoldable pub consume_if_closed :
    ℕ → Text → ℕ → Dict Bucket → Bool × Dict Circuit → Bool × Throttle
consume_if_closed limit name now buckets (true, circuits) =
    (false, record { buckets = buckets; circuits = circuits })
consume_if_closed limit name now buckets (false, circuits) =
    let (allowed, left) = try_consume limit name now buckets in
    (allowed, record { buckets = left; circuits = circuits })

-- `checkAndConsume`: whether the call may be made; where it may not, `provider_unavailable` is thrown.
unfoldable pub check_and_consume : ℕ → Text → ℕ → Throttle → Bool × Throttle
check_and_consume limit name now throttle =
    consume_if_closed limit name now throttle.buckets (is_circuit_open name now throttle.circuits)

unfoldable pub record_success : Text → Throttle → Throttle
record_success name throttle = record throttle { circuits = delete name throttle.circuits }

abbrev pub failures_of : Option Circuit → ℕ
failures_of none = 0
failures_of (some circuit) = circuit.consecutive_failures

unfoldable pub record_provider_failure : Text → ℕ → Throttle → Throttle
record_provider_failure name now throttle =
    let failures = suc (failures_of (get name throttle.circuits)) in
    record throttle {
      circuits =
          put name
            (record {
              consecutive_failures = failures;
              circuit_open_until = if leb failure_threshold failures then now + cooldown_ms else 0;
            })
            throttle.circuits;
    }
