-- ===== src/M2mApiKey/RateLimiter.antt =====
-- packages/m2m-api-key/src/api-key-rate-limiter.ts: `ApiKeyRateLimiter`, a fixed window for each key.
use Prim.Native.Nat.{◌-◌}
use appspine_packages.Base.{
  ℕ, ◌+◌, ◌/◌, Bool, not, Option, none, some, if◌then◌else◌, ltb, leb, get_or, select, Text, Dict,
  get, put,
}

abbrev pub default_limit : ℕ
default_limit = 60

abbrev pub window_ms : ℕ
window_ms = 60000

pub record Bucket : Type 0 where
  pub count : ℕ
  pub window_start : ℕ

pub data Verdict : Type 0 where
  allowed : Verdict
  denied : ℕ → Verdict

pub record Checked : Type 0 where
  pub verdict : Verdict
  pub buckets : Dict Bucket

-- `now - bucket.windowStart >= ms`, where the clock may have gone back.
abbrev pub is_older : ℕ → ℕ → Bucket → Bool
is_older ms now bucket = leb (bucket.window_start + ms) now

-- A request within the window; `Math.ceil` of the seconds that are left of it.
unfoldable pub count_request : Text → ℕ → ℕ → Bucket → Dict Bucket → Checked
count_request key limit now bucket buckets =
    let counted = record bucket { count = bucket.count + 1 } in
    record {
      verdict =
          if ltb limit counted.count
          then denied ((bucket.window_start + window_ms - now + 999) / 1000)
          else allowed;
      buckets = put key counted buckets;
    }

unfoldable pub open_window : Text → ℕ → Dict Bucket → Checked
open_window key now buckets = record {
  verdict = allowed;
  buckets = put key (record { count = 1; window_start = now }) buckets;
}

unfoldable pub check : Text → Option ℕ → ℕ → Dict Bucket → Checked
check key limit_per_min now buckets = elim (get key buckets) [
  | none ↦ open_window key now buckets
  | some bucket ↦
      if is_older window_ms now bucket
      then open_window key now buckets
      else count_request key (get_or limit_per_min default_limit) now bucket buckets
]

unfoldable pub evict : ℕ → Dict Bucket → Dict Bucket
evict now buckets = select (λ e. not (is_older (window_ms + window_ms) now e.1)) buckets
