-- ===== src/M2mApiKey/Eviction.antt =====
-- packages/m2m-api-key/src/api-key-rate-limiter.ts: the eviction of stale buckets.
use Prim.Native.Nat.{◌-◌}
use appspine_packages.Base.{
  ◌/◌, ℕ, ◌+◌, ◌≤◌, ◌≡◌, refl, ◌∙◌, ap, ◌⊎◌, inl, inr, true, false, Option, none, some, List, [],
  ◌∷◌, arith, if◌then◌else◌, ltb, get_or, All, Bool-cases, Text, same, same→eq, includes, Dict, get,
  put, get-put, keys, Distinct,
}
use appspine_packages.M2mApiKey.RateLimiter.{
  Bucket, Verdict, allowed, denied, is_older, window_ms, default_limit, count_request, open_window,
  check, evict,
}

get-absent : (key : Text) (m : Dict Bucket) → includes (keys m) key ≡ false → get key m ≡ none
unfolding get includes
get-absent key [] h = refl
get-absent key ((k, b) ∷ m) h = ground (arith, get-absent key m)

abbrev kept : ℕ → Option Bucket → Option Bucket
kept now none = none
kept now (some b) = if is_older (window_ms + window_ms) now b then none else some b

get-evict :
    (key : Text) (now : ℕ) (m : Dict Bucket)
    → Distinct (keys m)
    → get key (evict now m) ≡ kept now (get key m)
unfolding get evict
get-evict key now [] d = refl
get-evict key now ((k, b) ∷ m) (fresh, d) =
    let rest = get-evict key now m d in
    elim (Bool-cases (same k key)) [
      | inl e ↦
          let gone = get-absent key m (rw (same→eq k key e) at fresh) in
          elim (Bool-cases (is_older (window_ms + window_ms) now b)) [
            | inl o ↦ rw (e, o) (rest ∙ rw gone refl)
            | inr o ↦ rw (e, o) (rw e refl)
          ]
      | inr e ↦ elim (Bool-cases (is_older (window_ms + window_ms) now b)) [
        | inl o ↦ rw (e, o) rest
        | inr o ↦ rw (e, o) (rw e rest)
      ]
    ]

verdict_at : ℕ → ℕ → Option Bucket → Verdict
verdict_at limit now none = allowed
verdict_at limit now (some b) =
    if is_older window_ms now b
    then allowed
    else if ltb limit (b.count + 1)
    then denied ((b.window_start + window_ms - now + 999) / 1000)
    else allowed

-- The bucket that a request leaves under its key.
bucket_at : ℕ → Option Bucket → Bucket
bucket_at now none = record { count = 1; window_start = now }
bucket_at now (some b) =
    if is_older window_ms now b
    then record { count = 1; window_start = now }
    else record b { count = b.count + 1 }

check-at :
    (key : Text) (limit_per_min : Option ℕ) (now : ℕ) (m : Dict Bucket) (o : Option Bucket)
    → get key m ≡ o
    → check key limit_per_min now m ≡ record {
      verdict = verdict_at (get_or limit_per_min default_limit) now o;
      buckets = put key (bucket_at now o) m;
    }
unfolding check verdict_at bucket_at open_window count_request
check-at key limit_per_min now m none e = rw (e, check) refl
check-at key limit_per_min now m (some b) e = elim (Bool-cases (is_older window_ms now b)) [
  | inl o ↦ rw (e, check) (rw o refl)
  | inr o ↦ rw (e, check) (rw o refl)
]

-- Two buckets of a key that no request from a moment on tells apart: equal ones, or a missing one and
-- one whose window is over.
abbrev Alike : ℕ → Option Bucket → Option Bucket → Type 0
Alike moment a b =
    (a ≡ b)
    ⊎ ((a ≡ none) × (old : Bucket) × (b ≡ some old) × (is_older window_ms moment old ≡ true))

kept-Alike : (moment : ℕ) (o : Option Bucket) → Alike moment (kept moment o) o
kept-Alike moment none = inl refl
kept-Alike moment (some b) = elim (Bool-cases (is_older (window_ms + window_ms) moment b)) [
  | inl o ↦ rw o (inr (refl, b, refl, ground arith))
  | inr o ↦ rw o (inl refl)
]

Alike-at :
    (limit moment now : ℕ) (a b : Option Bucket)
    → moment ≤ now
    → Alike moment a b
    → (verdict_at limit now a ≡ verdict_at limit now b) × (bucket_at now a ≡ bucket_at now b)
unfolding verdict_at bucket_at
Alike-at limit moment now a b h (inl e) = rw e (refl, refl)
Alike-at limit moment now a b h (inr (gone, old, there, o)) =
    let older : is_older window_ms now old ≡ true = ground arith in
    rw (gone, there) (rw older (refl, refl))

Alike-put :
    (moment : ℕ) (key k : Text) (b : Bucket) (m n : Dict Bucket)
    → Alike moment (get k m) (get k n)
    → Alike moment (get k (put key b m)) (get k (put key b n))
Alike-put moment key k b m n alike = elim (Bool-cases (same key k)) [
  | inl e ↦ rw (get-put key k b m, get-put key k b n, e) (inl refl)
  | inr e ↦ rw (get-put key k b m, get-put key k b n, e) alike
]

module _ (limit_of : Text → Option ℕ) where
  -- The verdicts on requests, each with its key and its time.
  unfoldable pub verdicts : List (Text × ℕ) → Dict Bucket → List Verdict
  verdicts [] m = []
  verdicts ((key, now) ∷ later) m =
      let result = check key (limit_of key) now m in result.verdict ∷ verdicts later result.buckets

  verdicts-Alike :
      (moment : ℕ) (requests : List (Text × ℕ)) (m n : Dict Bucket)
      → All (λ r. moment ≤ r.1) requests
      → ((k : Text) → Alike moment (get k m) (get k n))
      → verdicts requests m ≡ verdicts requests n
  unfolding verdicts
  verdicts-Alike moment [] m n after alike = refl
  verdicts-Alike moment ((key, now) ∷ later) m n (here, after) alike =
      let (verdict, bucket) =
        Alike-at (get_or (limit_of key) default_limit) moment now (get key m) (get key n) here
          (alike key) in
      rw
        (
          check-at key (limit_of key) now m (get key m) refl,
          check-at key (limit_of key) now n (get key n) refl,
          verdict,
          bucket,
        )
        (ap (λ vs. verdict_at (get_or (limit_of key) default_limit) now (get key n) ∷ vs)
          (verdicts-Alike moment later (put key (bucket_at now (get key n)) m)
            (put key (bucket_at now (get key n)) n) after
            (λ k. Alike-put moment key k (bucket_at now (get key n)) m n (alike k))))

  -- Requests get the same verdicts whether or not stale buckets were evicted before: whatever requests
  -- follow the eviction, of any keys, at times that are not before it. The map of buckets holds each
  -- key once.
  pub check-evict :
      (moment : ℕ) (requests : List (Text × ℕ)) (buckets : Dict Bucket)
      → Distinct (keys buckets)
      → All (λ r. moment ≤ r.1) requests
      → verdicts requests (evict moment buckets) ≡ verdicts requests buckets
  check-evict moment requests buckets once after =
      verdicts-Alike moment requests (evict moment buckets) buckets after
        (λ k. rw (get-evict k moment buckets once) (kept-Alike moment (get k buckets)))
