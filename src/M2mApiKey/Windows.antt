-- ===== src/M2mApiKey/Windows.antt =====
-- packages/m2m-api-key/src/api-key-rate-limiter.ts: the requests of a window.
use appspine_packages.Base.{
  ℕ, ◌+◌, ◌≤◌, ◌<◌, ◌≡◌, refl, ◌∙◌, ap, ◌⊎◌, inl, inr, false, Option, some, List, [], ◌∷◌, arith,
  if◌then◌else◌, ltb, get_or, All, Bool-cases, Text, same_refl, Dict, get, put, get-put,
}
use appspine_packages.M2mApiKey.RateLimiter.{
  Bucket, Verdict, allowed, denied, is_older, window_ms, default_limit, count_request, open_window,
  check,
}

abbrev admits : Verdict → ℕ
admits allowed = 1
admits (denied after) = 0

-- How many of the requests at these times are allowed.
unfoldable pub allowed_count : Text → Option ℕ → List ℕ → Dict Bucket → ℕ
allowed_count key limit [] buckets = 0
allowed_count key limit (now ∷ later) buckets =
    let result = check key limit now buckets in
    let rest = allowed_count key limit later result.buckets in admits result.verdict + rest

within :
    (count n limit admitted : ℕ)
    → admitted ≡ (if ltb limit (count + 1) then 0 else 1)
    → ((count + 1) + n ≤ limit) ⊎ (n ≡ 0)
    → (count + (admitted + n) ≤ limit) ⊎ (admitted + n ≡ 0)
within count n limit admitted e (inl h) = ground arith
within count n limit admitted e (inr h) = ground arith

module _ (key : Text) (limit_per_min : Option ℕ) where
  abbrev cap : ℕ
  cap = get_or limit_per_min default_limit

  count_request-admits :
      (bucket : Bucket) (now : ℕ) (buckets : Dict Bucket)
      → admits (count_request key cap now bucket buckets).verdict
        ≡ (if ltb cap (bucket.count + 1) then 0 else 1)
  unfolding count_request
  count_request-admits bucket now buckets = elim (Bool-cases (ltb cap (bucket.count + 1))) [
    | inl e ↦ rw e refl
    | inr e ↦ rw e refl
  ]

  check-count_request :
      (bucket : Bucket) (now : ℕ) (buckets : Dict Bucket)
      → get key buckets ≡ some bucket
      → now < bucket.window_start + window_ms
      → check key limit_per_min now buckets ≡ count_request key cap now bucket buckets
  unfolding check
  check-count_request bucket now buckets h here =
      let young : is_older window_ms now bucket ≡ false = ground arith in
      rw (h, check) (rw young refl)

  count_request-buckets :
      (bucket : Bucket) (now : ℕ) (buckets : Dict Bucket)
      → get key (count_request key cap now bucket buckets).buckets
        ≡ some (record bucket { count = bucket.count + 1 })
  unfolding count_request
  count_request-buckets bucket now buckets = get-put key key _ buckets ∙ rw same_refl refl

  -- Within a window the count goes up with each request, and only those up to the limit pass.
  count_within :
      (bucket : Bucket) (times : List ℕ) (buckets : Dict Bucket)
      → get key buckets ≡ some bucket
      → All (λ t. t < bucket.window_start + window_ms) times
      → (bucket.count + allowed_count key limit_per_min times buckets ≤ cap)
        ⊎ (allowed_count key limit_per_min times buckets ≡ 0)
  unfolding allowed_count
  count_within bucket [] buckets h w = inr refl
  count_within bucket (now ∷ later) buckets h (here, w) =
      let step = count_request key cap now bucket buckets in
      let rest =
        count_within (record bucket { count = bucket.count + 1 }) later step.buckets
          (count_request-buckets bucket now buckets) w in
      rw (check-count_request bucket now buckets h here) (
        within bucket.count (allowed_count key limit_per_min later step.buckets) cap _
          (count_request-admits bucket now buckets) rest)

  -- The request that opens a window passes, and from it to the window's end no more requests pass
  -- than the limit says, or else that one alone.
  pub allowed_count-le :
      (first : ℕ) (later : List ℕ) (buckets : Dict Bucket)
      → check key limit_per_min first buckets ≡ open_window key first buckets
      → All (λ t. t < first + window_ms) later
      → ((check key limit_per_min first buckets).verdict ≡ allowed)
        × ((allowed_count key limit_per_min (first ∷ later) buckets ≤ cap)
            ⊎ (allowed_count key limit_per_min (first ∷ later) buckets ≡ 1))
  unfolding allowed_count open_window
  allowed_count-le first later buckets opened w =
      let bucket : Bucket = record { count = 1; window_start = first } in
      let rest =
        count_within bucket later (put key bucket buckets)
          (get-put key key bucket buckets ∙ rw same_refl refl) w in
      (
        ap (λ c. c.verdict) opened,
        rw opened (elim rest [ inl le ↦ inl le | inr none_more ↦ inr (omega arith) ]),
      )
