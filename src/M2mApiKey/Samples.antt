-- ===== src/M2mApiKey/Samples.antt =====
-- Requests with an API key that may make two a minute.
use appspine_packages.Base.{
  ℕ, ◌+◌, ◌<◌, ◌≤◌, ◌≡◌, Text, refl, ◌⊎◌, arith, some, List, [], ◌∷◌, All, text, same, includes,
  Dict, get, put, keys, Distinct,
}
use appspine_packages.M2mApiKey.RateLimiter.{
  Bucket, allowed, check, open_window, count_request, evict, window_ms,
}
use appspine_packages.M2mApiKey.Windows.{allowed_count, allowed_count-le}
use appspine_packages.M2mApiKey.Eviction.{verdicts, check-evict}

abbrev times : List ℕ
times = 100 ∷ 200 ∷ 300 ∷ []

abbrev nothing : Dict Bucket
nothing = []

abbrev bucket : ℕ → Bucket
bucket start = record { count = 1; window_start = start }

abbrev buckets : Dict Bucket
buckets = (text "a", bucket 0) ∷ (text "b", bucket 150000) ∷ []

opens : check (text "a") (some 2) 0 nothing ≡ open_window (text "a") 0 nothing
unfolding check get
opens = refl

soon : All (λ t. t < 0 + window_ms) times
soon = (omega arith, (omega arith, (omega arith, tt)))

buckets-Distinct : Distinct (keys buckets)
unfolding includes same text
buckets-Distinct = (refl, (refl, tt))

count_test : allowed_count (text "a") (some 2) (0 ∷ times) nothing ≡ 2
unfolding allowed_count check open_window count_request get put same text
count_test = refl

zero_test : allowed_count (text "a") (some 0) (0 ∷ times) nothing ≡ 1
unfolding allowed_count check open_window count_request get put same text
zero_test = refl

allowed_count-le_example :
    ((check (text "a") (some 2) 0 nothing).verdict ≡ allowed)
    × ((allowed_count (text "a") (some 2) (0 ∷ times) nothing ≤ 2)
        ⊎ (allowed_count (text "a") (some 2) (0 ∷ times) nothing ≡ 1))
allowed_count-le_example = allowed_count-le (text "a") (some 2) 0 times nothing opens soon

abbrev after_eviction : List (Text × ℕ)
after_eviction = (text "a", 160000) ∷ (text "b", 170000) ∷ (text "a", 230000) ∷ []

not_before : All (λ r. 160000 ≤ r.1) after_eviction
not_before = (omega arith, (omega arith, (omega arith, tt)))

check-evict_example :
    verdicts (λ k. some 2) after_eviction (evict 160000 buckets)
    ≡ verdicts (λ k. some 2) after_eviction buckets
check-evict_example =
    check-evict (λ k. some 2) 160000 after_eviction buckets buckets-Distinct not_before
