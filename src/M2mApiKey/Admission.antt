-- ===== src/M2mApiKey/Admission.antt =====
-- packages/m2m-api-key/src/api-key.guard.ts, api-key-machine.strategy.ts and api-keys.service.ts: who is
-- let in.
use appspine_packages.Base.{
  ℕ, ◌≡◌, refl, sym, ap, inl, inr, Bool, true, false, Option, none, some, List, [], ◌∷◌, ◌++◌,
  arith, All, find, Bool-cases, Text, same, same_refl, starts_with, Dict, get, Result, ok, err,
  >>-eq-ok, ok-inj,
}
use appspine_packages.M2mApiKey.RateLimiter.{Bucket, check, open_window}
use appspine_packages.M2mApiKey.ApiKeys.{
  ApiKey, CreateApiKeyDto, CreateApiKeyResponse, User, key_prefix_text, validate_scopes, new_row,
  create, check_acting_user,
}
use appspine_packages.M2mApiKey.Guard.{
  HeaderValue, absent, single, several, Store, admit_verdict, Denial, refused, too_many_requests,
  Rejection, unauthorized, rate_limited, is_live, is_usable, acting_user_of, principal_of, admit,
  admit_found, authenticate_found, can_activate, admit_machine, authenticate_key, authenticate,
}

-- What the guard makes of the strategy's answer: it refuses whatever is no principal.
abbrev pub guard_view : {A : Type 0} → Result Rejection (Option A) → Result Denial A
guard_view (ok none) = err refused
guard_view (ok (some a)) = ok a
guard_view (err (unauthorized message)) = err refused
guard_view (err (rate_limited seconds)) = err (too_many_requests seconds)

module _ {Role Authorization : Type 0} (sha256_hex : Text → Text) (role_of : Text → Role)
    (find_user : Text → Option User) where
  admit-admit_machine :
      (flatten : List Role → Authorization) (row : ApiKey) (now : ℕ) (store : Store)
      → admit role_of find_user flatten row now store ≡ (
          let answer = admit_machine role_of find_user flatten row now store in
          (guard_view answer.0, answer.1))
  unfolding admit admit_verdict admit_machine
  admit-admit_machine flatten row now store = ground arith

  admit_found-authenticate_found :
      (flatten : List Role → Authorization) (found : Option ApiKey) (now : ℕ) (store : Store)
      → admit_found role_of find_user flatten found now store ≡ (
          let answer = authenticate_found role_of find_user flatten found now store in
          (guard_view answer.0, answer.1))
  unfolding admit_found authenticate_found
  admit_found-authenticate_found flatten none now store = refl
  admit_found-authenticate_found flatten (some row) now store =
      admit-admit_machine flatten row now store

  -- The guard and the strategy let in the same requests, with the same principal, and leave the table
  -- and the buckets alike; whatever the strategy rejects or leaves to others, the guard refuses, and
  -- both tell a limited caller the same time to wait.
  pub can_activate-authenticate :
      (policy : Option (List Role → Authorization)) (header : HeaderValue) (now : ℕ) (store : Store)
      → can_activate sha256_hex role_of find_user policy header now store ≡ (
          let answer = authenticate sha256_hex role_of find_user policy header now store in
          (guard_view answer.0, answer.1))
  unfolding can_activate authenticate authenticate_key
  can_activate-authenticate none absent now store = refl
  can_activate-authenticate none (single k) now store = ground arith
  can_activate-authenticate none (several ks) now store = refl
  can_activate-authenticate (some flatten) absent now store = refl
  can_activate-authenticate (some flatten) (single k) now store =
      elim (Bool-cases (starts_with k key_prefix_text)) [
        | inl e ↦ rw e (admit_found-authenticate_found flatten _ now store)
        | inr e ↦ rw e refl
      ]
  can_activate-authenticate (some flatten) (several ks) now store = refl

starts_with-append : (p s : Text) → starts_with (p ++ s) p ≡ true
unfolding starts_with
starts_with-append [] [] = refl
starts_with-append [] (c ∷ s) = refl
starts_with-append (c ∷ p) s = ground (arith, starts_with-append p s)

-- A row behind rows that do not fit is the one found.
find-append_last {ℓ} :
    {A : Type ℓ} (p : A → Bool) (xs : List A) (y : A)
    → All (λ x. p x ≡ false) xs
    → p y ≡ true
    → find p (xs ++ y ∷ []) ≡ some y
find-append_last p [] y h k = rw k refl
find-append_last p (x ∷ xs) y (here, h) k = rw here (find-append_last p xs y h k)

not_usable :
    (hashed : Text) (now : ℕ) (table : List ApiKey)
    → All (λ row. same row.hashed_key hashed ≡ false) table
    → All (λ row. is_usable hashed now row ≡ false) table
unfolding is_usable
not_usable hashed now [] h = tt
not_usable hashed now (row ∷ table) (here, h) = (ground arith, not_usable hashed now table h)

module _ (sha256_hex : Text → Text) (parse_date : Text → ℕ) (find_user : Text → Option User) where
  pub inserted :
      (dto : CreateApiKeyDto) (created_by : Option Text) (hex id : Text) (table : List ApiKey)
      (answer : CreateApiKeyResponse × List ApiKey)
      → create sha256_hex parse_date find_user dto created_by hex id table ≡ ok answer
      → (answer.1 ≡ table ++ new_row sha256_hex parse_date dto created_by hex id ∷ [])
        × (answer.0.key ≡ key_prefix_text ++ hex)
  unfolding create
  inserted dto created_by hex id table answer h =
      let valid = (>>-eq-ok (validate_scopes dto.scopes) _ h).1 in
      let made = ok-inj (>>-eq-ok (check_acting_user find_user dto.acting_user_id) _ valid).1 in
      (ap (λ r. r.1) (sym made), ap (λ r. r.0.key) (sym made))

  new_usable :
      (dto : CreateApiKeyDto) (created_by : Option Text) (hex id : Text) (now : ℕ)
      → is_live now (new_row sha256_hex parse_date dto created_by hex id).expires_at ≡ true
      → is_usable
          (sha256_hex (key_prefix_text ++ hex))
          now
          (new_row sha256_hex parse_date dto created_by hex id)
        ≡ true
  unfolding is_usable new_row
  new_usable dto created_by hex id now live =
      rw (same_refl (sha256_hex (key_prefix_text ++ hex)), live) refl

module _ {Role Authorization : Type 0} (sha256_hex : Text → Text) (parse_date : Text → ℕ)
    (role_of : Text → Role) (find_user : Text → Option User) where
  admit_new :
      (flatten : List Role → Authorization) (row : ApiKey) (now : ℕ) (store : Store)
      → get row.id store.buckets ≡ none
      → (admit role_of find_user flatten row now store).0
        ≡ ok (principal_of role_of find_user flatten row)
  unfolding admit admit_verdict principal_of check acting_user_of open_window
  admit_new flatten row now store h = rw (h, admit, admit_verdict, check, open_window) refl

  -- A key that was just created works: the guard takes it for the ID, the role and the scopes that were
  -- asked for, if no other row has its hash, it has not expired, and it was not used before.
  pub create-can_activate :
      (flatten : List Role → Authorization) (dto : CreateApiKeyDto) (created_by : Option Text)
      (hex id : Text) (table : List ApiKey) (answer : CreateApiKeyResponse × List ApiKey) (now : ℕ)
      (buckets : Dict Bucket)
      → create sha256_hex parse_date find_user dto created_by hex id table ≡ ok answer
      → All (λ row. same row.hashed_key (sha256_hex (key_prefix_text ++ hex)) ≡ false) table
      → is_live now (new_row sha256_hex parse_date dto created_by hex id).expires_at ≡ true
      → get id buckets ≡ none
      → (can_activate sha256_hex role_of find_user
          (some flatten)
          (single answer.0.key)
          now
          (record { table = answer.1; buckets = buckets })).0
        ≡ ok (record {
          sub = id;
          authorization = flatten (role_of dto.role_id ∷ []);
          scopes = dto.scopes;
          acting_user_id = acting_user_of find_user dto.acting_user_id;
        })
  unfolding can_activate admit_found principal_of new_row
  create-can_activate flatten dto created_by hex id table answer now buckets h others live fresh =
      let (rows, key) =
        inserted sha256_hex parse_date find_user dto created_by hex id table answer h in
      let row = new_row sha256_hex parse_date dto created_by hex id in
      let store : Store = record { table = table ++ row ∷ []; buckets = buckets } in
      let found : find (is_usable (sha256_hex (key_prefix_text ++ hex)) now) (table ++ row ∷ [])
          ≡ some row =
        find-append_last _ table row (not_usable _ now table others)
          (new_usable sha256_hex parse_date find_user dto created_by hex id now live) in
      rw (rows, key, starts_with-append key_prefix_text hex, found)
        (admit_new flatten row now store fresh)
