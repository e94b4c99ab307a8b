-- ===== src/M2mApiKey/Validity.antt =====
-- packages/m2m-api-key/src/api-keys.service.ts and api-key.guard.ts: the scopes of the stored keys.
use appspine_packages.Base.{
  ℕ, ◌≡◌, refl, sym, subst, inl, inr, Bool, true, false, not, Option, none, some, List, [], ◌∷◌,
  map, if◌then◌else◌, All, All-append, All-select, find, find-All, select, is_empty, get_or,
  Bool-cases, Option-cases, Text, same, Dict, Result, ok, err, Result-cases, >>-eq-ok, >>=-eq-ok,
  ok-inj, guard, starts_with,
}
use appspine_packages.M2mApiKey.RateLimiter.{Bucket, Verdict, allowed, denied, check}
use appspine_packages.M2mApiKey.ApiKeys.{
  ApiKey, CreateApiKeyDto, UpdateApiKeyDto, CreateApiKeyResponse, ServiceError, User,
  is_valid_scope, key_prefix_text, validate_scopes, find_one, new_row, create, changed_row,
  check_scopes, update, remove, check_acting_user,
}
use appspine_packages.M2mApiKey.Guard.{
  HeaderValue, absent, single, several, Principal, Store, is_usable, touch, principal_of, admit,
  admit_verdict, admit_found, can_activate,
}
use appspine_packages.M2mApiKey.Scopes.Matching.{AllValid}
use appspine_packages.M2mApiKey.Admission.{inserted}

-- Every stored key has valid scopes.
abbrev pub IsValid : List ApiKey → Type 0
IsValid table = All (λ row. AllValid row.scopes) table

none_invalid :
    (scopes : List Text)
    → is_empty (select (λ s. not (is_valid_scope s)) scopes) ≡ true
    → AllValid scopes
none_invalid [] h = tt
none_invalid (s ∷ scopes) h = elim (Bool-cases (is_valid_scope s)) [
  | inl e ↦ (e, none_invalid scopes (rw e at h))
  | inr e ↦ cc (rw e at h)
]

guard-true {ℓ} : {E : Type ℓ} (b : Bool) (e : E) → guard b e ≡ ok tt → b ≡ true
guard-true true e h = refl
guard-true false e h = cc

validate_scopes-AllValid : (scopes : List Text) → validate_scopes scopes ≡ ok tt → AllValid scopes
unfolding validate_scopes
validate_scopes-AllValid scopes h = none_invalid scopes (guard-true _ _ h)

check_scopes-AllValid :
    (scopes : Option (List Text)) (old : List Text)
    → check_scopes scopes ≡ ok tt
    → AllValid old
    → AllValid (get_or scopes old)
unfolding check_scopes
check_scopes-AllValid none old h v = v
check_scopes-AllValid (some scopes) old h v = validate_scopes-AllValid scopes h

All-map_same :
    (f : ApiKey → ApiKey) (table : List ApiKey)
    → ((row : ApiKey) → AllValid row.scopes → AllValid (f row).scopes)
    → IsValid table
    → IsValid (map f table)
All-map_same f [] k v = tt
All-map_same f (row ∷ table) k (here, v) = (k row here, All-map_same f table k v)

remove-IsValid :
    (id : Text) (table left : List ApiKey)
    → remove id table ≡ ok left
    → IsValid table
    → IsValid left
unfolding remove
remove-IsValid id table left h v =
    let (row, found, rest) = >>=-eq-ok (find_one id table) _ h in
    subst IsValid (ok-inj rest) (All-select _ _ table v)

module _ (sha256_hex : Text → Text) (parse_date : Text → ℕ) (find_user : Text → Option User) where
  create-IsValid :
      (dto : CreateApiKeyDto) (created_by : Option Text) (hex id : Text) (table : List ApiKey)
      (answer : CreateApiKeyResponse × List ApiKey)
      → create sha256_hex parse_date find_user dto created_by hex id table ≡ ok answer
      → IsValid table
      → IsValid answer.1
  unfolding create new_row
  create-IsValid dto created_by hex id table answer h v =
      let (rows, _) =
        inserted sha256_hex parse_date find_user dto created_by hex id table answer h in
      let valid =
        validate_scopes-AllValid dto.scopes (>>-eq-ok (validate_scopes dto.scopes) _ h).0 in
      subst IsValid (sym rows) (All-append _ table _ v (valid, tt))

  changed_row-AllValid :
      (id : Text) (dto : UpdateApiKeyDto) (row : ApiKey)
      → check_scopes dto.scopes ≡ ok tt
      → AllValid row.scopes
      → AllValid (if same row.id id then changed_row parse_date dto row else row).scopes
  unfolding changed_row
  changed_row-AllValid id dto row h v = elim (Bool-cases (same row.id id)) [
    | inl e ↦ rw e (check_scopes-AllValid dto.scopes row.scopes h v)
    | inr e ↦ rw e v
  ]

  update-IsValid :
      (id : Text) (dto : UpdateApiKeyDto) (table left : List ApiKey)
      → update parse_date find_user id dto table ≡ ok left
      → IsValid table
      → IsValid left
  unfolding update
  update-IsValid id dto table left h v =
      let (row, found, rest) = >>=-eq-ok (find_one id table) _ h in
      let (valid, later) = >>-eq-ok (check_scopes dto.scopes) _ rest in
      let (_, made) =
        >>-eq-ok (check_acting_user find_user (get_or dto.acting_user_id none)) _ later in
      subst IsValid (ok-inj made)
        (All-map_same _ table (λ r k. changed_row-AllValid id dto r valid k) v)

touch-AllValid :
    (id : Text) (now : ℕ) (row : ApiKey) → AllValid row.scopes → AllValid (touch id now row).scopes
touch-AllValid id now row v = elim (Bool-cases (same row.id id)) [ inl e ↦ rw e v | inr e ↦ rw e v ]

-- What administrators and callers do: the operations of the service, and requests to the guard.
pub data Action (Role Authorization : Type 0) : Type 0 where
  create_key : CreateApiKeyDto → Option Text → Text → Text → Action Role Authorization
  update_key : Text → UpdateApiKeyDto → Action Role Authorization
  remove_key : Text → Action Role Authorization
  request : Option (List Role → Authorization) → HeaderValue → ℕ → Action Role Authorization

-- An operation that throws leaves the table as it was.
abbrev pub table_of : List ApiKey → Result ServiceError (List ApiKey) → List ApiKey
table_of table (ok left) = left
table_of table (err e) = table

abbrev pub created_table :
    List ApiKey → Result ServiceError (CreateApiKeyResponse × List ApiKey) → List ApiKey
created_table table (ok answer) = answer.1
created_table table (err e) = table

module _ {Role Authorization : Type 0} (sha256_hex : Text → Text) (parse_date : Text → ℕ)
    (role_of : Text → Role) (find_user : Text → Option User) where
  unfoldable pub act : Action Role Authorization → Store → Store
  act (create_key dto created_by hex id) store = record store {
    table =
        created_table store.table
          (create sha256_hex parse_date find_user dto created_by hex id store.table);
  }
  act (update_key id dto) store = record store {
    table = table_of store.table (update parse_date find_user id dto store.table);
  }
  act (remove_key id) store = record store { table = table_of store.table (remove id store.table) }
  act (request policy header now) store =
      (can_activate sha256_hex role_of find_user policy header now store).1

  unfoldable pub act_all : List (Action Role Authorization) → Store → Store
  unfolding act
  act_all [] store = store
  act_all (a ∷ actions) store = act_all actions (act a store)

  admit_verdict-IsValid :
      (flatten : List Role → Authorization) (row : ApiKey) (now : ℕ) (table : List ApiKey)
      (verdict : Verdict) (buckets : Dict Bucket)
      → IsValid table
      → IsValid
          (admit_verdict role_of find_user flatten row now table
            (record { verdict = verdict; buckets = buckets })).1.table
  unfolding admit_verdict
  admit_verdict-IsValid flatten row now table allowed buckets v =
      All-map_same (touch row.id now) table (λ r k. touch-AllValid row.id now r k) v
  admit_verdict-IsValid flatten row now table (denied seconds) buckets v = v

  admit_found-IsValid :
      (flatten : List Role → Authorization) (found : Option ApiKey) (now : ℕ) (store : Store)
      → IsValid store.table
      → IsValid (admit_found role_of find_user flatten found now store).1.table
  unfolding admit_found admit
  admit_found-IsValid flatten none now store v = v
  admit_found-IsValid flatten (some row) now store v =
      let checked = check row.id row.rate_limit now store.buckets in
      admit_verdict-IsValid flatten row now store.table checked.verdict checked.buckets v

  can_activate-IsValid :
      (policy : Option (List Role → Authorization)) (header : HeaderValue) (now : ℕ) (store : Store)
      → IsValid store.table
      → IsValid (can_activate sha256_hex role_of find_user policy header now store).1.table
  unfolding can_activate
  can_activate-IsValid none header now store v = v
  can_activate-IsValid (some flatten) absent now store v = v
  can_activate-IsValid (some flatten) (several ks) now store v = v
  can_activate-IsValid (some flatten) (single k) now store v =
      elim (Bool-cases (starts_with k key_prefix_text)) [
        | inl e ↦ rw e (admit_found-IsValid flatten _ now store v)
        | inr e ↦ rw e v
      ]

  act-IsValid :
      (a : Action Role Authorization) (store : Store)
      → IsValid store.table
      → IsValid (act a store).table
  unfolding act
  act-IsValid (create_key dto created_by hex id) store v =
      elim (Result-cases
        (create sha256_hex parse_date find_user dto created_by hex id store.table)) [
          | inl (answer, e) ↦ rw e (
              create-IsValid sha256_hex parse_date find_user dto created_by hex id store.table
                answer e v)
          | inr (x, e) ↦ rw e v
        ]
  act-IsValid (update_key id dto) store v =
      elim (Result-cases (update parse_date find_user id dto store.table)) [
        | inl (left, e) ↦
            rw e (update-IsValid sha256_hex parse_date find_user id dto store.table left e v)
        | inr (x, e) ↦ rw e v
      ]
  act-IsValid (remove_key id) store v = elim (Result-cases (remove id store.table)) [
    | inl (left, e) ↦ rw e (remove-IsValid id store.table left e v)
    | inr (x, e) ↦ rw e v
  ]
  act-IsValid (request policy header now) store v = can_activate-IsValid policy header now store v

  act_all-IsValid :
      (actions : List (Action Role Authorization)) (store : Store)
      → IsValid store.table
      → IsValid (act_all actions store).table
  unfolding act_all
  act_all-IsValid [] store v = v
  act_all-IsValid (a ∷ actions) store v =
      act_all-IsValid actions (act a store) (act-IsValid a store v)

  admit_verdict-AllValid :
      (flatten : List Role → Authorization) (row : ApiKey) (now : ℕ) (table : List ApiKey)
      (verdict : Verdict) (buckets : Dict Bucket) (p : Principal Authorization)
      → AllValid row.scopes
      → (admit_verdict role_of find_user flatten row now table
          (record { verdict = verdict; buckets = buckets })).0
        ≡ ok p
      → AllValid p.scopes
  unfolding admit_verdict principal_of
  admit_verdict-AllValid flatten row now table allowed buckets p v h =
      subst (λ q. AllValid q.scopes) (ok-inj h) v
  admit_verdict-AllValid flatten row now table (denied seconds) buckets p v h = cc

  can_activate-AllValid :
      (policy : Option (List Role → Authorization)) (header : HeaderValue) (now : ℕ) (store : Store)
      (p : Principal Authorization)
      → IsValid store.table
      → (can_activate sha256_hex role_of find_user policy header now store).0 ≡ ok p
      → AllValid p.scopes
  unfolding can_activate admit_found admit
  can_activate-AllValid none header now store p v h = cc
  can_activate-AllValid (some flatten) absent now store p v h = cc
  can_activate-AllValid (some flatten) (several ks) now store p v h = cc
  can_activate-AllValid (some flatten) (single k) now store p v h =
      elim (Bool-cases (starts_with k key_prefix_text)) [
        | inr e ↦ cc (rw e at h)
        | inl e ↦ elim (Option-cases (find (is_usable (sha256_hex k) now) store.table)) [
          | inl f ↦ cc (rw (e, f) at h)
          | inr (row, f) ↦
              let checked = check row.id row.rate_limit now store.buckets in
              admit_verdict-AllValid flatten row now store.table checked.verdict checked.buckets p
                (find-All _ _ store.table row v f) (rw (e, f) at h)
        ]
      ]

  -- Whatever was done with API keys from the first one on, a principal that the guard lets in has valid
  -- scopes only.
  pub act_all-AllValid :
      (actions : List (Action Role Authorization)) (buckets : Dict Bucket)
      (policy : Option (List Role → Authorization)) (header : HeaderValue) (now : ℕ)
      (p : Principal Authorization)
      → (can_activate sha256_hex role_of find_user policy header now
          (act_all actions (record { table = []; buckets = buckets }))).0
        ≡ ok p
      → AllValid p.scopes
  act_all-AllValid actions buckets policy header now p h =
      let store = act_all actions (record { table = []; buckets = buckets }) in
      can_activate-AllValid policy header now store p (act_all-IsValid actions _ tt) h
