-- ===== src/M2mApiKey/Guard.antt =====
-- packages/m2m-api-key/src/api-key.guard.ts and api-key-machine.strategy.ts: the two ways in which a
-- request with an API key becomes a principal.
use appspine_packages.Base.{
  ℕ, Bool, true, ◌&&◌, Option, none, some, List, [], ◌∷◌, map, if◌then◌else◌, find, ltb, Text, text,
  same, starts_with, Dict, Result, ok, err,
}
use appspine_packages.M2mApiKey.RateLimiter.{Bucket, allowed, denied, Checked, check}
use appspine_packages.M2mApiKey.ApiKeys.{ApiKey, User, key_prefix_text}

-- What Express puts under a header.
pub data HeaderValue : Type 0 where
  absent : HeaderValue
  single : Text → HeaderValue
  several : List Text → HeaderValue

-- The principal, with the authorization that the RBAC policy gives it.
pub record Principal (Authorization : Type 0) : Type 0 where
  pub sub : Text
  pub authorization : Authorization
  pub scopes : List Text
  pub acting_user_id : Option Text

pub record Store : Type 0 where
  pub table : List ApiKey
  pub buckets : Dict Bucket

pub data Denial : Type 0 where
  refused : Denial
  too_many_requests : ℕ → Denial

pub data Rejection : Type 0 where
  unauthorized : Text → Rejection
  rate_limited : ℕ → Rejection

abbrev pub is_live : ℕ → Option ℕ → Bool
is_live now none = true
is_live now (some at) = ltb now at

-- The database's condition: an active row with the hash of the key that has not expired.
unfoldable pub is_usable : Text → ℕ → ApiKey → Bool
is_usable hashed now row =
    same row.hashed_key hashed && (row.is_active && is_live now row.expires_at)

abbrev pub touch : Text → ℕ → ApiKey → ApiKey
touch id now row = if same row.id id then record row { last_used_at = some now } else row

-- `apiKey.actingUser?.isActive ? apiKey.actingUser.id : null`
unfoldable pub acting_user_of : (Text → Option User) → Option Text → Option Text
acting_user_of find_user none = none
acting_user_of find_user (some id) = elim (find_user id) [
  | none ↦ none
  | some user ↦ if user.is_active then some id else none
]

module _ {Role Authorization : Type 0} (role_of : Text → Role)
    (find_user : Text → Option User) where
  unfoldable pub principal_of : (List Role → Authorization) → ApiKey → Principal Authorization
  principal_of flatten row = record {
    sub = row.id;
    authorization = flatten (role_of row.role_id ∷ []);
    scopes = row.scopes;
    acting_user_id = acting_user_of find_user row.acting_user_id;
  }

  -- What the rate limiter's verdict leads to.
  unfoldable pub admit_verdict :
      (List Role → Authorization)
      → ApiKey
      → ℕ
      → List ApiKey
      → Checked
      → Result Denial (Principal Authorization) × Store
  admit_verdict flatten row now table checked = elim checked.verdict [
    | allowed ↦ (
      ok (principal_of flatten row),
      record { table = map (touch row.id now) table; buckets = checked.buckets },
    )
    | denied retry_after ↦
        (err (too_many_requests retry_after), record { table = table; buckets = checked.buckets })
  ]

  -- From the rate limiter on.
  unfoldable pub admit :
      (List Role → Authorization)
      → ApiKey
      → ℕ
      → Store
      → Result Denial (Principal Authorization) × Store
  unfolding admit_verdict
  admit flatten row now store =
      admit_verdict flatten row now store.table (check row.id row.rate_limit now store.buckets)

  unfoldable pub admit_found :
      (List Role → Authorization)
      → Option ApiKey
      → ℕ
      → Store
      → Result Denial (Principal Authorization) × Store
  admit_found flatten none now store = (err refused, store)
  admit_found flatten (some row) now store = admit flatten row now store

  unfoldable pub admit_machine :
      (List Role → Authorization)
      → ApiKey
      → ℕ
      → Store
      → Result Rejection (Option (Principal Authorization)) × Store
  admit_machine flatten row now store =
      let checked = check row.id row.rate_limit now store.buckets in
      elim checked.verdict [
        | allowed ↦ (
          ok (some (principal_of flatten row)),
          record { table = map (touch row.id now) store.table; buckets = checked.buckets },
        )
        | denied retry_after ↦
            (err (rate_limited retry_after), record store { buckets = checked.buckets })
      ]

  unfoldable pub authenticate_found :
      (List Role → Authorization)
      → Option ApiKey
      → ℕ
      → Store
      → Result Rejection (Option (Principal Authorization)) × Store
  authenticate_found flatten none now store = (err (unauthorized (text "Invalid API key")), store)
  authenticate_found flatten (some row) now store = admit_machine flatten row now store

module _ {Role Authorization : Type 0} (sha256_hex : Text → Text) (role_of : Text → Role)
    (find_user : Text → Option User) where
  -- `ApiKeyGuard.canActivate`
  unfoldable pub can_activate :
      Option (List Role → Authorization)
      → HeaderValue
      → ℕ
      → Store
      → Result Denial (Principal Authorization) × Store
  can_activate none header now store = (err refused, store)
  can_activate (some flatten) absent now store = (err refused, store)
  can_activate (some flatten) (several values) now store = (err refused, store)
  can_activate (some flatten) (single raw_key) now store =
      if starts_with raw_key key_prefix_text
      then admit_found role_of find_user flatten
          (find (is_usable (sha256_hex raw_key) now) store.table) now store
      else (err refused, store)

  -- The strategy from the rate limiter on.
  unfoldable pub authenticate_key :
      Option (List Role → Authorization)
      → Text
      → ℕ
      → Store
      → Result Rejection (Option (Principal Authorization)) × Store
  authenticate_key none raw_key now store = (
    err (
        unauthorized
          (text "API key authentication is unavailable: no RBAC policy provider registered")),
    store,
  )
  authenticate_key (some flatten) raw_key now store =
      authenticate_found role_of find_user flatten
        (find (is_usable (sha256_hex raw_key) now) store.table) now store

  -- `ApiKeyMachineStrategy.authenticate`
  unfoldable pub authenticate :
      Option (List Role → Authorization)
      → HeaderValue
      → ℕ
      → Store
      → Result Rejection (Option (Principal Authorization)) × Store
  authenticate policy absent now store = (ok none, store)
  authenticate policy (several values) now store = (ok none, store)
  authenticate policy (single raw_key) now store =
      if starts_with raw_key key_prefix_text
      then authenticate_key policy raw_key now store
      else (err (unauthorized (text "Invalid API key")), store)
