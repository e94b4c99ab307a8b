-- ===== src/M2mApiKey/ApiKeys.antt =====
-- packages/m2m-api-key/src/api-keys.service.ts: `ApiKeysService`, on the table of API keys.
use appspine_packages.Base.{
  ℕ, zero, suc, ◌+◌, Bool, true, false, ◌&&◌, ◌||◌, not, Option, none, some, List, [], ◌∷◌, ◌++◌,
  map, if◌then◌else◌, all, find, select, is_empty, get_or, leb, ◌==◌, length, Text, text, same,
  includes, split_on, join, say, Result, ok, ◌>>=◌, ◌>>◌, guard, need,
}

-- The columns of a row that the sources read or write; timestamps that they only display are left out.
pub record ApiKey : Type 0 where
  pub id : Text
  pub name : Text
  pub key_prefix : Text
  pub hashed_key : Text
  pub role_id : Text
  pub acting_user_id : Option Text
  pub scopes : List Text
  pub rate_limit : Option ℕ
  pub is_active : Bool
  pub expires_at : Option ℕ
  pub created_by : Option Text
  pub last_used_at : Option ℕ

pub record CreateApiKeyDto : Type 0 where
  pub name : Text
  pub role_id : Text
  pub acting_user_id : Option Text
  pub scopes : List Text
  pub rate_limit : Option ℕ
  pub expires_at : Option Text

-- A field that may be missing; one that may also be null is an option of an option.
pub record UpdateApiKeyDto : Type 0 where
  pub name : Option Text
  pub role_id : Option Text
  pub acting_user_id : Option (Option Text)
  pub scopes : Option (List Text)
  pub rate_limit : Option (Option ℕ)
  pub is_active : Option Bool
  pub expires_at : Option (Option Text)

-- The fields of the response that come from the key.
pub record CreateApiKeyResponse : Type 0 where
  pub id : Text
  pub key : Text
  pub key_prefix : Text
  pub scopes : List Text

pub data ServiceError : Type 0 where
  bad_request : Text → ServiceError
  not_found : Text → ServiceError

-- What the service and the guard read of a user.
pub record User : Type 0 where
  pub is_active : Bool
  pub is_service_account : Bool

abbrev pub key_prefix_text : Text
unfolding text
key_prefix_text = text "an_live_"

abbrev prefix_display_length : ℕ
prefix_display_length = 16

abbrev take : ℕ → Text → Text
take n [] = []
take zero (c ∷ s) = []
take (suc n) (c ∷ s) = c ∷ take n s

-- `SCOPE_PATTERN`
abbrev pub is_scope_unit : ℕ → Bool
is_scope_unit c = (leb 97 c && leb c 122) || ((leb 48 c && leb c 57) || (c == 95 || c == 45))

unfoldable pub matches_pattern : List Text → Bool
matches_pattern (resource ∷ action ∷ []) =
    not (is_empty resource)
    && (all is_scope_unit resource
        && includes (text "read" ∷ text "write" ∷ text "call" ∷ text "*" ∷ []) action)
matches_pattern _ = false

unfoldable pub is_valid_scope : Text → Bool
is_valid_scope s = same s (text "*") || matches_pattern (split_on 58 s)

unfoldable pub validate_scopes : List Text → Result ServiceError (Unit {0})
validate_scopes scopes =
    let invalid = select (λ s. not (is_valid_scope s)) scopes in
    guard (is_empty invalid)
      (bad_request (say (text "Invalid scopes: " ∷ join (text ", ") invalid ∷ [])))

unfoldable pub find_one : Text → List ApiKey → Result ServiceError ApiKey
find_one id table =
    need (find (λ row. same row.id id) table)
      (not_found (say (text "ApiKey " ∷ id ∷ text " not found" ∷ [])))

-- `if (dto.scopes) this.validateScopes(dto.scopes)`
unfoldable pub check_scopes : Option (List Text) → Result ServiceError (Unit {0})
check_scopes none = ok tt
check_scopes (some scopes) = validate_scopes scopes

unfoldable pub assert_acting_user : (Text → Option User) → Text → Result ServiceError (Unit {0})
assert_acting_user find_user id = do
  user ← need (find_user id) (bad_request (say (text "Acting user " ∷ id ∷ text " not found" ∷ [])))
  guard user.is_service_account (
      bad_request (
        text
          "This account is not marked as a service account and cannot be bound as an API key acting user."))

-- `if (dto.actingUserId) await this.assertActingUser(dto.actingUserId)`
unfoldable pub check_acting_user :
    (Text → Option User) → Option Text → Result ServiceError (Unit {0})
check_acting_user find_user none = ok tt
check_acting_user find_user (some id) =
    if is_empty id then ok tt else assert_acting_user find_user id

-- `value ? new Date(value) : null`
date_of : (Text → ℕ) → Option Text → Option ℕ
date_of parse_date none = none
date_of parse_date (some s) = if is_empty s then none else some (parse_date s)

-- The row that `create` inserts; the random hexadecimal digits and the new ID are arguments.
unfoldable pub new_row :
    (Text → Text) → (Text → ℕ) → CreateApiKeyDto → Option Text → Text → Text → ApiKey
unfolding date_of
new_row sha256_hex parse_date dto created_by random_hex id = record {
  id = id;
  name = dto.name;
  key_prefix =
      take (length key_prefix_text + prefix_display_length) (key_prefix_text ++ random_hex);
  hashed_key = sha256_hex (key_prefix_text ++ random_hex);
  role_id = dto.role_id;
  acting_user_id = dto.acting_user_id;
  scopes = dto.scopes;
  rate_limit = dto.rate_limit;
  is_active = true;
  expires_at = date_of parse_date dto.expires_at;
  created_by = created_by;
  last_used_at = none;
}

unfoldable pub create :
    (Text → Text)
    → (Text → ℕ)
    → (Text → Option User)
    → CreateApiKeyDto
    → Option Text
    → Text
    → Text
    → List ApiKey
    → Result ServiceError (CreateApiKeyResponse × List ApiKey)
create sha256_hex parse_date find_user dto created_by random_hex id table = do
  validate_scopes dto.scopes
  check_acting_user find_user dto.acting_user_id
  let row = new_row sha256_hex parse_date dto created_by random_hex id
  ok (
    record {
      id = row.id;
      key = key_prefix_text ++ random_hex;
      key_prefix = row.key_prefix;
      scopes = row.scopes;
    },
    table ++ row ∷ [],
  )

-- The `data` of the update, applied to a row.
unfoldable pub changed_row : (Text → ℕ) → UpdateApiKeyDto → ApiKey → ApiKey
unfolding date_of
changed_row parse_date dto row = record row {
  name = get_or dto.name row.name;
  role_id = get_or dto.role_id row.role_id;
  acting_user_id = get_or dto.acting_user_id row.acting_user_id;
  scopes = get_or dto.scopes row.scopes;
  rate_limit = get_or dto.rate_limit row.rate_limit;
  is_active = get_or dto.is_active row.is_active;
  expires_at = elim dto.expires_at [
    | none ↦ row.expires_at
    | some value ↦ date_of parse_date value
  ];
}

unfoldable pub update :
    (Text → ℕ)
    → (Text → Option User)
    → Text
    → UpdateApiKeyDto
    → List ApiKey
    → Result ServiceError (List ApiKey)
update parse_date find_user id dto table = do
  row ← find_one id table
  check_scopes dto.scopes
  check_acting_user find_user (get_or dto.acting_user_id none)
  ok (map (λ r. if same r.id id then changed_row parse_date dto r else r) table)

unfoldable pub remove : Text → List ApiKey → Result ServiceError (List ApiKey)
remove id table = do row ← find_one id table; ok (select (λ r. not (same r.id id)) table)
