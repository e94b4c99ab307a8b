-- ===== src/M2mApiKey/AccessSamples.antt =====
-- A table of API keys, a new key, and requests with it.
use appspine_packages.Base.{
  ℕ, ◌≡◌, refl, true, ◌&&◌, not, Option, none, some, List, [], ◌∷◌, ◌++◌, All, all, is_empty,
  get_or, or_else, Text, text, same, includes, split_on, starts_with, get, Dict, ok, is_ok,
}
use appspine_packages.M2mApiKey.RateLimiter.{Bucket, check, open_window}
use appspine_packages.M2mApiKey.Scopes.{RequestUser, scope_guard}
use appspine_packages.M2mApiKey.Scopes.Matching.{AllValid, covers, scope_guard_exact}
use appspine_packages.M2mApiKey.ApiKeys.{
  ApiKey, CreateApiKeyDto, CreateApiKeyResponse, User, key_prefix_text, is_valid_scope,
  matches_pattern, new_row, create, validate_scopes, check_acting_user, assert_acting_user,
}
use appspine_packages.M2mApiKey.Guard.{
  single, Principal, acting_user_of, is_live, can_activate, authenticate, admit, admit_verdict,
  admit_found, is_usable, principal_of,
}
use appspine_packages.M2mApiKey.Admission.{
  guard_view, can_activate-authenticate, create-can_activate,
}
use appspine_packages.M2mApiKey.Validity.{Action, create_key, act, act_all, act_all-AllValid}

abbrev user : RequestUser
user = record { is_api_key = some true; scopes = some (text "users:*" ∷ text "orders:read" ∷ []) }

abbrev route : Option (List Text)
route = some (text "users:read" ∷ text "orders:read" ∷ [])

user_valid : AllValid (get_or user.scopes [])
unfolding is_valid_scope matches_pattern text same split_on includes
user_valid = (refl, (refl, tt))

route_valid :
    All
      (λ s. matches_pattern (split_on 58 s) ≡ true)
      (get_or (or_else {A = List Text} none route) [])
unfolding matches_pattern text split_on includes same
route_valid = (refl, (refl, tt))

scope_guard_exact_example : is_ok (scope_guard none route (some user)) ≡ (
    not (is_empty (get_or (or_else {A = List Text} none route) []))
    && all (covers (get_or user.scopes [])) (get_or (or_else {A = List Text} none route) []))
scope_guard_exact_example = scope_guard_exact none route user refl user_valid route_valid

-- Hashing that only marks a text.
abbrev mark : Text → Text
mark t = 35 ∷ t

abbrev epoch : Text → ℕ
epoch t = 1000

abbrev role_name : Text → Text
role_name id = id

abbrev robots : Text → Option User
robots id = some (record { is_active = true; is_service_account = true })

abbrev flatten : List Text → Text
flatten [] = []
flatten (role ∷ rest) = role

abbrev dto : CreateApiKeyDto
dto = record {
  name = text "ci";
  role_id = text "reader";
  acting_user_id = some (text "robot");
  scopes = text "users:read" ∷ [];
  rate_limit = some 5;
  expires_at = some (text "2030");
}

abbrev hex : Text
unfolding text
hex = text "00ff"

abbrev answer : CreateApiKeyResponse × List ApiKey
answer = (
  record {
    id = text "k1";
    key = key_prefix_text ++ hex;
    key_prefix = key_prefix_text ++ hex;
    scopes = text "users:read" ∷ [];
  },
  new_row mark epoch dto none hex (text "k1") ∷ [],
)

created : create mark epoch robots dto none hex (text "k1") [] ≡ ok answer
unfolding create new_row validate_scopes is_valid_scope matches_pattern check_acting_user
    assert_acting_user text same split_on includes
created = refl

live : is_live 10 (new_row mark epoch dto none hex (text "k1")).expires_at ≡ true
unfolding new_row text
live = refl

abbrev no_buckets : Dict Bucket
no_buckets = []

unused : get (text "k1") no_buckets ≡ none
unfolding get
unused = refl

create-can_activate_example :
    (can_activate mark role_name robots
      (some flatten)
      (single answer.0.key)
      10
      (record { table = answer.1; buckets = no_buckets })).0
    ≡ ok (record {
      sub = text "k1";
      authorization = flatten (role_name (text "reader") ∷ []);
      scopes = text "users:read" ∷ [];
      acting_user_id = acting_user_of robots (some (text "robot"));
    })
create-can_activate_example =
    create-can_activate mark epoch role_name robots flatten dto none hex (text "k1") [] answer 10
      no_buckets created tt live unused

can_activate-authenticate_example :
    can_activate mark role_name robots
      (some flatten)
      (single answer.0.key)
      10
      (record { table = answer.1; buckets = no_buckets })
    ≡ (let reply =
          authenticate mark role_name robots
            (some flatten)
            (single answer.0.key)
            10
            (record { table = answer.1; buckets = no_buckets }) in
        (guard_view reply.0, reply.1))
can_activate-authenticate_example =
    can_activate-authenticate mark role_name robots (some flatten) (single answer.0.key) 10
      (record { table = answer.1; buckets = no_buckets })

abbrev actions : List (Action Text Text)
actions = create_key dto none hex (text "k1") ∷ []

abbrev admitted : Principal Text
admitted = record {
  sub = text "k1";
  authorization = text "reader";
  scopes = text "users:read" ∷ [];
  acting_user_id = some (text "robot");
}

let_in :
    (can_activate mark role_name robots
      (some flatten)
      (single (key_prefix_text ++ hex))
      10
      (act_all mark epoch role_name robots actions (record { table = []; buckets = no_buckets }))).0
    ≡ ok admitted
unfolding can_activate admit_found admit admit_verdict principal_of acting_user_of check open_window
    get act_all act create new_row validate_scopes is_valid_scope matches_pattern check_acting_user
    assert_acting_user starts_with text same split_on includes is_usable
let_in = refl

act_all-AllValid_example : AllValid (text "users:read" ∷ [])
act_all-AllValid_example =
    act_all-AllValid mark epoch role_name robots actions no_buckets (some flatten)
      (single (key_prefix_text ++ hex)) 10 admitted let_in
