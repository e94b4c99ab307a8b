-- ===== src/OidcDelegation/Policies.antt =====
-- packages/oidc-delegation/src/policy-registry.ts: `PolicyRegistry`. A number is none where it is no
-- natural number; values of other types than the declared ones are not modelled.
use appspine_packages.Base.{
  ℕ, Bool, false, ◌&&◌, ◌||◌, not, Option, none, some, List, [], ◌∷◌, any, all, is_empty, length,
  leb, ltb, ◌==◌, Text, text, includes, dedupe, Dict, get, Result, ok, ◌>>◌, guard,
}

pub record DelegationPolicyConfig : Type 0 where
  pub target_audience : Text
  pub requested_scopes : List Text
  pub max_expires_in_seconds : Option ℕ

pub data PolicyError : Type 0 where
  no_policies invalid_name invalid_audience no_scopes invalid_scope : PolicyError
  duplicate_scopes offline_access_requested invalid_lifetime : PolicyError

abbrev pub max_expires_in_seconds_ceiling : ℕ
max_expires_in_seconds_ceiling = 3600

abbrev is_name_unit : ℕ → Bool
is_name_unit c = (leb 97 c && leb c 122) || (leb 48 c && leb c 57)

-- `/^[a-z0-9][a-z0-9-]{0,127}$/`
unfoldable pub is_policy_name : Text → Bool
is_policy_name [] = false
is_policy_name (c ∷ s) =
    is_name_unit c && (leb (length s) 127 && all (λ d. is_name_unit d || d == 45) s)

-- `/\s/`
abbrev is_space : ℕ → Bool
is_space c =
    (leb 9 c && leb c 13)
    || (c == 32
        || (c == 160
            || (c == 5760
                || ((leb 8192 c && leb c 8202)
                    || (c == 8232
                        || (c == 8233
                            || (c == 8239 || (c == 8287 || (c == 12288 || c == 65279)))))))))

abbrev pub is_word : Text → Bool
is_word s = not (is_empty s) && not (any is_space s)

abbrev pub is_lifetime : Option ℕ → Bool
is_lifetime none = false
is_lifetime (some n) = ltb 0 n && leb n max_expires_in_seconds_ceiling

-- `validatePolicy`
unfoldable pub validate_policy : Text → DelegationPolicyConfig → Result PolicyError (Unit {0})
validate_policy name policy = do
  guard (is_policy_name name) invalid_name
  guard (is_word policy.target_audience) invalid_audience
  guard (not (is_empty policy.requested_scopes)) no_scopes
  guard (all is_word policy.requested_scopes) invalid_scope
  guard (length (dedupe policy.requested_scopes) == length policy.requested_scopes) duplicate_scopes
  guard (not (includes policy.requested_scopes (text "offline_access"))) offline_access_requested
  guard (is_lifetime policy.max_expires_in_seconds) invalid_lifetime
  ok tt

unfoldable pub validate_all : Dict DelegationPolicyConfig → Result PolicyError (Unit {0})
validate_all [] = ok tt
validate_all ((name, policy) ∷ rest) = do validate_policy name policy; validate_all rest

-- The constructor: the map of policies, or what it throws.
unfoldable pub new_registry :
    Dict DelegationPolicyConfig → Result PolicyError (Dict DelegationPolicyConfig)
new_registry policies = do
  guard (not (is_empty policies)) no_policies
  validate_all policies
  ok policies

-- `resolve`: none where it throws `PolicyNotFoundError`.
unfoldable pub resolve : Text → Dict DelegationPolicyConfig → Option DelegationPolicyConfig
resolve name policies = get name policies
