-- ===== src/M2mApiKey/Scopes.antt =====
-- packages/m2m-api-key/src/guards/scope.guard.ts: `matchScope` and `ScopeGuard`.
pub mod Matching
use appspine_packages.Base.{
  Bool, true, false, ◌&&◌, ◌||◌, not, Option, none, some, List, [], ◌∷◌, if◌then◌else◌, any, all,
  get_or, or_else, is_empty, Text, text, same, includes, split_on, Result, ok, err,
}

-- `const [module, action] = scope.split(':')`
abbrev pub first_of : List Text → Text
first_of [] = []
first_of (part ∷ _) = part

abbrev pub module_part : Text → Text
module_part scope = first_of (split_on 58 scope)

abbrev pub second_of : List Text → Option Text
second_of (_ ∷ action ∷ _) = some action
second_of _ = none

abbrev pub action_part : Text → Option Text
action_part scope = second_of (split_on 58 scope)

-- `===` on values that may be undefined.
abbrev pub same_option : Option Text → Option Text → Bool
same_option none none = true
same_option (some a) (some b) = same a b
same_option _ _ = false

-- One granted scope against the required one.
unfoldable pub grants : Text → Text → Bool
grants required g =
    same g (text "*")
    || (same (module_part g) (module_part required)
        && (same_option (action_part g) (some (text "*"))
            || same_option (action_part g) (action_part required)))

unfoldable pub match_scope : List Text → Text → Bool
match_scope granted required = includes granted (text "*") || any (grants required) granted

-- What the guard reads of `request.user`.
pub record RequestUser : Type 0 where
  pub is_api_key : Option Bool
  pub scopes : Option (List Text)

pub data Forbidden : Type 0 where
  no_scopes_declared insufficient_scopes : Forbidden

unfoldable pub all_matched : List Text → List Text → Bool
all_matched granted required = all (match_scope granted) required

-- `ScopeGuard.canActivate`, with the scopes declared on the handler and on its class.
unfoldable pub scope_guard :
    Option (List Text) → Option (List Text) → Option RequestUser → Result Forbidden Bool
unfolding all_matched
scope_guard handler_scopes class_scopes none = ok true
scope_guard handler_scopes class_scopes (some user) =
    let required = get_or (or_else handler_scopes class_scopes) [] in
    if not (get_or user.is_api_key false)
    then ok true
    else if is_empty required
    then err no_scopes_declared
    else if all_matched (get_or user.scopes []) required
    then ok true
    else err insufficient_scopes
