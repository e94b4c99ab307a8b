-- ===== src/OidcDelegation/Delegated.antt =====
-- packages/oidc-delegation/src/oidc-delegation.service.ts: what may be exchanged, and for what.
use appspine_packages.Base.{
  ℕ, ◌≡◌, refl, sym, subst, inl, inr, Bool, true, false, ◌&&◌, not, Option, none, some, [], ◌∷◌,
  arith, All, all, length, dedupe, ◌==◌, is_empty, leb, ltb, get_or, Text, text, same, includes,
  Dict, get, Bool-cases, some-inj, Result, ok, err, >>-eq-ok, guard-eq-ok, need-eq-ok, ok-inj,
  Result-cases,
}
use appspine_packages.OidcDelegation.Policies.{
  DelegationPolicyConfig, is_policy_name, is_word, is_lifetime, validate_policy, validate_all,
  new_registry, resolve, invalid_name, invalid_audience, no_scopes, invalid_scope, duplicate_scopes,
  offline_access_requested, invalid_lifetime, no_policies,
}
use appspine_packages.OidcDelegation.Throttle.{Throttle}
use appspine_packages.OidcDelegation.Exchange.{
  Category, Thrown, Claims, ProviderParams, ProviderResult, DelegatedAccessToken, ExchangeInput,
  Attempt, Exchanged, assert_provider_result, params_of, conclude_exchange, call_provider,
  throttled_exchange, belongs_to_source_client, admitted_policy, exchange_admitted, exchange,
  policy_not_found, invalid_subject_token, malformed_provider_response, policy_violation,
}

-- A policy that the registry accepted.
record IsAccepted (policy : DelegationPolicyConfig) : Type 0 where
  online : includes policy.requested_scopes (text "offline_access") ≡ false
  bounded : is_lifetime policy.max_expires_in_seconds ≡ true

validate_policy-IsAccepted :
    (name : Text) (policy : DelegationPolicyConfig)
    → validate_policy name policy ≡ ok tt
    → IsAccepted policy
unfolding validate_policy
validate_policy-IsAccepted name policy h =
    let (_, a) = guard-eq-ok (is_policy_name name) invalid_name _ h in
    let (_, b) = guard-eq-ok (is_word policy.target_audience) invalid_audience _ a in
    let (_, c) = guard-eq-ok (not (is_empty policy.requested_scopes)) no_scopes _ b in
    let (_, d) = guard-eq-ok (all is_word policy.requested_scopes) invalid_scope _ c in
    let (_, e) =
      guard-eq-ok (length (dedupe policy.requested_scopes) == length policy.requested_scopes)
        duplicate_scopes _ d in
    let (online, f) =
      guard-eq-ok (not (includes policy.requested_scopes (text "offline_access")))
        offline_access_requested _ e in
    let (bounded, _) =
      guard-eq-ok (is_lifetime policy.max_expires_in_seconds) invalid_lifetime _ f in
    record { online = ground (arith, online); bounded = bounded }

validate_all-IsAccepted :
    (policies : Dict DelegationPolicyConfig) (name : Text) (policy : DelegationPolicyConfig)
    → validate_all policies ≡ ok tt
    → get name policies ≡ some policy
    → IsAccepted policy
unfolding validate_all get
validate_all-IsAccepted [] name policy h found = cc
validate_all-IsAccepted ((n, p) ∷ rest) name policy h found =
    let (here, later) = >>-eq-ok (validate_policy n p) _ h in
    elim (Bool-cases (same n name)) [
      | inl e ↦ subst IsAccepted (some-inj (rw e at found)) (validate_policy-IsAccepted n p here)
      | inr e ↦ validate_all-IsAccepted rest name policy later (rw e at found)
    ]

new_registry-IsAccepted :
    (configured policies : Dict DelegationPolicyConfig) (name : Text)
    (policy : DelegationPolicyConfig)
    → new_registry configured ≡ ok policies
    → get name policies ≡ some policy
    → IsAccepted policy
unfolding new_registry
new_registry-IsAccepted configured policies name policy h found =
    let (_, a) = guard-eq-ok (not (is_empty configured)) no_policies _ h in
    let (valid, b) = >>-eq-ok (validate_all configured) _ a in
    validate_all-IsAccepted configured name policy valid
      (subst (λ m. get name m ≡ some policy) (sym (ok-inj b)) found)

module _ (decode_claims : Text → Option Claims) (issuer_client_id : Text)
    (policies : Dict DelegationPolicyConfig) where
  -- A call that may be made.
  pub record IsGranted (input : ExchangeInput) (call : ProviderParams) : Type 0 where
    pub policy : DelegationPolicyConfig
    pub configured : get input.policy policies ≡ some policy
    pub asked : call ≡ params_of input policy
    pub online : includes call.requested_scopes (text "offline_access") ≡ false
    pub own : belongs_to_source_client decode_claims issuer_client_id call.subject_token ≡ true

  abbrev policy_maximum : Option DelegationPolicyConfig → ℕ
  policy_maximum none = 0
  policy_maximum (some policy) = get_or policy.max_expires_in_seconds 0

  -- A token that is handed out lives at least a second, and no longer than its policy and an hour allow.
  abbrev pub keeps_limits : ExchangeInput → Result Category DelegatedAccessToken → Bool
  keeps_limits input (err category) = true
  keeps_limits input (ok token) =
      not (is_empty token.access_token)
      && (ltb 0 token.expires_in_seconds
          && (leb token.expires_in_seconds (policy_maximum (get input.policy policies))
              && leb token.expires_in_seconds 3600))

  assert-keeps_limits :
      (input : ExchangeInput) (policy : DelegationPolicyConfig) (result : ProviderResult)
      → get input.policy policies ≡ some policy
      → is_lifetime policy.max_expires_in_seconds ≡ true
      → keeps_limits input (assert_provider_result result policy.max_expires_in_seconds) ≡ true
  unfolding assert_provider_result
  assert-keeps_limits input policy result found bounded =
      elim (Result-cases (assert_provider_result result policy.max_expires_in_seconds)) [
        | inr (e, failed) ↦ rw failed refl
        | inl (token, returned) ↦
            let (seconds, _, a) =
              need-eq-ok result.expires_in_seconds malformed_provider_response _ returned in
            let (full, b) =
              guard-eq-ok (not (is_empty result.access_token) && ltb 0 seconds)
                malformed_provider_response _ a in
            let (short, c) =
              guard-eq-ok (leb seconds (get_or policy.max_expires_in_seconds 0)) policy_violation _
                b in
            rw (returned, ← ok-inj c, found)
              (limits (not (is_empty result.access_token)) seconds policy.max_expires_in_seconds
                full short bounded)
      ]
    where
      limits :
          (full : Bool) (seconds : ℕ) (max : Option ℕ)
          → (full && ltb 0 seconds) ≡ true
          → leb seconds (get_or max 0) ≡ true
          → is_lifetime max ≡ true
          → (full && (ltb 0 seconds && (leb seconds (get_or max 0) && leb seconds 3600))) ≡ true
      limits full seconds none h k b = cc
      limits full seconds (some m) h k b = ground arith

  -- What holds of an exchange whatever its outcome.
  pub record IsBounded (input : ExchangeInput) (done : Exchanged) : Type 0 where
    pub granted : All (IsGranted input) done.calls
    pub limited : keeps_limits input done.answer ≡ true

  concluded-IsBounded :
      (attempt : Attempt) (policy : DelegationPolicyConfig) (throttle : Throttle)
      (answer : Result Category DelegatedAccessToken)
      → IsGranted attempt.input (params_of attempt.input policy)
      → keeps_limits attempt.input answer ≡ true
      → IsBounded attempt.input (conclude_exchange attempt policy throttle answer)
  unfolding conclude_exchange
  concluded-IsBounded attempt policy throttle (err e) g h = record {
    granted = (g, tt);
    limited = refl;
  }
  concluded-IsBounded attempt policy throttle (ok token) g h = record {
    granted = (g, tt);
    limited = h;
  }

  called-IsBounded :
      (attempt : Attempt) (policy : DelegationPolicyConfig) (throttle : Throttle)
      (run : Result Thrown ProviderResult)
      → get attempt.input.policy policies ≡ some policy
      → is_lifetime policy.max_expires_in_seconds ≡ true
      → IsGranted attempt.input (params_of attempt.input policy)
      → IsBounded attempt.input (call_provider attempt policy throttle run)
  unfolding call_provider
  called-IsBounded attempt policy throttle (err e) found bounded g = record {
    granted = (g, tt);
    limited = refl;
  }
  called-IsBounded attempt policy throttle (ok result) found bounded g =
      concluded-IsBounded attempt policy throttle _ g
        (assert-keeps_limits attempt.input policy result found bounded)

  throttled-IsBounded :
      (attempt : Attempt) (policy : DelegationPolicyConfig) (checked : Bool × Throttle)
      → get attempt.input.policy policies ≡ some policy
      → is_lifetime policy.max_expires_in_seconds ≡ true
      → IsGranted attempt.input (params_of attempt.input policy)
      → IsBounded attempt.input (throttled_exchange attempt policy checked)
  unfolding throttled_exchange
  throttled-IsBounded attempt policy (false, throttle) found bounded g = record {
    granted = tt;
    limited = refl;
  }
  throttled-IsBounded attempt policy (true, throttle) found bounded g =
      called-IsBounded attempt policy throttle attempt.provider_run found bounded g

  -- Whatever the provider does, the calls of an exchange are for the audience and the scopes of the
  -- policy that was named, never for offline access, and with a token that the source client was
  -- issued; and a token that is handed out lives at least a second, and no longer than the policy's
  -- maximum and an hour. The registry was built from the configuration without an error.
  pub exchange-IsBounded :
      (configured : Dict DelegationPolicyConfig) (limit : ℕ) (attempt : Attempt)
      (throttle : Throttle)
      → new_registry configured ≡ ok policies
      → IsBounded attempt.input
          (exchange decode_claims issuer_client_id limit policies attempt throttle)
  unfolding exchange exchange_admitted resolve params_of admitted_policy
  exchange-IsBounded configured limit attempt throttle built =
      elim (Result-cases (admitted_policy decode_claims issuer_client_id policies attempt.input)) [
        | inr (e, refused) ↦ rw refused (record { granted = tt; limited = refl })
        | inl (policy, admitted) ↦
            let (p, found, a) =
              need-eq-ok (get attempt.input.policy policies) policy_not_found _ admitted in
            let (own, b) =
              guard-eq-ok
                (belongs_to_source_client decode_claims issuer_client_id
                  attempt.input.subject_token)
                invalid_subject_token _ a in
            let known = subst (λ q. get attempt.input.policy policies ≡ some q) (ok-inj b) found in
            let good =
              new_registry-IsAccepted configured policies attempt.input.policy policy built known in
            rw admitted (
              throttled-IsBounded attempt policy _ known good.bounded (record {
                policy = policy;
                configured = known;
                asked = refl;
                online = good.online;
                own = own;
              }))
      ]
