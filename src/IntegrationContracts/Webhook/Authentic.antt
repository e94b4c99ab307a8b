-- ===== src/IntegrationContracts/Webhook/Authentic.antt =====
-- packages/integration-contracts/src/webhook.ts: what a webhook that `verifyWebhookV2` accepts is known to be.
use appspine_packages.Base.{
  ◌≡◌, refl, sym, ap, subst, ◌∙◌, inl, inr, Bool-cases, true, false, not, Option, none, some, arith,
  is_empty, Text, text, Dict, get, ok, >>=-eq-ok, guard-eq-ok, need-eq-ok, ok-inj,
}
use appspine_packages.IntegrationContracts.Webhook.{
  WebhookKey, WebhookVerificationContext, SigningInput, VerifyWebhookV2Input, Verified, Platform,
  normalize_headers, required_header, required_value, supplied_signature, has_version, is_bound_to,
  is_raw, expected_of, is_too_large, is_fresh, is_signed_by, verify_expected, verify_webhook_v2,
  raw_body_required, body_too_large, unsupported_version, unknown_key, missing_capability_digest,
  binding_mismatch, stale_timestamp, invalid_signature,
}

-- The input that the signature of an accepted webhook is over.
abbrev pub signed_input : VerifyWebhookV2Input → Verified → SigningInput
signed_input call v = record {
  key_id = v.context.key_id;
  source_app = v.context.source_app;
  capability_digest = v.context.capability_digest;
  method = call.method;
  request_target = call.request_target;
  timestamp = v.timestamp;
  event_id = v.event_id;
  capability_id = v.context.capability_id;
  capability_version = v.context.capability_version;
  binding_id = v.context.binding_id;
  binding_version = v.context.binding_version;
  body = call.body;
}

abbrev pub signature_of : VerifyWebhookV2Input → Option Text
signature_of call = get (text "x-appspine-signature") (normalize_headers call.headers)

pub record IsAuthentic (platform : Platform) (key_resolver : Text → Option WebhookKey)
    (call : VerifyWebhookV2Input) (v : Verified) : Type 0 where
  pub key : WebhookKey
  pub resolved : key_resolver v.context.key_id ≡ some key
  pub source : v.context.source_app ≡ key.context.source_app
  pub digest : v.context.capability_digest ≡ key.context.capability_digest
  pub bound : is_bound_to key.context (signed_input call v) ≡ true
  pub fresh : is_fresh platform call.max_age_ms call.now v.timestamp ≡ true
  pub small : is_too_large platform call.max_body_bytes call.body ≡ false
  pub signature : Text
  pub given : signature_of call ≡ some signature
  pub signed :
      is_signed_by platform key call.now (signed_input call v) (supplied_signature signature) ≡ true

required_value-some :
    (name : Text) (found : Option Text) (value : Text)
    → required_value name found ≡ ok value
    → found ≡ some value
unfolding required_value
required_value-some name none value h = cc
required_value-some name (some t) value h = elim (Bool-cases (is_empty t)) [
  | inl e ↦ cc (rw e at h)
  | inr e ↦ ap some (ok-inj (rw e at h))
]

required_header-some :
    (headers : Dict Text) (name value : Text)
    → required_header headers name ≡ ok value
    → get name headers ≡ some value
unfolding required_header
required_header-some headers name value h = required_value-some name (get name headers) value h

-- The fields that are not taken from headers.
expected_of-call :
    (call : VerifyWebhookV2Input) (headers : Dict Text) (key_id : Text)
    (context : WebhookVerificationContext) (expected : SigningInput)
    → expected_of call headers key_id context ≡ ok expected
    → (expected.key_id ≡ key_id)
      × (expected.source_app ≡ context.source_app)
      × (expected.capability_digest ≡ context.capability_digest)
      × (expected.method ≡ call.method)
      × (expected.request_target ≡ call.request_target)
      × (expected.body ≡ call.body)
unfolding expected_of
expected_of-call call headers key_id context expected h =
    let (_, _, a) = >>=-eq-ok (required_header headers (text "x-appspine-capability-id")) _ h in
    let (_, _, b) =
      >>=-eq-ok (required_header headers (text "x-appspine-capability-version")) _ a in
    let (_, _, c) = >>=-eq-ok (required_header headers (text "x-appspine-binding-id")) _ b in
    let (_, _, d) = >>=-eq-ok (required_header headers (text "x-appspine-binding-version")) _ c in
    let (_, _, e) = >>=-eq-ok (required_header headers (text "x-appspine-timestamp")) _ d in
    let (_, _, f) = >>=-eq-ok (required_header headers (text "x-appspine-event-id")) _ e in
    let made = ok-inj f in
    (
      sym (ap (λ x. x.key_id) made),
      sym (ap (λ x. x.source_app) made),
      sym (ap (λ x. x.capability_digest) made),
      sym (ap (λ x. x.method) made),
      sym (ap (λ x. x.request_target) made),
      sym (ap (λ x. x.body) made),
    )

with_call :
    (call : VerifyWebhookV2Input) (key_id : Text) (context : WebhookVerificationContext)
    (expected : SigningInput)
    → expected.key_id ≡ key_id
    → expected.source_app ≡ context.source_app
    → expected.capability_digest ≡ context.capability_digest
    → expected.method ≡ call.method
    → expected.request_target ≡ call.request_target
    → expected.body ≡ call.body
    → record expected {
      key_id = key_id;
      source_app = context.source_app;
      capability_digest = context.capability_digest;
      method = call.method;
      request_target = call.request_target;
      body = call.body;
    }
      ≡ expected
with_call call key_id context expected k s d method target body =
    rw (← k, ← s, ← d, ← method, ← target, ← body) refl

module _ (platform : Platform) (key_resolver : Text → Option WebhookKey)
    (call : VerifyWebhookV2Input) where
  verify_expected-IsAuthentic :
      (key_id : Text) (key : WebhookKey) (expected : SigningInput) (v : Verified)
      → key_resolver key_id ≡ some key
      → is_too_large platform call.max_body_bytes call.body ≡ false
      → expected_of call (normalize_headers call.headers) key_id key.context ≡ ok expected
      → verify_expected platform call (normalize_headers call.headers) key_id key expected ≡ ok v
      → IsAuthentic platform key_resolver call v
  unfolding verify_expected
  verify_expected-IsAuthentic key_id key expected v resolved small made h =
      let headers = normalize_headers call.headers in
      let (bound, a) = guard-eq-ok (is_bound_to key.context expected) binding_mismatch _ h in
      let (fresh, b) =
        guard-eq-ok (is_fresh platform call.max_age_ms call.now expected.timestamp) stale_timestamp
          _ a in
      let (signature, found, c) =
        >>=-eq-ok (required_header headers (text "x-appspine-signature")) _ b in
      let (signed, d) =
        guard-eq-ok (is_signed_by platform key call.now expected (supplied_signature signature))
          invalid_signature _ c in
      let (k, s, e, method, target, body) =
        expected_of-call call headers key_id key.context expected made in
      let same_input : signed_input call v ≡ expected =
        ap (signed_input call) (sym (ok-inj d))
        ∙ with_call call key_id key.context expected k s e method target body in
      record {
        key = key;
        resolved = subst (λ w. key_resolver w.context.key_id ≡ some key) (ok-inj d) resolved;
        source = sym (ap (λ w. w.context.source_app) (ok-inj d));
        digest = sym (ap (λ w. w.context.capability_digest) (ok-inj d));
        bound = subst (λ x. is_bound_to key.context x ≡ true) (sym same_input) bound;
        fresh =
            subst (λ w. is_fresh platform call.max_age_ms call.now w.timestamp ≡ true) (ok-inj d)
              fresh;
        small = small;
        signature = signature;
        given = required_header-some headers _ signature found;
        signed =
            subst (λ x. is_signed_by platform key call.now x (supplied_signature signature) ≡ true)
              (sym same_input) signed;
      }

  -- A webhook that is accepted is authentic: its key is configured, and gives the source app and the
  -- digest; its capability and binding are the key's; its timestamp is fresh and its body within the
  -- limit; and its signature is over these fields, the method, the target and the body, by the key's
  -- secret or by the previous one while that has not expired.
  pub verify_webhook_v2-IsAuthentic :
      (v : Verified)
      → verify_webhook_v2 platform key_resolver call ≡ ok v
      → IsAuthentic platform key_resolver call v
  unfolding verify_webhook_v2
  verify_webhook_v2-IsAuthentic v h =
      let headers = normalize_headers call.headers in
      let (_, a) = guard-eq-ok (is_raw call.body) raw_body_required _ h in
      let (small, b) =
        guard-eq-ok (not (is_too_large platform call.max_body_bytes call.body)) body_too_large _
          a in
      let (_, c) = guard-eq-ok (has_version headers) unsupported_version _ b in
      let (key_id, _, d) = >>=-eq-ok (required_header headers (text "x-appspine-key-id")) _ c in
      let (key, resolved, e) = need-eq-ok (key_resolver key_id) unknown_key _ d in
      let (_, f) =
        guard-eq-ok (not (is_empty key.context.capability_digest)) missing_capability_digest _ e in
      let (expected, made, g) = >>=-eq-ok (expected_of call headers key_id key.context) _ f in
      verify_expected-IsAuthentic key_id key expected v resolved (ground (arith, small)) made g
