-- ===== src/IntegrationContracts/Webhook/Signed.antt =====
-- packages/integration-contracts/src/webhook.ts: what `buildWebhookV2Headers` signs is verified.
use appspine_packages.Base.{
  ℕ, ◌≡◌, refl, ap, true, false, Option, some, ◌++◌, is_empty, Text, text, same, same_refl,
  starts_with, Dict, get, put, ok,
}
use appspine_packages.IntegrationContracts.DestinationPolicy.Addresses.{to_lower}
use appspine_packages.IntegrationContracts.Webhook.{
  WebhookKey, SigningInput, VerifyWebhookV2Input, Verified, Platform, normalize_headers,
  required_header, supplied_signature, has_version, is_bound_to, is_raw, expected_of, signing_parts,
  build_webhook_v2_signing_input, create_webhook_v2_signature, build_webhook_v2_headers,
  is_too_large, secrets_of, is_fresh, is_signed_by, verify_expected, verify_webhook_v2,
}

-- What the sender and the receiver have agreed on.
pub record IsAgreed (platform : Platform) (input : SigningInput) (key : WebhookKey)
    (call : VerifyWebhookV2Input) : Type 0 where
  pub same_method : call.method ≡ input.method
  pub same_target : call.request_target ≡ input.request_target
  pub same_body : call.body ≡ input.body
  pub signed : call.headers ≡ build_webhook_v2_headers platform input key.secret
  pub bound : is_bound_to key.context input ≡ true
  pub pinned : is_empty key.context.capability_digest ≡ false
  pub fresh : is_fresh platform call.max_age_ms call.now input.timestamp ≡ true
  pub raw : is_raw call.body ≡ true
  pub small : is_too_large platform call.max_body_bytes call.body ≡ false
  pub named_key : is_empty input.key_id ≡ false
  pub named_event : is_empty input.event_id ≡ false
  pub named_capability : is_empty input.capability_id ≡ false
  pub named_capability_version : is_empty input.capability_version ≡ false
  pub named_binding : is_empty input.binding_id ≡ false
  pub named_binding_version : is_empty input.binding_version ≡ false
  pub dated : is_empty input.timestamp ≡ false

required_header-ok :
    (headers : Dict Text) (name value : Text)
    → get name headers ≡ some value
    → is_empty value ≡ false
    → required_header headers name ≡ ok value
unfolding required_header
required_header-ok headers name value found full = rw (found, full) refl

module _ (platform : Platform) (input : SigningInput) (key : WebhookKey) where
  built : Dict Text
  built = normalize_headers (build_webhook_v2_headers platform input key.secret)

  -- The headers that `verifyWebhookV2` reads from those that were built.
  record HasHeaders : Type 0 where
    key_header : get (text "x-appspine-key-id") built ≡ some input.key_id
    event_header : get (text "x-appspine-event-id") built ≡ some input.event_id
    capability_header : get (text "x-appspine-capability-id") built ≡ some input.capability_id
    capability_version_header :
        get (text "x-appspine-capability-version") built ≡ some input.capability_version
    binding_header : get (text "x-appspine-binding-id") built ≡ some input.binding_id
    binding_version_header :
        get (text "x-appspine-binding-version") built ≡ some input.binding_version
    timestamp_header : get (text "x-appspine-timestamp") built ≡ some input.timestamp
    signature_header :
        get (text "x-appspine-signature") built
        ≡ some (text "sha256=" ++ create_webhook_v2_signature platform input key.secret)
    version_header : has_version built ≡ true

  built-HasHeaders : HasHeaders
  unfolding built normalize_headers build_webhook_v2_headers has_version text to_lower get put same
  built-HasHeaders = record {
    key_header = refl;
    event_header = refl;
    capability_header = refl;
    capability_version_header = refl;
    binding_header = refl;
    binding_version_header = refl;
    timestamp_header = refl;
    signature_header = refl;
    version_header = refl;
  }

  full_signature :
      is_empty (text "sha256=" ++ create_webhook_v2_signature platform input key.secret) ≡ false
  unfolding text
  full_signature = refl

  supplied :
      supplied_signature (text "sha256=" ++ create_webhook_v2_signature platform input key.secret)
      ≡ create_webhook_v2_signature platform input key.secret
  unfolding supplied_signature starts_with text
  supplied = refl

  -- What the receiver expects: the source app and the digest are the key's.
  abbrev received : SigningInput
  received = record input {
    source_app = key.context.source_app;
    capability_digest = key.context.capability_digest;
  }

  bound_received : is_bound_to key.context received ≡ is_bound_to key.context input
  unfolding is_bound_to
  bound_received = refl

  signed_by :
      (now : ℕ)
      → is_signed_by platform key now received
          (create_webhook_v2_signature platform input key.secret)
        ≡ true
  unfolding is_signed_by secrets_of create_webhook_v2_signature build_webhook_v2_signing_input
      signing_parts
  signed_by now = rw (same_refl (create_webhook_v2_signature platform input key.secret)) refl

  expected_of-built :
      (call : VerifyWebhookV2Input)
      → IsAgreed platform input key call
      → expected_of call built input.key_id key.context ≡ ok received
  unfolding expected_of
  expected_of-built call a =
      let h = built-HasHeaders in
      rw
        (
          required_header-ok built _ input.capability_id h.capability_header a.named_capability,
          required_header-ok built _ input.capability_version h.capability_version_header
              a.named_capability_version,
          required_header-ok built _ input.binding_id h.binding_header a.named_binding,
          required_header-ok built _ input.binding_version h.binding_version_header
              a.named_binding_version,
          required_header-ok built _ input.timestamp h.timestamp_header a.dated,
          required_header-ok built _ input.event_id h.event_header a.named_event,
          a.same_method,
          a.same_target,
          a.same_body,
        )
        refl

  -- What the receiver learns of a webhook that was accepted.
  abbrev pub accepted : Verified
  accepted = record {
    context = record {
      key_id = input.key_id;
      source_app = key.context.source_app;
      capability_id = input.capability_id;
      capability_version = input.capability_version;
      capability_digest = key.context.capability_digest;
      binding_id = input.binding_id;
      binding_version = input.binding_version;
    };
    event_id = input.event_id;
    timestamp = input.timestamp;
  }

  verify_expected-built :
      (call : VerifyWebhookV2Input)
      → IsAgreed platform input key call
      → verify_expected platform call built input.key_id key received ≡ ok accepted
  unfolding verify_expected
  verify_expected-built call a =
      let h = built-HasHeaders in
      rw
        (
          bound_received,
          a.bound,
          a.fresh,
          required_header-ok built _ _ h.signature_header full_signature,
          supplied,
          signed_by call.now,
        )
        refl

  -- A webhook that was built with a key is verified with it: what `buildWebhookV2Headers` signs,
  -- `verifyWebhookV2` accepts, and it returns the key's source app and the fields that were signed. The
  -- receiver resolves the key's ID to the key, which is bound to the capability and the binding of the
  -- webhook and has a pinned digest; method, target and body are the ones that were signed; the
  -- timestamp is fresh, the body a raw one within the limit, and no field is empty.
  pub verify_webhook_v2-build :
      (key_resolver : Text → Option WebhookKey) (call : VerifyWebhookV2Input)
      → key_resolver input.key_id ≡ some key
      → IsAgreed platform input key call
      → verify_webhook_v2 platform key_resolver call ≡ ok accepted
  unfolding verify_webhook_v2 built normalize_headers
  verify_webhook_v2-build key_resolver call resolved a =
      let h = built-HasHeaders in
      let read : normalize_headers call.headers ≡ built = ap normalize_headers a.signed in
      rw
        (
          a.raw,
          a.small,
          read,
          h.version_header,
          required_header-ok built _ input.key_id h.key_header a.named_key,
          resolved,
          a.pinned,
          expected_of-built call a,
        )
        (verify_expected-built call a)
