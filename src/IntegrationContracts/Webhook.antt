-- ===== src/IntegrationContracts/Webhook.antt =====
-- packages/integration-contracts/src/webhook.ts: signing and verifying webhooks of version 2.
-- An instant is a number of milliseconds from the earliest date that JavaScript has; only differences
-- of instants are used. `timingSafeEqual` compares with a hexadecimal digest, which is ASCII, so equal
-- bytes are equal texts.
use Prim.Native.Nat.{◌-◌}
pub mod Authentic
pub mod Signed
pub mod Binding
use appspine_packages.Base.{
  ℕ, zero, suc, ◌+◌, Bool, true, false, ◌&&◌, ◌||◌, not, Option, none, some, List, [], ◌∷◌, ◌++◌,
  if◌then◌else◌, any, is_empty, leb, ltb, get_or, Text, text, same, starts_with, join, Dict, get,
  put, Result, ok, err, ◌>>=◌, ◌>>◌, guard, need,
}
use appspine_packages.IntegrationContracts.DestinationPolicy.Addresses.{to_lower}

pub record WebhookVerificationContext : Type 0 where
  pub key_id : Text
  pub source_app : Text
  pub capability_id : Text
  pub capability_version : Text
  pub capability_digest : Text
  pub binding_id : Text
  pub binding_version : Text

pub record WebhookKey : Type 0 where
  pub context : WebhookVerificationContext
  pub secret : Text
  pub previous_secret : Option Text
  pub previous_key_expires_at : Option Text

-- A string, bytes, or something else that a caller passed.
pub data Body : Type 0 where
  string_body : Text → Body
  byte_body : List ℕ → Body
  other_body : Body

-- `WebhookV2Input` without the secret.
pub record SigningInput : Type 0 where
  pub key_id : Text
  pub source_app : Text
  pub capability_digest : Text
  pub method : Text
  pub request_target : Text
  pub timestamp : Text
  pub event_id : Text
  pub capability_id : Text
  pub capability_version : Text
  pub binding_id : Text
  pub binding_version : Text
  pub body : Body

pub data VerificationError : Type 0 where
  raw_body_required body_too_large unsupported_version unknown_key missing_capability_digest :
      VerificationError
  binding_mismatch stale_timestamp invalid_signature : VerificationError
  missing_header : Text → VerificationError

pub record VerifyWebhookV2Input : Type 0 where
  pub method : Text
  pub request_target : Text
  pub body : Body
  pub headers : Dict (Option Text)
  pub now : ℕ
  pub max_age_ms : Option ℕ
  pub max_body_bytes : Option ℕ

pub record Verified : Type 0 where
  pub context : WebhookVerificationContext
  pub event_id : Text
  pub timestamp : Text

unfoldable pub to_upper : Text → Text
to_upper [] = []
to_upper (c ∷ s) = (if leb 97 c && leb c 122 then c - 32 else c) ∷ to_upper s

abbrev newline : Text
newline = 10 ∷ []

normalize_from : Dict Text → Dict (Option Text) → Dict Text
normalize_from seen [] = seen
normalize_from seen ((name, none) ∷ rest) = normalize_from seen rest
normalize_from seen ((name, some value) ∷ rest) =
    normalize_from (put (to_lower name) value seen) rest

-- `normalizeHeaders`: of two names that differ in case the last one counts.
unfoldable pub normalize_headers : Dict (Option Text) → Dict Text
unfolding normalize_from
normalize_headers headers = normalize_from [] headers

unfoldable pub required_value : Text → Option Text → Result VerificationError Text
required_value name none = err (missing_header name)
required_value name (some value) = if is_empty value then err (missing_header name) else ok value

unfoldable pub required_header : Dict Text → Text → Result VerificationError Text
unfolding required_value
required_header headers name = required_value name (get name headers)

-- `signature.startsWith('sha256=') ? signature.slice('sha256='.length) : ''`
slice_from : ℕ → Text → Text
slice_from zero s = s
slice_from (suc n) [] = []
slice_from (suc n) (c ∷ s) = slice_from n s

unfoldable pub supplied_signature : Text → Text
unfolding slice_from
supplied_signature signature =
    if starts_with signature (text "sha256=") then slice_from 7 signature else []

unfoldable pub has_version : Dict Text → Bool
has_version headers = elim (get (text "x-appspine-webhook-version") headers) [
  | none ↦ false
  | some version ↦ same version (text "2")
]

-- The binding that the headers name is the key's own; the source app is always taken from the key.
unfoldable pub is_bound_to : WebhookVerificationContext → SigningInput → Bool
is_bound_to context expected =
    same expected.capability_id context.capability_id
    && (same expected.capability_version context.capability_version
        && (same expected.binding_id context.binding_id
            && same expected.binding_version context.binding_version))

unfoldable pub is_raw : Body → Bool
is_raw other_body = false
is_raw _ = true

-- What the code calls `expected`, from the headers and the call.
unfoldable pub expected_of :
    VerifyWebhookV2Input
    → Dict Text
    → Text
    → WebhookVerificationContext
    → Result VerificationError SigningInput
expected_of input headers key_id context = do
  capability_id ← required_header headers (text "x-appspine-capability-id")
  capability_version ← required_header headers (text "x-appspine-capability-version")
  binding_id ← required_header headers (text "x-appspine-binding-id")
  binding_version ← required_header headers (text "x-appspine-binding-version")
  timestamp ← required_header headers (text "x-appspine-timestamp")
  event_id ← required_header headers (text "x-appspine-event-id")
  ok (record {
    key_id = key_id;
    source_app = context.source_app;
    capability_digest = context.capability_digest;
    method = input.method;
    request_target = input.request_target;
    timestamp = timestamp;
    event_id = event_id;
    capability_id = capability_id;
    capability_version = capability_version;
    binding_id = binding_id;
    binding_version = binding_version;
    body = input.body;
  })

-- The hashes of node:crypto, the size of a body and `Date.parse`, which is none for `NaN`.
pub record Platform : Type 0 where
  pub sha256_hex : Body → Text
  pub hmac_hex : Text → Text → Text
  pub byte_size : Body → ℕ
  pub parse_date : Text → Option ℕ

module _ (platform : Platform) where
  unfoldable pub signing_parts : SigningInput → List Text
  signing_parts input =
      text "v2"
      ∷ to_upper input.method
      ∷ input.request_target
      ∷ input.timestamp
      ∷ input.event_id
      ∷ input.capability_id
      ∷ input.capability_version
      ∷ input.binding_id
      ∷ input.binding_version
      ∷ platform.sha256_hex input.body
      ∷ []

  unfoldable pub build_webhook_v2_signing_input : SigningInput → Text
  build_webhook_v2_signing_input input = join newline (signing_parts input)

  unfoldable pub create_webhook_v2_signature : SigningInput → Text → Text
  create_webhook_v2_signature input secret =
      platform.hmac_hex secret (build_webhook_v2_signing_input input)

  unfoldable pub build_webhook_v2_headers : SigningInput → Text → Dict (Option Text)
  build_webhook_v2_headers input secret =
      (text "content-type", some (text "application/json"))
      ∷ (text "X-Appspine-Webhook-Version", some (text "2"))
      ∷ (text "X-Appspine-Key-Id", some input.key_id)
      ∷ (text "X-Appspine-Event-Id", some input.event_id)
      ∷ (text "X-Appspine-Capability-Id", some input.capability_id)
      ∷ (text "X-Appspine-Capability-Version", some input.capability_version)
      ∷ (text "X-Appspine-Binding-Id", some input.binding_id)
      ∷ (text "X-Appspine-Binding-Version", some input.binding_version)
      ∷ (text "X-Appspine-Timestamp", some input.timestamp)
      ∷ (
        text "X-Appspine-Signature",
        some (text "sha256=" ++ create_webhook_v2_signature input secret),
      )
      ∷ []

  -- `input.maxBodyBytes !== undefined && bodySize > input.maxBodyBytes`
  unfoldable pub is_too_large : Option ℕ → Body → Bool
  is_too_large none body = false
  is_too_large (some limit) body = ltb limit (platform.byte_size body)

  -- The current secret, and the previous one until it expires; an empty text counts as missing.
  unfoldable pub previous_secrets : Option Text → Option Text → ℕ → List Text
  previous_secrets (some previous) (some expiry) now = elim (platform.parse_date expiry) [
    | none ↦ []
    | some at ↦
        if not (is_empty previous) && (not (is_empty expiry) && leb now at)
        then previous ∷ []
        else []
  ]
  previous_secrets _ _ now = []

  unfoldable pub secrets_of : WebhookKey → ℕ → List Text
  unfolding previous_secrets
  secrets_of key now =
      key.secret ∷ previous_secrets key.previous_secret key.previous_key_expires_at now

  abbrev pub distance : ℕ → ℕ → ℕ
  distance a b = (a - b) + (b - a)

  unfoldable pub is_fresh : Option ℕ → ℕ → Text → Bool
  is_fresh max_age now timestamp = elim (platform.parse_date timestamp) [
    | none ↦ false
    | some at ↦ leb (distance now at) (get_or max_age 300000)
  ]

  unfoldable pub is_signed_by : WebhookKey → ℕ → SigningInput → Text → Bool
  is_signed_by key now expected supplied =
      any (λ secret. same supplied (create_webhook_v2_signature expected secret))
        (secrets_of key now)

  -- The checks of `verifyWebhookV2` on the fields, once they are there.
  unfoldable pub verify_expected :
      VerifyWebhookV2Input
      → Dict Text
      → Text
      → WebhookKey
      → SigningInput
      → Result VerificationError Verified
  verify_expected input headers key_id key expected = do
    guard (is_bound_to key.context expected) binding_mismatch
    guard (is_fresh input.max_age_ms input.now expected.timestamp) stale_timestamp
    signature ← required_header headers (text "x-appspine-signature")
    guard (is_signed_by key input.now expected (supplied_signature signature)) invalid_signature
    ok (record {
      context = record {
        key_id = key_id;
        source_app = key.context.source_app;
        capability_id = expected.capability_id;
        capability_version = expected.capability_version;
        capability_digest = key.context.capability_digest;
        binding_id = expected.binding_id;
        binding_version = expected.binding_version;
      };
      event_id = expected.event_id;
      timestamp = expected.timestamp;
    })

  -- `verifyWebhookV2`, with the caller's `keyResolver`.
  unfoldable pub verify_webhook_v2 :
      (Text → Option WebhookKey) → VerifyWebhookV2Input → Result VerificationError Verified
  verify_webhook_v2 key_resolver input = do
    guard (is_raw input.body) raw_body_required
    let headers = normalize_headers input.headers
    guard (not (is_too_large input.max_body_bytes input.body)) body_too_large
    guard (has_version headers) unsupported_version
    key_id ← required_header headers (text "x-appspine-key-id")
    key ← need (key_resolver key_id) unknown_key
    guard (not (is_empty key.context.capability_digest)) missing_capability_digest
    expected ← expected_of input headers key_id key.context
    verify_expected input headers key_id key expected
