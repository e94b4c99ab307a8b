-- ===== src/IntegrationContracts/WebhookSamples.antt =====
-- A webhook that is signed and verified, and an answer to it.
use appspine_packages.Base.{
  ℕ, ◌≤◌, ◌≡◌, refl, ◌&&◌, ◌||◌, Option, none, some, ◌++◌, leb, ltb, ◌==◌, get_or, length, Text,
  text, same, all_lack, join, ok, String,
}
use appspine_packages.IntegrationContracts.Webhook.{
  WebhookKey, Body, string_body, byte_body, other_body, SigningInput, VerifyWebhookV2Input,
  Platform, to_upper, signing_parts, build_webhook_v2_signing_input, build_webhook_v2_headers,
  is_bound_to, is_raw, is_too_large, is_fresh, verify_webhook_v2,
}
use appspine_packages.IntegrationContracts.Webhook.Signed.{
  IsAgreed, accepted, verify_webhook_v2-build,
}
use appspine_packages.IntegrationContracts.Webhook.Authentic.{
  IsAuthentic, verify_webhook_v2-IsAuthentic,
}
use appspine_packages.IntegrationContracts.Webhook.Binding.{
  IsOneLine, build_webhook_v2_signing_input-binds,
}
use appspine_packages.IntegrationContracts.Delivery.{
  AnswerBody, Numbers, classify_http_outcome, is_processed, is_already_processed, day_ms,
  classify_http_outcome_lem,
}

abbrev size_of : Body → ℕ
size_of (string_body t) = length t
size_of (byte_body bytes) = length bytes
size_of other_body = 0

abbrev platform : Platform
platform = record {
  sha256_hex = λ body. text "00";
  hmac_hex = λ secret t. secret ++ t;
  byte_size = size_of;
  parse_date = λ t. some (length t);
}

abbrev input_by : String → SigningInput
input_by method = record {
  key_id = text "k1";
  source_app = text "shop";
  capability_digest = text "sha256:00";
  method = text method;
  request_target = text "/in";
  timestamp = text "2030";
  event_id = text "e1";
  capability_id = text "orders";
  capability_version = text "1.0.0";
  binding_id = text "b1";
  binding_version = text "1.0.0";
  body = string_body (text "paid");
}

abbrev key : WebhookKey
key = record {
  context = record {
    key_id = text "k1";
    source_app = text "shop";
    capability_id = text "orders";
    capability_version = text "1.0.0";
    capability_digest = text "sha256:00";
    binding_id = text "b1";
    binding_version = text "1.0.0";
  };
  secret = text "s";
  previous_secret = none;
  previous_key_expires_at = none;
}

abbrev keys : Text → Option WebhookKey
keys id = some key

abbrev call : VerifyWebhookV2Input
call = record {
  method = text "post";
  request_target = text "/in";
  body = string_body (text "paid");
  headers = build_webhook_v2_headers platform (input_by "post") (text "s");
  now = 5;
  max_age_ms = none;
  max_body_bytes = some 100;
}

agreed : IsAgreed platform (input_by "post") key call
unfolding is_bound_to is_fresh is_raw is_too_large text same
agreed = record {
  same_method = refl;
  same_target = refl;
  same_body = refl;
  signed = refl;
  bound = refl;
  pinned = refl;
  fresh = refl;
  raw = refl;
  small = refl;
  named_key = refl;
  named_event = refl;
  named_capability = refl;
  named_capability_version = refl;
  named_binding = refl;
  named_binding_version = refl;
  dated = refl;
}

verify_webhook_v2-build_example :
    verify_webhook_v2 platform keys call ≡ ok (accepted platform (input_by "post") key)
verify_webhook_v2-build_example =
    verify_webhook_v2-build platform (input_by "post") key keys call refl agreed

verify_webhook_v2-IsAuthentic_example :
    IsAuthentic platform keys call (accepted platform (input_by "post") key)
verify_webhook_v2-IsAuthentic_example =
    verify_webhook_v2-IsAuthentic platform keys call (accepted platform (input_by "post") key)
      verify_webhook_v2-build_example

fits : IsOneLine platform (input_by "post")
unfolding all_lack signing_parts to_upper text
fits = refl

fits_upper : IsOneLine platform (input_by "POST")
unfolding all_lack signing_parts to_upper text
fits_upper = refl

same_signing_input :
    build_webhook_v2_signing_input platform (input_by "post")
    ≡ build_webhook_v2_signing_input platform (input_by "POST")
unfolding build_webhook_v2_signing_input signing_parts to_upper text join
same_signing_input = refl

build_webhook_v2_signing_input-binds_example :
    (to_upper (text "post") ≡ to_upper (text "POST"))
    × (text "/in" ≡ text "/in")
    × (text "2030" ≡ text "2030")
    × (text "e1" ≡ text "e1")
    × (text "orders" ≡ text "orders")
    × (text "1.0.0" ≡ text "1.0.0")
    × (text "b1" ≡ text "b1")
    × (text "1.0.0" ≡ text "1.0.0")
    × (text "00" ≡ text "00")
    × (build_webhook_v2_signing_input platform (input_by "post")
        ≡ build_webhook_v2_signing_input platform (input_by "post"))
build_webhook_v2_signing_input-binds_example =
    build_webhook_v2_signing_input-binds platform (input_by "post") (input_by "POST") fits
      fits_upper same_signing_input

abbrev numbers : Numbers
numbers = record { seconds_ms = λ t. some 90000000; parse_date = λ t. none }

abbrev seen : Option AnswerBody
seen = some (record { status = some (text "already_processed"); event_id = some (text "e1") })

classify_http_outcome_lem_example :
    (is_processed numbers (classify_http_outcome numbers 409 none seen (some (text "e1")) 0) ≡ (
      (leb 200 409 && ltb 409 300) || (409 == 409 && is_already_processed seen (some (text "e1")))))
    × (get_or (classify_http_outcome numbers 409 none seen (some (text "e1")) 0).retry_after_ms 0
        ≤ day_ms)
classify_http_outcome_lem_example =
    classify_http_outcome_lem numbers 409 none seen (some (text "e1")) 0
