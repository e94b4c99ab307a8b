-- ===== src/IntegrationContracts/Webhook/Binding.antt =====
-- packages/integration-contracts/src/webhook.ts: what the text that is signed determines.
use appspine_packages.Base.{
  ℕ, zero, suc, ◌≡◌, refl, sym, ap, ◌∙◌, true, List, [], ◌∷◌, Text, all_lack, split_on,
  split_on-join,
}
use appspine_packages.IntegrationContracts.Webhook.{
  SigningInput, Platform, to_upper, signing_parts, build_webhook_v2_signing_input,
}

abbrev part : ℕ → List Text → Text
part n [] = []
part zero (t ∷ ts) = t
part (suc n) (t ∷ ts) = part n ts

module _ (platform : Platform) where
  -- No field that is signed has a line break: HTTP allows none in a header, a method or a target.
  abbrev pub IsOneLine : SigningInput → Type 0
  IsOneLine input = all_lack 10 (signing_parts platform input) ≡ true

  parts_of_input :
      (input : SigningInput)
      → IsOneLine input
      → split_on 10 (build_webhook_v2_signing_input platform input) ≡ signing_parts platform input
  unfolding build_webhook_v2_signing_input signing_parts
  parts_of_input input h = split_on-join 10 _ _ h

  -- What a signature covers: inputs without line breaks in the fields of the text to sign that give the
  -- same text agree on the method up to case, on the target, the timestamp, the event, the capability
  -- and the binding with their versions, and on the hash of the body. The other fields, the ID of the
  -- key, the source app and the digest of the capability, are not covered: with any others in their
  -- place the text is the same.
  pub build_webhook_v2_signing_input-binds :
      (a b : SigningInput)
      → IsOneLine a
      → IsOneLine b
      → build_webhook_v2_signing_input platform a ≡ build_webhook_v2_signing_input platform b
      → (to_upper a.method ≡ to_upper b.method)
        × (a.request_target ≡ b.request_target)
        × (a.timestamp ≡ b.timestamp)
        × (a.event_id ≡ b.event_id)
        × (a.capability_id ≡ b.capability_id)
        × (a.capability_version ≡ b.capability_version)
        × (a.binding_id ≡ b.binding_id)
        × (a.binding_version ≡ b.binding_version)
        × (platform.sha256_hex a.body ≡ platform.sha256_hex b.body)
        × (build_webhook_v2_signing_input platform (record a {
          key_id = b.key_id;
          source_app = b.source_app;
          capability_digest = b.capability_digest;
        })
            ≡ build_webhook_v2_signing_input platform a)
  unfolding signing_parts build_webhook_v2_signing_input
  build_webhook_v2_signing_input-binds a b ha hb e =
      let same_parts : signing_parts platform a ≡ signing_parts platform b =
        sym (parts_of_input a ha) ∙ (ap (split_on 10) e ∙ parts_of_input b hb) in
      (
        ap (part 1) same_parts,
        ap (part 2) same_parts,
        ap (part 3) same_parts,
        ap (part 4) same_parts,
        ap (part 5) same_parts,
        ap (part 6) same_parts,
        ap (part 7) same_parts,
        ap (part 8) same_parts,
        ap (part 9) same_parts,
        refl,
      )
