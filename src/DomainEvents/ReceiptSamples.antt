-- ===== src/DomainEvents/ReceiptSamples.antt =====
-- Two transactions for the same event that overlap.
use appspine_packages.Base.{◌≡◌, refl, true, List, [], ◌∷◌, Text, text, same}
use appspine_packages.DomainEvents.Receipt.{
  Envelope, receipt_of, is_receipt_of, find_receipt, open_transaction, open_found,
  commit_transaction, create_receipt, assert_matching_receipt, same_contract,
}
use appspine_packages.DomainEvents.Receipt.Once.{
  Step, opens, commits, no_receipts, receive, receive_all, IsOnce, receive_all-IsOnce,
}

abbrev no_digest : Text → Text
no_digest t = t

abbrev paid : Envelope
paid = record {
  source_app = text "shop";
  event_id = text "e1";
  capability_id = text "orders";
  capability_version = text "1.0.0";
  capability_digest = text "00";
  binding_id = text "b1";
  binding_version = text "1.0.0";
  payload = text "5";
  payload_digest = text "5";
}

abbrev steps : List Step
steps = opens paid ∷ opens paid ∷ commits 0 true ∷ commits 1 true ∷ opens paid ∷ []

effects_test :
    (receive_all no_digest steps no_receipts).database.effects ≡ (text "shop", text "e1") ∷ []
unfolding receive_all receive open_transaction open_found find_receipt is_receipt_of receipt_of
    commit_transaction create_receipt assert_matching_receipt same_contract same text
effects_test = refl

receive_all-IsOnce_example : IsOnce (receive_all no_digest steps no_receipts)
receive_all-IsOnce_example = receive_all-IsOnce no_digest steps
