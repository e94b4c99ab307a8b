-- ===== src/DomainEvents/Receipt.antt =====
-- packages/domain-events/src/receipt.ts: `withIntegrationEventReceipt`, in two steps, since other
-- transactions may commit between the look at the receipts and the insertion. The database keeps the
-- pair of source app and event ID unique, and rolls a failed transaction back.
pub mod Once
use appspine_packages.Base.{
  ℕ, zero, suc, Bool, true, false, ◌&&◌, Option, none, some, List, [], ◌∷◌, map, if◌then◌else◌,
  find, Text, same, Result, ok, err, ◌>>=◌, ◌>>◌, guard,
}

-- The fields of an `ExternalEventEnvelope` that are read; the payload is its canonical JSON.
pub record Envelope : Type 0 where
  pub source_app : Text
  pub event_id : Text
  pub capability_id : Text
  pub capability_version : Text
  pub capability_digest : Text
  pub binding_id : Text
  pub binding_version : Text
  pub payload : Text
  pub payload_digest : Text

pub record Receipt : Type 0 where
  pub source_app : Text
  pub event_id : Text
  pub capability_id : Text
  pub capability_version : Text
  pub capability_digest : Text
  pub binding_id : Text
  pub binding_version : Text
  pub payload_digest : Text

pub record ReceiptResult : Type 0 where
  pub duplicate : Bool
  pub receipt : Receipt

pub data ReceiptError : Type 0 where
  payload_mismatch receipt_mismatch contract_mismatch unique_conflict callback_failed : ReceiptError

unfoldable pub receipt_of : Envelope → Receipt
receipt_of e = record {
  source_app = e.source_app;
  event_id = e.event_id;
  capability_id = e.capability_id;
  capability_version = e.capability_version;
  capability_digest = e.capability_digest;
  binding_id = e.binding_id;
  binding_version = e.binding_version;
  payload_digest = e.payload_digest;
}

unfoldable pub is_receipt_of : Text → Text → Receipt → Bool
is_receipt_of source event r = same r.source_app source && same r.event_id event

-- `findReceipt`
unfoldable pub find_receipt : Envelope → List Receipt → Option Receipt
find_receipt e receipts = find (is_receipt_of e.source_app e.event_id) receipts

unfoldable pub same_contract : Receipt → Envelope → Bool
same_contract r e =
    same r.capability_id e.capability_id
    && (same r.capability_version e.capability_version
        && (same r.capability_digest e.capability_digest
            && (same r.binding_id e.binding_id && same r.binding_version e.binding_version)))

-- `assertMatchingReceipt`
unfoldable pub assert_matching_receipt : Receipt → Envelope → Result ReceiptError ReceiptResult
assert_matching_receipt r e = do
  guard (same r.payload_digest e.payload_digest) receipt_mismatch
  guard (same_contract r e) contract_mismatch
  ok (record { duplicate = true; receipt = r })

-- The database: the receipts, and the events whose business callback has taken effect.
pub record Database : Type 0 where
  pub receipts : List Receipt
  pub effects : List (Text × Text)

pub data Opened : Type 0 where
  answered : Result ReceiptError ReceiptResult → Opened
  creating : Opened

unfoldable pub open_found : Envelope → Option Receipt → Opened
open_found e none = creating
open_found e (some r) = answered (assert_matching_receipt r e)

-- The function up to the insertion: it has an answer, or goes on to create the receipt.
unfoldable pub open_transaction : (Text → Text) → Envelope → Database → Opened
open_transaction sha256_digest e db =
    if same (sha256_digest e.payload) e.payload_digest
    then open_found e (find_receipt e db.receipts)
    else answered (err payload_mismatch)

-- The insertion, which the database refuses if the receipt is there by now; the callback, whose failure
-- rolls back; and the look for the receipt after a conflict.
unfoldable pub create_receipt :
    Envelope → Bool → Database → Option Receipt → Result ReceiptError ReceiptResult × Database
create_receipt e callback_succeeds db (some r) = (assert_matching_receipt r e, db)
create_receipt e true db none = (
  ok (record { duplicate = false; receipt = receipt_of e }),
  record {
    receipts = receipt_of e ∷ db.receipts;
    effects = (e.source_app, e.event_id) ∷ db.effects;
  },
)
create_receipt e false db none = (err callback_failed, db)

unfoldable pub commit_transaction :
    Envelope → Bool → Database → Result ReceiptError ReceiptResult × Database
commit_transaction e callback_succeeds db =
    create_receipt e callback_succeeds db (find_receipt e db.receipts)
