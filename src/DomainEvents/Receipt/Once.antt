-- ===== src/DomainEvents/Receipt/Once.antt =====
-- packages/domain-events/src/receipt.ts: concurrent transactions for the same event.
use appspine_packages.Base.{
  ℕ, zero, suc, ◌≡◌, refl, ap, inl, inr, Bool, true, false, ◌&&◌, Option, none, some, List, [], ◌∷◌,
  map, arith, find, any, All, Text, same, same_refl, Bool-cases, Result, ok, err,
}
use appspine_packages.DomainEvents.Receipt.{
  Envelope, Receipt, ReceiptResult, ReceiptError, receipt_of, is_receipt_of, find_receipt,
  same_contract, assert_matching_receipt, Database, Opened, answered, creating, open_found,
  open_transaction, create_receipt, commit_transaction,
}

-- What concurrent callers do: one opens a transaction for an event; or the `n`-th of those that are to
-- create a receipt goes on, and its callback succeeds or fails.
pub data Step : Type 0 where
  opens : Envelope → Step
  commits : ℕ → Bool → Step

pub record Receiving : Type 0 where
  pub database : Database
  pub creators : List Envelope
  pub answers : List (Envelope × Result ReceiptError ReceiptResult)

abbrev pub no_receipts : Receiving
no_receipts = record {
  database = record { receipts = []; effects = [] };
  creators = [];
  answers = [];
}

after_opening : Envelope → Receiving → Opened → Receiving
after_opening e w creating = record w { creators = e ∷ w.creators }
after_opening e w (answered a) = record w { answers = (e, a) ∷ w.answers }

after_commit : Envelope → Receiving → Result ReceiptError ReceiptResult × Database → Receiving
after_commit e w (a, db) = record w { database = db; answers = (e, a) ∷ w.answers }

nth : ℕ → List Envelope → Option Envelope
nth n [] = none
nth zero (e ∷ es) = some e
nth (suc n) (e ∷ es) = nth n es

-- A creator that went on stays in the list, as if its caller might try again: more steps, not fewer.
commit_nth : Bool → Receiving → Option Envelope → Receiving
commit_nth succeeds w none = w
commit_nth succeeds w (some e) = after_commit e w (commit_transaction e succeeds w.database)

module _ (sha256_digest : Text → Text) where
  unfoldable pub receive : Step → Receiving → Receiving
  unfolding after_opening after_commit commit_nth nth
  receive (opens e) w = after_opening e w (open_transaction sha256_digest e w.database)
  receive (commits n succeeds) w = commit_nth succeeds w (nth n w.creators)

  unfoldable pub receive_all : List Step → Receiving → Receiving
  receive_all [] w = w
  receive_all (s ∷ steps) w = receive_all steps (receive s w)

-- No two receipts for the same event.
abbrev pub IsUnique : List Receipt → Type 0
IsUnique [] = Unit
IsUnique (r ∷ rs) = (any (is_receipt_of r.source_app r.event_id) rs ≡ false) × IsUnique rs

abbrev pub event_of : Receipt → Text × Text
event_of r = (r.source_app, r.event_id)

-- An answer without an error comes with a receipt of the same content.
abbrev pub fits : Envelope × Result ReceiptError ReceiptResult → Bool
fits (e, err x) = true
fits (e, ok result) =
    same result.receipt.payload_digest e.payload_digest && same_contract result.receipt e

pub record IsOnce (w : Receiving) : Type 0 where
  pub unique : IsUnique w.database.receipts
  pub effective : w.database.effects ≡ map event_of w.database.receipts
  pub fitting : All (λ a. fits a ≡ true) w.answers

find-none : (p : Receipt → Bool) (rs : List Receipt) → find p rs ≡ none → any p rs ≡ false
find-none p [] h = refl
find-none p (r ∷ rs) h = ground (arith, find-none p rs)

assert-fits : (r : Receipt) (e : Envelope) → fits (e, assert_matching_receipt r e) ≡ true
unfolding assert_matching_receipt
assert-fits r e = elim (Bool-cases (same r.payload_digest e.payload_digest)) [
  | inr a ↦ rw a refl
  | inl a ↦ elim (Bool-cases (same_contract r e)) [
    | inr b ↦ rw (a, b) refl
    | inl b ↦ rw (a, b) (rw (a, b) refl)
  ]
]

fits_own :
    (e : Envelope) → fits (e, ok (record { duplicate = false; receipt = receipt_of e })) ≡ true
unfolding receipt_of same_contract
fits_own e =
    rw
      (
        same_refl e.payload_digest,
        same_refl e.capability_id,
        same_refl e.capability_version,
        same_refl e.capability_digest,
        same_refl e.binding_id,
        same_refl e.binding_version,
      )
      refl

create-IsOnce :
    (e : Envelope) (succeeds : Bool) (w : Receiving) (found : Option Receipt)
    → find_receipt e w.database.receipts ≡ found
    → IsOnce w
    → IsOnce (after_commit e w (create_receipt e succeeds w.database found))
unfolding after_commit create_receipt find_receipt receipt_of
create-IsOnce e succeeds w (some r) f h = record {
  unique = h.unique;
  effective = h.effective;
  fitting = (assert-fits r e, h.fitting);
}
create-IsOnce e true w none f h = record {
  unique = (find-none (is_receipt_of e.source_app e.event_id) w.database.receipts f, h.unique);
  effective = ap (λ events. (e.source_app, e.event_id) ∷ events) h.effective;
  fitting = (fits_own e, h.fitting);
}
create-IsOnce e false w none f h = record {
  unique = h.unique;
  effective = h.effective;
  fitting = (refl, h.fitting);
}

found-IsOnce :
    (e : Envelope) (w : Receiving) (found : Option Receipt)
    → IsOnce w
    → IsOnce (after_opening e w (open_found e found))
unfolding after_opening open_found
found-IsOnce e w none h = record { unique = h.unique; effective = h.effective; fitting = h.fitting }
found-IsOnce e w (some r) h = record {
  unique = h.unique;
  effective = h.effective;
  fitting = (assert-fits r e, h.fitting);
}

module _ (sha256_digest : Text → Text) where
  open-IsOnce :
      (e : Envelope) (w : Receiving)
      → IsOnce w
      → IsOnce (after_opening e w (open_transaction sha256_digest e w.database))
  unfolding open_transaction after_opening
  open-IsOnce e w h = elim (Bool-cases (same (sha256_digest e.payload) e.payload_digest)) [
    | inl b ↦ rw b (found-IsOnce e w _ h)
    | inr b ↦
        rw b (record { unique = h.unique; effective = h.effective; fitting = (refl, h.fitting) })
  ]

  nth-IsOnce :
      (succeeds : Bool) (w : Receiving) (found : Option Envelope)
      → IsOnce w
      → IsOnce (commit_nth succeeds w found)
  unfolding commit_nth commit_transaction
  nth-IsOnce succeeds w none h = h
  nth-IsOnce succeeds w (some e) h = create-IsOnce e succeeds w _ refl h

  receive-IsOnce : (s : Step) (w : Receiving) → IsOnce w → IsOnce (receive sha256_digest s w)
  unfolding receive
  receive-IsOnce (opens e) w h = open-IsOnce e w h
  receive-IsOnce (commits n succeeds) w h = nth-IsOnce succeeds w (nth n w.creators) h

  kept-IsOnce :
      (steps : List Step) (w : Receiving) → IsOnce w → IsOnce (receive_all sha256_digest steps w)
  unfolding receive_all
  kept-IsOnce [] w h = h
  kept-IsOnce (s ∷ steps) w h = kept-IsOnce steps _ (receive-IsOnce s w h)

  -- However concurrent transactions interleave, the business callback takes effect at most once for an
  -- event of a source app, and exactly for the events with a receipt; and a caller who gets an answer,
  -- duplicate or not, gets a receipt with the digest, the capability and the binding of its event.
  pub receive_all-IsOnce :
      (steps : List Step) → IsOnce (receive_all sha256_digest steps no_receipts)
  receive_all-IsOnce steps =
      kept-IsOnce steps no_receipts (record { unique = tt; effective = refl; fitting = tt })
