-- ===== src/IntegrationContracts/Delivery.antt =====
-- packages/integration-contracts/src/delivery.ts: what an HTTP answer means for a delivery.
use Prim.Native.Nat.{◌-◌}
use appspine_packages.Base.{
  ℕ, ◌≤◌, min, ◌≡◌, Bool, true, false, ◌&&◌, ◌||◌, Option, none, some, [], arith, if◌then◌else◌,
  leb, ltb, ◌==◌, is_empty, get_or, Text, text, same, inl, inr, Bool-cases,
}

-- The fields of an answer's body that are read: `status` and `eventId`, if they are strings.
pub record AnswerBody : Type 0 where
  pub status : Option Text
  pub event_id : Option Text

pub data OutcomeKind : Type 0 where
  processed retryable terminal ignored : OutcomeKind

pub record DeliveryOutcome : Type 0 where
  pub kind : OutcomeKind
  pub status : ℕ
  pub event_id : Option Text
  pub retry_after_ms : Option ℕ
  pub reason : Option Text

abbrev pub day_ms : ℕ
day_ms = 86400000

-- `isAlreadyProcessed`; a body that is no object is none.
unfoldable pub is_expected : Option Text → Option Text → Bool
is_expected none expected = false
is_expected (some id) none = true
is_expected (some id) (some expected) = same id expected

unfoldable pub is_already_processed : Option AnswerBody → Option Text → Bool
unfolding is_expected
is_already_processed none expected = false
is_already_processed (some body) expected =
    same (get_or body.status []) (text "already_processed") && is_expected body.event_id expected

-- `Number(value)` in milliseconds, rounded, if it is finite and not negative; and `Date.parse`.
pub record Numbers : Type 0 where
  pub seconds_ms : Text → Option ℕ
  pub parse_date : Text → Option ℕ

abbrev until_of : ℕ → ℕ → Option ℕ → Option ℕ
until_of max_ms now none = none
until_of max_ms now (some at) = some (min (at - now) max_ms)

abbrev delay_of : ℕ → ℕ → Option ℕ → Option ℕ → Option ℕ
delay_of max_ms now (some ms) date = some (min ms max_ms)
delay_of max_ms now none date = until_of max_ms now date

module _ (numbers : Numbers) where
  unfoldable pub bounded_retry_after : Option Text → ℕ → ℕ → Option ℕ
  bounded_retry_after none max_ms now = none
  bounded_retry_after (some value) max_ms now =
      if is_empty value
      then none
      else delay_of max_ms now (numbers.seconds_ms value) (numbers.parse_date value)

  unfoldable pub classify_http_outcome :
      ℕ → Option Text → Option AnswerBody → Option Text → ℕ → DeliveryOutcome
  classify_http_outcome status retry_after body expected now =
      if leb 200 status && ltb status 300
      then record {
        kind = processed;
        status = status;
        event_id = none;
        retry_after_ms = none;
        reason = none;
      }
      else if status == 409 && is_already_processed body expected
      then record {
        kind = processed;
        status = status;
        event_id = elim body [ none ↦ none | some b ↦ b.event_id ];
        retry_after_ms = none;
        reason = some (text "already_processed");
      }
      else if status == 408 || (status == 425 || (status == 429 || leb 500 status))
      then record {
        kind = retryable;
        status = status;
        event_id = none;
        retry_after_ms = bounded_retry_after retry_after day_ms now;
        reason = none;
      }
      else record {
        kind = terminal;
        status = status;
        event_id = none;
        retry_after_ms = none;
        reason = none;
      }

  delay_of-le :
      (max_ms now : ℕ) (ms date : Option ℕ) → get_or (delay_of max_ms now ms date) 0 ≤ max_ms
  delay_of-le max_ms now (some ms) date = omega arith
  delay_of-le max_ms now none none = omega arith
  delay_of-le max_ms now none (some at) = omega arith

  bounded_retry_after-le :
      (value : Option Text) (max_ms now : ℕ)
      → get_or (bounded_retry_after value max_ms now) 0 ≤ max_ms
  unfolding bounded_retry_after
  bounded_retry_after-le none max_ms now = omega arith
  bounded_retry_after-le (some value) max_ms now = elim (Bool-cases (is_empty value)) [
    | inl e ↦ rw e (omega arith)
    | inr e ↦ rw e (delay_of-le max_ms now (numbers.seconds_ms value) (numbers.parse_date value))
  ]

  abbrev pub is_processed : DeliveryOutcome → Bool
  is_processed o = elim o.kind [ processed ↦ true | _ ↦ false ]

  -- An answer counts as processed exactly if its status is 2xx, or if it is 409 and its body says that
  -- the expected event was processed already; and no answer asks for a delay of more than a day.
  pub classify_http_outcome_lem :
      (status : ℕ) (retry_after : Option Text) (body : Option AnswerBody) (expected : Option Text)
      (now : ℕ)
      → (is_processed (classify_http_outcome status retry_after body expected now) ≡ (
          (leb 200 status && ltb status 300)
          || (status == 409 && is_already_processed body expected)))
        × (get_or (classify_http_outcome status retry_after body expected now).retry_after_ms 0
            ≤ day_ms)
  unfolding classify_http_outcome
  classify_http_outcome_lem status retry_after body expected now =
      (ground arith, ground (arith, bounded_retry_after-le retry_after day_ms now))
