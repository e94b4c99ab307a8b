-- ===== src/DomainEvents.antt =====
-- packages/domain-events: the table of deliveries (types.ts), and the errors that a handler raises
-- (domain-event-errors.ts). `Dispatcher` holds the operations of the dispatcher.
pub mod Backoff
pub mod Dispatcher
pub mod Identity
pub mod Claims
pub mod Attempts
pub mod Workers
pub mod Settled
pub mod Receipt
mod Samples
mod ReceiptSamples
use appspine_packages.Base.{ℕ, ℤ, Bool, true, false, ◌&&◌, Option, List, Text}

pub data DomainEventDeliveryStatus : Type 0 where
  pending processing processed dead_letter ignored : DomainEventDeliveryStatus

abbrev pub is_pending : DomainEventDeliveryStatus → Bool
is_pending DomainEventDeliveryStatus.pending = true
is_pending _ = false

abbrev pub is_processing : DomainEventDeliveryStatus → Bool
is_processing DomainEventDeliveryStatus.processing = true
is_processing _ = false

-- The fields of the event that the dispatcher reads.
pub record DomainEventRecord : Type 0 where
  pub id : Text
  pub seq : ℕ
  pub integration_binding_id : Option Text

-- A delivery joined with its event. Dates are milliseconds.
pub record Delivery : Type 0 where
  pub id : Text
  pub handler_key : Text
  pub status : DomainEventDeliveryStatus
  pub attempts : ℕ
  pub next_attempt_at : Option ℕ
  pub locked_at : Option ℕ
  pub locked_by : Option Text
  pub last_error : Option Text
  pub processed_at : Option ℕ
  pub event : DomainEventRecord

pub data HandlerError : Type 0 where
  ignored_error : Text → HandlerError
  terminal_error : Text → HandlerError
  retryable_error : Text → Option ℤ → HandlerError
  other_error : Text → HandlerError

-- How a call of a handler ends, and how the lookup of a binding's state ends, if they settle at all:
-- the dispatcher awaits both without a timeout.
pub data HandlerRun : Type 0 where
  handled unsettled : HandlerRun
  raised : HandlerError → HandlerRun

pub data BindingLookup : Type 0 where
  answered : Bool → BindingLookup
  unanswered : BindingLookup
  refused : HandlerError → BindingLookup

pub record DispatcherOptions : Type 0 where
  pub batch_size : ℕ
  pub max_attempts : ℕ
  pub stale_lock_ms : ℕ
  pub base_backoff_ms : ℕ
  pub max_backoff_ms : ℕ
