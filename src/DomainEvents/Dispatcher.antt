-- ===== src/DomainEvents/Dispatcher.antt =====
-- packages/domain-events/src/domain-event-dispatcher.service.ts: the dispatcher's operations on the table
-- of deliveries. A Prisma `updateMany` writes its data to the rows that its `where` selects, and the
-- SQL statement of `claimDueDeliveries` is one step. `now` is a reading of the clock.
use appspine_packages.Base.{
  ℕ, zero, suc, ◌+◌, Bool, true, false, ◌&&◌, not, Option, none, some, List, [], ◌∷◌, ◌++◌, map,
  if◌then◌else◌, ltb, leb, select, get_or, length, Text, text, say, same, includes, sort_by,
}
use appspine_packages.DomainEvents.{
  Delivery, DomainEventDeliveryStatus, is_pending, is_processing, HandlerError, ignored_error,
  terminal_error, retryable_error, other_error, HandlerRun, handled, raised, unsettled, unanswered,
  BindingLookup, answered, refused, DispatcherOptions,
}
use appspine_packages.DomainEvents.Backoff.{retry_delay_ms}

-- `take n xs` is `xs.slice(0, n)`.
unfoldable pub take {ℓ} : {A : Type ℓ} → ℕ → List A → List A
take zero xs = []
take (suc n) [] = []
take (suc n) (x ∷ xs) = x ∷ take n xs

unfoldable pub message_of : HandlerError → Text
message_of (ignored_error message) = message
message_of (terminal_error message) = message
message_of (retryable_error message hint) = message
message_of (other_error message) = message

-- The code unit is that of the ellipsis.
unfoldable pub bounded_error : Text → Text
unfolding take
bounded_error value = if ltb 1000 (length value) then take 1000 value ++ 8230 ∷ [] else value

abbrev pub ids_of : List Delivery → List Text
ids_of rows = map (λ d. d.id) rows

-- Locked before `now - staleLockMs`.
unfoldable pub is_stale : DispatcherOptions → ℕ → Delivery → Bool
is_stale options now d =
    is_processing d.status
    && elim d.locked_at [ none ↦ false | some at ↦ ltb (at + options.stale_lock_ms) now ]

-- What the two updates of `reclaimStaleLocks` do to a row; their conditions exclude each other.
unfoldable pub reclaim : DispatcherOptions → ℕ → Delivery → Delivery
reclaim options now d =
    if not (is_stale options now d)
    then d
    else if leb options.max_attempts (d.attempts + 1)
    then record d {
      status = DomainEventDeliveryStatus.dead_letter;
      attempts = d.attempts + 1;
      locked_at = none;
      locked_by = none;
      last_error = some (text "Reclaimed after stale lock timeout: max attempts exceeded");
    }
    else record d {
      status = DomainEventDeliveryStatus.pending;
      attempts = d.attempts + 1;
      locked_at = none;
      locked_by = none;
      last_error = some (text "Reclaimed after stale lock timeout");
    }

unfoldable pub reclaim_stale_locks : DispatcherOptions → ℕ → List Delivery → List Delivery
reclaim_stale_locks options now rows = map (reclaim options now) rows

unfoldable pub is_due : ℕ → Delivery → Bool
is_due now d = is_pending d.status && elim d.next_attempt_at [ none ↦ true | some at ↦ leb at now ]

-- `ORDER BY de.seq ASC`
abbrev pub by_seq : Delivery → Delivery → Bool
by_seq a b = ltb a.event.seq b.event.seq

unfoldable pub due_ids : DispatcherOptions → ℕ → List Delivery → List Text
due_ids options now rows =
    ids_of (take options.batch_size (sort_by by_seq (select (is_due now) rows)))

unfoldable pub lock : ℕ → Text → List Text → Delivery → Delivery
lock now lease ids d =
    if includes ids d.id
    then record d {
      status = DomainEventDeliveryStatus.processing;
      locked_at = some now;
      locked_by = some lease;
    }
    else d

pub record Claim : Type 0 where
  pub rows : List Delivery
  pub claimed : List Delivery

unfoldable pub claim_due_deliveries : DispatcherOptions → ℕ → Text → List Delivery → Claim
claim_due_deliveries options now lease rows =
    let ids = due_ids options now rows in
    let locked = map (lock now lease ids) rows in
    record { rows = locked; claimed = sort_by by_seq (select (λ d. includes ids d.id) locked) }

-- The row is being processed under the lease.
unfoldable pub is_leased : Text → Delivery → Bool
is_leased lease row =
    is_processing row.status && elim row.locked_by [ none ↦ false | some owner ↦ same owner lease ]

-- The `where` of `completeDelivery`.
unfoldable pub holds_lease : Delivery → Delivery → Bool
holds_lease delivery row =
    same row.id delivery.id && is_leased (get_or delivery.locked_by (text "__missing_lease__")) row

unfoldable pub complete_delivery : Delivery → (Delivery → Delivery) → List Delivery → List Delivery
complete_delivery delivery data_of rows =
    map (λ row. if holds_lease delivery row then data_of row else row) rows

-- The fields that every completion resets.
abbrev release : DomainEventDeliveryStatus → Option Text → Delivery → Delivery
release status error row = record row {
  status = status;
  locked_at = none;
  locked_by = none;
  last_error = error;
}

abbrev close : ℕ → DomainEventDeliveryStatus → Option Text → Delivery → Delivery
close now status error row = record (release status error row) { processed_at = some now }

unfoldable pub mark_failed : DispatcherOptions → ℕ → Delivery → HandlerError → Delivery → Delivery
mark_failed options now delivery error row =
    let next_attempts = delivery.attempts + 1 in
    let message = some (bounded_error (message_of error)) in
    if leb options.max_attempts next_attempts
    then record (release DomainEventDeliveryStatus.dead_letter message row) {
      attempts = next_attempts;
      next_attempt_at = none;
    }
    else record (release DomainEventDeliveryStatus.pending message row) {
      attempts = next_attempts;
      next_attempt_at = some (
          now
          + retry_delay_ms options.base_backoff_ms options.max_backoff_ms delivery.attempts error);
    }

-- The `catch` block of `processDelivery`.
unfoldable pub data_of_error : DispatcherOptions → ℕ → Delivery → HandlerError → Delivery → Delivery
data_of_error options now delivery (ignored_error message) row =
    close now DomainEventDeliveryStatus.ignored (some message) row
data_of_error options now delivery (terminal_error message) row =
    close now DomainEventDeliveryStatus.dead_letter (some (bounded_error message)) row
data_of_error options now delivery error row = mark_failed options now delivery error row

unfoldable pub data_of_run : DispatcherOptions → ℕ → Delivery → HandlerRun → Delivery → Delivery
data_of_run options now delivery handled row =
    close now DomainEventDeliveryStatus.processed none row
data_of_run options now delivery unsettled row = row
data_of_run options now delivery (raised error) row = data_of_error options now delivery error row

unfoldable pub disabled_data : Delivery → Text → Delivery → Delivery
disabled_data delivery binding row =
    record (release DomainEventDeliveryStatus.pending
      (some (say (text "Integration binding disabled: " ∷ binding ∷ []))) row) {
        attempts = delivery.attempts;
        next_attempt_at = none;
      }

-- The rest of the `try` block, once the binding has been looked up.
unfoldable pub bound_data :
    DispatcherOptions → ℕ → Delivery → HandlerRun → Text → BindingLookup → Delivery → Delivery
bound_data options now delivery ended binding (answered true) row =
    data_of_run options now delivery ended row
bound_data options now delivery ended binding (answered false) row =
    disabled_data delivery binding row
bound_data options now delivery ended binding unanswered row = row
bound_data options now delivery ended binding (refused error) row =
    data_of_error options now delivery error row

-- What `processDelivery` writes; it writes nothing while it waits. `run` is how the registered handler's call would end, or none if
-- no handler is registered; the binding is looked up only if the event names one.
unfoldable pub completion_data :
    DispatcherOptions
    → (Text → BindingLookup)
    → ℕ
    → Option HandlerRun
    → Delivery
    → Delivery
    → Delivery
completion_data options binding_enabled now none delivery row =
    close now DomainEventDeliveryStatus.ignored
      (some (say (text "No handler registered for " ∷ delivery.handler_key ∷ []))) row
completion_data options binding_enabled now (some ended) delivery row =
    let binding = get_or delivery.event.integration_binding_id [] in
    if same binding []
    then data_of_run options now delivery ended row
    else bound_data options now delivery ended binding (binding_enabled binding) row

unfoldable pub process_delivery :
    DispatcherOptions
    → (Text → BindingLookup)
    → ℕ
    → Option HandlerRun
    → Delivery
    → List Delivery
    → List Delivery
process_delivery options binding_enabled now run delivery rows =
    complete_delivery delivery (completion_data options binding_enabled now run delivery) rows

unfoldable pub is_unsettled : HandlerRun → Bool
is_unsettled unsettled = true
is_unsettled _ = false

-- Whether the call of a handler is waited for, and does not settle, behind the lookup of the binding.
unfoldable pub hangs_behind : BindingLookup → HandlerRun → Bool
hangs_behind (answered true) ended = is_unsettled ended
hangs_behind unanswered ended = true
hangs_behind _ ended = false

-- Whether `processDelivery` never returns.
unfoldable pub hangs : (Text → BindingLookup) → Option HandlerRun → Delivery → Bool
hangs binding_enabled none delivery = false
hangs binding_enabled (some ended) delivery =
    let binding = get_or delivery.event.integration_binding_id [] in
    if same binding [] then is_unsettled ended else hangs_behind (binding_enabled binding) ended

module _ (options : DispatcherOptions) (binding_enabled : Text → BindingLookup) (now : ℕ → ℕ)
    (run_of : Delivery → Option HandlerRun) where
  -- The loop of `tick` over the claimed deliveries; `n` counts the readings of the clock. Behind a
  -- delivery that hangs the loop goes no further, and the rows stay as they are then.
  unfoldable pub process_all : ℕ → List Delivery → List Delivery → List Delivery
  process_all n [] rows = rows
  process_all n (d ∷ rest) rows =
      let later =
        process_all (suc n) rest
          (process_delivery options binding_enabled (now n) (run_of d) d rows) in
      if hangs binding_enabled (run_of d) d then rows else later

  -- `tick`, which does nothing while another run of it has not ended.
  unfoldable pub tick : Bool → Text → List Delivery → List Delivery
  tick running lease rows =
      let claim =
        claim_due_deliveries options (now 1) lease (reclaim_stale_locks options (now 0) rows) in
      let done = process_all 2 claim.claimed claim.rows in if running then rows else done
