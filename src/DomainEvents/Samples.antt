-- ===== src/DomainEvents/Samples.antt =====
-- Two deliveries, and what workers make of them.
use appspine_packages.Base.{
  String, arith, ℕ, suc, ◌+◌, ◌≤◌, ◌≡◌, refl, true, false, Option, none, some, List, [], ◌∷◌, map,
  All, Text, text, same, includes, Distinct, sort_by, insert, if◌then◌else◌,
}
use appspine_packages.DomainEvents.{
  Delivery, DomainEventDeliveryStatus, HandlerRun, handled, raised, other_error, BindingLookup,
  answered, DispatcherOptions,
}
use appspine_packages.DomainEvents.Backoff.{
  least, two_to, clamp, retry_hint, retry_delay_ms, retry_delay_ms_bounds,
}
use appspine_packages.DomainEvents.Dispatcher.{
  take, ids_of, is_stale, reclaim, reclaim_stale_locks, is_due, due_ids, lock, claim_due_deliveries,
  is_leased, holds_lease, complete_delivery, mark_failed, data_of_error, data_of_run,
  completion_data, process_delivery, is_unsettled, hangs_behind, hangs, process_all, tick,
}
use appspine_packages.DomainEvents.Attempts.{is_sound}
use appspine_packages.DomainEvents.Workers.{
  Action, reclaims, claims, processes, perform_all, perform_all-IsSound,
}
use appspine_packages.DomainEvents.Settled.{tick_settles}

abbrev options : DispatcherOptions
options = record {
  batch_size = 20;
  max_attempts = 8;
  stale_lock_ms = 300000;
  base_backoff_ms = 30000;
  max_backoff_ms = 3600000;
}

abbrev never_bound : Text → BindingLookup
never_bound binding = answered false

abbrev delivery : String → ℕ → Delivery
delivery id seq = record {
  id = text id;
  handler_key = text "mail";
  status = DomainEventDeliveryStatus.pending;
  attempts = 0;
  next_attempt_at = none;
  locked_at = none;
  locked_by = none;
  last_error = none;
  processed_at = none;
  event = record { id = text id; seq = seq; integration_binding_id = none };
}

abbrev rows : List Delivery
rows = delivery "b" 2 ∷ delivery "a" 1 ∷ []

abbrev runs : Delivery → Option HandlerRun
runs d = if same d.id (text "a") then some handled else some (raised (other_error (text "down")))

abbrev clock : ℕ → ℕ
clock n = n

runs_settle : (d : Delivery) → hangs never_bound (runs d) d ≡ false
unfolding hangs hangs_behind is_unsettled
runs_settle d = ground arith

rows-Distinct : Distinct (ids_of rows)
unfolding includes same text
rows-Distinct = (refl, (refl, tt))

rows_unleased : All (λ r. is_leased (text "w") r ≡ false) rows
unfolding is_leased
rows_unleased = (refl, (refl, tt))

rows_sound : All (λ r. is_sound 8 r ≡ true) rows
unfolding is_sound
rows_sound = (refl, (refl, tt))

tick_test :
    map {B = DomainEventDeliveryStatus × Option ℕ}
      (λ r. (r.status, r.next_attempt_at))
      (tick options never_bound clock runs false (text "w") rows)
    ≡ (DomainEventDeliveryStatus.pending, some 30003)
      ∷ (DomainEventDeliveryStatus.processed, none)
      ∷ []
unfolding tick hangs is_unsettled process_all process_delivery complete_delivery completion_data
    data_of_run data_of_error mark_failed retry_delay_ms retry_hint least two_to clamp holds_lease
    is_leased claim_due_deliveries due_ids lock is_due take reclaim_stale_locks reclaim is_stale
    includes same text sort_by insert
tick_test = refl

tick_settles_example :
    All
      (λ r. is_leased (text "w") r ≡ false)
      (tick options never_bound clock runs false (text "w") rows)
tick_settles_example =
    tick_settles options never_bound clock runs (text "w") rows runs_settle rows_unleased

-- Two workers claim in turn; the second's lock goes stale.
abbrev actions : List Action
actions =
    claims 0 (text "w")
    ∷ processes 0 5 (some handled)
    ∷ claims 9 (text "v")
    ∷ reclaims 400000
    ∷ processes 0 400001 (some handled)
    ∷ []

perform_all-IsSound_example :
    All
      (λ r. is_sound 8 r ≡ true)
      (perform_all options never_bound actions (record { rows = rows; held = [] })).rows
perform_all-IsSound_example =
    perform_all-IsSound options never_bound actions rows rows-Distinct rows_sound

retry_delay_ms_bounds_example :
    (retry_delay_ms 30000 3600000 2 (other_error (text "down")) ≤ 3600000)
    × (retry_delay_ms 30000 3600000 0 (other_error (text "down")) ≡ least 30000 3600000)
    × (retry_delay_ms 30000 3600000 (suc 2) (other_error (text "down"))
        ≡ least (120000 + 120000) 3600000)
unfolding retry_delay_ms two_to least retry_hint
retry_delay_ms_bounds_example = retry_delay_ms_bounds 30000 3600000 2 (other_error (text "down"))
