-- ===== src/DomainEvents/Identity.antt =====
-- packages/domain-events/src/domain-event-dispatcher.service.ts: the rows of the table and
-- their order.
use appspine_packages.Base.{
  ℕ, ◌≡◌, refl, inl, inr, true, false, Option, none, some, List, [], ◌∷◌, map, arith, Bool-cases,
  get_or, Text, same,
}
use appspine_packages.DomainEvents.{
  Delivery, HandlerError, HandlerRun, BindingLookup, handled, raised, unsettled, unanswered,
  answered, refused, DispatcherOptions, ignored_error, terminal_error, retryable_error, other_error,
}
use appspine_packages.DomainEvents.Dispatcher.{
  ids_of, reclaim, reclaim_stale_locks, lock, holds_lease, complete_delivery, mark_failed,
  data_of_error, data_of_run, disabled_data, bound_data, completion_data, process_delivery,
}

map-ids :
    (f : Delivery → Delivery)
    → ((d : Delivery) → (f d).id ≡ d.id)
    → (rows : List Delivery) → ids_of (map f rows) ≡ ids_of rows
map-ids f keep [] = refl
map-ids f keep (row ∷ rows) = λ j. keep row j ∷ map-ids f keep rows j

reclaim-id :
    (options : DispatcherOptions) (now : ℕ) (d : Delivery) → (reclaim options now d).id ≡ d.id
unfolding reclaim
reclaim-id options now d = ground arith

lock-id :
    (now : ℕ) (lease : Text) (ids : List Text) (d : Delivery) → (lock now lease ids d).id ≡ d.id
unfolding lock
lock-id now lease ids d = ground arith

pub reclaim_stale_locks-ids :
    (options : DispatcherOptions) (now : ℕ) (rows : List Delivery)
    → ids_of (reclaim_stale_locks options now rows) ≡ ids_of rows
unfolding reclaim_stale_locks
reclaim_stale_locks-ids options now rows = map-ids _ (reclaim-id options now) rows

pub map-lock-ids :
    (now : ℕ) (lease : Text) (ids : List Text) (rows : List Delivery)
    → ids_of (map (lock now lease ids) rows) ≡ ids_of rows
map-lock-ids now lease ids rows = map-ids _ (lock-id now lease ids) rows

module _ (options : DispatcherOptions) (now : ℕ) (d : Delivery) where
  mark_failed-id :
      (error : HandlerError) (row : Delivery) → (mark_failed options now d error row).id ≡ row.id
  unfolding mark_failed
  mark_failed-id error row = ground arith

  data_of_error-id :
      (error : HandlerError) (row : Delivery) → (data_of_error options now d error row).id ≡ row.id
  unfolding data_of_error
  data_of_error-id (ignored_error m) row = refl
  data_of_error-id (terminal_error m) row = refl
  data_of_error-id (retryable_error m hint) row = mark_failed-id _ row
  data_of_error-id (other_error m) row = mark_failed-id _ row

  data_of_run-id :
      (run : HandlerRun) (row : Delivery) → (data_of_run options now d run row).id ≡ row.id
  unfolding data_of_run
  data_of_run-id handled row = refl
  data_of_run-id unsettled row = refl
  data_of_run-id (raised error) row = data_of_error-id error row

  bound_data-id :
      (run : HandlerRun) (binding : Text) (l : BindingLookup) (row : Delivery)
      → (bound_data options now d run binding l row).id ≡ row.id
  unfolding bound_data disabled_data
  bound_data-id run binding unanswered row = refl
  bound_data-id run binding (answered true) row = data_of_run-id run row
  bound_data-id run binding (answered false) row = refl
  bound_data-id run binding (refused error) row = data_of_error-id error row

  module _ (binding_enabled : Text → BindingLookup) where
    completion_data-id :
        (run : Option HandlerRun) (row : Delivery)
        → (completion_data options binding_enabled now run d row).id ≡ row.id
    unfolding completion_data
    completion_data-id none row = refl
    completion_data-id (some run) row =
        elim (Bool-cases (same (get_or d.event.integration_binding_id []) [])) [
          | inl e ↦ rw e (data_of_run-id run row)
          | inr e ↦ rw e (bound_data-id run _ _ row)
        ]

    pub process_delivery-ids :
        (run : Option HandlerRun) (rows : List Delivery)
        → ids_of (process_delivery options binding_enabled now run d rows) ≡ ids_of rows
    unfolding process_delivery complete_delivery
    process_delivery-ids run rows =
        map-ids _
          (λ row. elim (Bool-cases (holds_lease d row)) [
            | inl e ↦ rw e (completion_data-id run row)
            | inr e ↦ rw e refl
          ])
          rows
