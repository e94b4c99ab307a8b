-- ===== src/DomainEvents/Attempts.antt =====
-- packages/domain-events/src/domain-event-dispatcher.service.ts: the attempts and the locks
-- of a row.
use appspine_packages.Base.{
  ℕ, ◌≡◌, inl, inr, Bool, true, false, ◌||◌, ◌&&◌, not, Option, none, some, List, [], ◌∷◌, arith,
  if◌then◌else◌, ltb, leb, is_some, All, Bool-cases, Text, get_or, same,
}
use appspine_packages.DomainEvents.{
  Delivery, is_pending, is_processing, HandlerError, HandlerRun, BindingLookup, handled, raised,
  unsettled, unanswered, answered, refused, DispatcherOptions, ignored_error, terminal_error,
  retryable_error, other_error,
}
use appspine_packages.DomainEvents.Dispatcher.{
  is_stale, reclaim, bound_data, data_of_run, disabled_data, holds_lease, complete_delivery,
  mark_failed, data_of_error, completion_data, process_delivery,
}

abbrev same_bool : Bool → Bool → Bool
same_bool true b = b
same_bool false b = not b

-- A row is sound if it has not used up more attempts than there are, has one left while it can still
-- be handled, and is locked exactly while it is processed.
unfoldable pub is_sound : ℕ → Delivery → Bool
is_sound max_attempts d =
    (if is_pending d.status || is_processing d.status
      then ltb d.attempts max_attempts
      else leb d.attempts max_attempts)
    && (same_bool (is_processing d.status) (is_some d.locked_at)
        && same_bool (is_processing d.status) (is_some d.locked_by))

module _ (options : DispatcherOptions) where
  abbrev pub IsSound : Delivery → Type 0
  IsSound d = is_sound options.max_attempts d ≡ true

  pub reclaim-IsSound : (now : ℕ) (d : Delivery) → IsSound d → IsSound (reclaim options now d)
  unfolding reclaim is_sound is_stale
  reclaim-IsSound now d h = ground arith

  -- What a worker holds: a copy of a row with an attempt left.
  abbrev pub IsHeld : Delivery → Type 0
  IsHeld d = ltb d.attempts options.max_attempts ≡ true

  mark_failed-IsSound :
      (now : ℕ) (d : Delivery) (error : HandlerError) (row : Delivery)
      → IsHeld d
      → IsSound (mark_failed options now d error row)
  unfolding mark_failed is_sound
  mark_failed-IsSound now d error row h = ground arith

  data_of_error-IsSound :
      (now : ℕ) (d : Delivery) (error : HandlerError) (row : Delivery)
      → IsHeld d
      → IsSound row
      → IsSound (data_of_error options now d error row)
  unfolding data_of_error is_sound
  data_of_error-IsSound now d (ignored_error m) row h s = ground arith
  data_of_error-IsSound now d (terminal_error m) row h s = ground arith
  data_of_error-IsSound now d (retryable_error m hint) row h s = mark_failed-IsSound now d _ row h
  data_of_error-IsSound now d (other_error m) row h s = mark_failed-IsSound now d _ row h

  data_of_run-IsSound :
      (now : ℕ) (d : Delivery) (run : HandlerRun) (row : Delivery)
      → IsHeld d
      → IsSound row
      → IsSound (data_of_run options now d run row)
  unfolding data_of_run is_sound
  data_of_run-IsSound now d handled row h s = ground arith
  data_of_run-IsSound now d unsettled row h s = s
  data_of_run-IsSound now d (raised error) row h s = data_of_error-IsSound now d error row h s

  bound_data-IsSound :
      (now : ℕ) (d : Delivery) (run : HandlerRun) (binding : Text) (l : BindingLookup)
      (row : Delivery)
      → IsHeld d
      → IsSound row
      → IsSound (bound_data options now d run binding l row)
  unfolding bound_data disabled_data is_sound
  bound_data-IsSound now d run binding (answered true) row h s =
      data_of_run-IsSound now d run row h s
  bound_data-IsSound now d run binding unanswered row h s = s
  bound_data-IsSound now d run binding (answered false) row h s = ground arith
  bound_data-IsSound now d run binding (refused error) row h s =
      data_of_error-IsSound now d error row h s

  completion_data-IsSound :
      (binding_enabled : Text → BindingLookup) (now : ℕ) (run : Option HandlerRun)
      (d row : Delivery)
      → IsHeld d
      → IsSound row
      → IsSound (completion_data options binding_enabled now run d row)
  unfolding completion_data is_sound
  completion_data-IsSound binding_enabled now none d row h s = ground arith
  completion_data-IsSound binding_enabled now (some run) d row h s =
      let binding = get_or d.event.integration_binding_id [] in
      elim (Bool-cases (same binding [])) [
        | inl e ↦ rw e (data_of_run-IsSound now d run row h s)
        | inr e ↦ rw e (bound_data-IsSound now d run binding (binding_enabled binding) row h s)
      ]

  pub process_delivery-IsSound :
      (binding_enabled : Text → BindingLookup) (now : ℕ) (run : Option HandlerRun) (d : Delivery)
      (rows : List Delivery)
      → IsHeld d
      → All IsSound rows
      → All IsSound (process_delivery options binding_enabled now run d rows)
  unfolding process_delivery complete_delivery
  process_delivery-IsSound binding_enabled now run d [] h s = tt
  process_delivery-IsSound binding_enabled now run d (row ∷ rows) h (here, s) = (
    elim (Bool-cases (holds_lease d row)) [
      | inl e ↦ rw e (completion_data-IsSound binding_enabled now run d row h here)
      | inr e ↦ rw e here
    ],
    process_delivery-IsSound binding_enabled now run d rows h s,
  )
