-- ===== src/DomainEvents/Settled.antt =====
-- packages/domain-events/src/domain-event-dispatcher.service.ts, `tick`: the deliveries that it
-- claims.
use appspine_packages.Base.{
  ℕ, suc, ◌≡◌, refl, ◌∙◌, sym, inl, inr, Bool, true, false, ◌||◌, ◌&&◌, not, Option, none, some,
  List, [], ◌∷◌, map, arith, if◌then◌else◌, any, select, All, All-mono, All-both, Bool-cases, Text,
  same, same_refl, same_comm, includes, sort_by, insert, any-sort_by, get_or,
}
use appspine_packages.DomainEvents.{
  Delivery, is_processing, HandlerError, HandlerRun, BindingLookup, handled, raised, unsettled,
  unanswered, answered, refused, DispatcherOptions, ignored_error, terminal_error, retryable_error,
  other_error,
}
use appspine_packages.DomainEvents.Dispatcher.{
  ids_of, reclaim, reclaim_stale_locks, by_seq, due_ids, lock, claim_due_deliveries, bound_data,
  is_leased, holds_lease, complete_delivery, mark_failed, data_of_error, data_of_run, disabled_data,
  completion_data, process_delivery, is_unsettled, hangs_behind, hangs, process_all, tick,
}

pub All-map :
    (P : Delivery → Type 0) (f : Delivery → Delivery) (rows : List Delivery)
    → All (λ row. P (f row)) rows
    → All P (map f rows)
All-map P f [] h = tt
All-map P f (row ∷ rows) (here, h) = (here, All-map P f rows h)

not_leased :
    (lease : Text) (row : Delivery) → is_processing row.status ≡ false → is_leased lease row ≡ false
unfolding is_leased
not_leased lease row h = rw h refl

holds_lease-is_leased :
    (lease : Text) (d row : Delivery)
    → d.locked_by ≡ some lease
    → holds_lease d row ≡ (same row.id d.id && is_leased lease row)
unfolding holds_lease
holds_lease-is_leased lease d row owned = rw owned refl

All-insert :
    (P : Delivery → Type 0) (lt : Delivery → Delivery → Bool) (x : Delivery) (rows : List Delivery)
    → P x
    → All P rows
    → All P (insert lt x rows)
unfolding insert
All-insert P lt x [] here h = (here, tt)
All-insert P lt x (row ∷ rows) here (first, h) = elim (Bool-cases (lt row x)) [
  | inl e ↦ rw e (first, All-insert P lt x rows here h)
  | inr e ↦ rw e (here, (first, h))
]

pub All-sort_by :
    (P : Delivery → Type 0) (lt : Delivery → Delivery → Bool) (rows : List Delivery)
    → All P rows
    → All P (sort_by lt rows)
unfolding sort_by
All-sort_by P lt [] h = tt
All-sort_by P lt (row ∷ rows) (here, h) = All-insert P lt row _ here (All-sort_by P lt rows h)

includes-ids :
    (rows : List Delivery) (k : Text) → includes (ids_of rows) k ≡ any (λ d. same d.id k) rows
unfolding includes
includes-ids [] k = refl
includes-ids (row ∷ rows) k = ground (arith, includes-ids rows k)

pub includes-ids-sort_by :
    (lt : Delivery → Delivery → Bool) (rows : List Delivery) (k : Text)
    → includes (ids_of (sort_by lt rows)) k ≡ includes (ids_of rows) k
includes-ids-sort_by lt rows k =
    includes-ids (sort_by lt rows) k
    ∙ any-sort_by (λ d. same d.id k) lt rows
    ∙ sym (includes-ids rows k)

module _ (now : ℕ) (lease : Text) (ids : List Text) where
  abbrev wanted : Delivery → Bool
  wanted d = includes ids d.id

  locked_owned :
      (rows : List Delivery)
      → All (λ d. d.locked_by ≡ some lease) (select wanted (map (lock now lease ids) rows))
  unfolding lock
  locked_owned [] = tt
  locked_owned (row ∷ rows) = elim (Bool-cases (includes ids row.id)) [
    | inl e ↦ simp e (refl, locked_owned rows)
    | inr e ↦ simp e (locked_owned rows)
  ]

  wanted_listed :
      (rows : List Delivery)
      → All (λ r. (not (wanted r) || includes (ids_of (select wanted rows)) r.id) ≡ true) rows
  unfolding includes
  wanted_listed [] = tt
  wanted_listed (row ∷ rows) =
      (ground (arith, same_refl row.id), All-mono _ rows (λ r h. ground arith) (wanted_listed rows))

  leased_wanted :
      (rows : List Delivery)
      → All (λ r. is_leased lease r ≡ false) rows
      → All (λ r. (not (is_leased lease r) || wanted r) ≡ true) (map (lock now lease ids) rows)
  unfolding lock
  leased_wanted [] h = tt
  leased_wanted (row ∷ rows) (here, h) = elim (Bool-cases (includes ids row.id)) [
    | inl e ↦ rw e (ground arith, leased_wanted rows h)
    | inr e ↦ rw e (ground arith, leased_wanted rows h)
  ]

  abbrev claimed : List Delivery → List Delivery
  claimed rows = sort_by by_seq (select wanted (map (lock now lease ids) rows))

  locked-IsCovered :
      (rows : List Delivery)
      → All (λ r. is_leased lease r ≡ false) rows
      → All
          (λ r. (not (is_leased lease r) || includes (ids_of (claimed rows)) r.id) ≡ true)
          (map (lock now lease ids) rows)
  locked-IsCovered rows fresh =
      let locked = map (lock now lease ids) rows in
      All-both _ _ _ locked
        (λ r l w. ground (arith, includes-ids-sort_by by_seq (select wanted locked) r.id, l, w))
        (leased_wanted rows fresh) (wanted_listed locked)

reclaim-unleased :
    (options : DispatcherOptions) (now : ℕ) (lease : Text) (row : Delivery)
    → is_leased lease row ≡ false
    → is_leased lease (reclaim options now row) ≡ false
unfolding reclaim is_leased
reclaim-unleased options now lease row h = ground arith

module _ (options : DispatcherOptions) (binding_enabled : Text → BindingLookup) where
  data_of_error-status :
      (now : ℕ) (d : Delivery) (error : HandlerError) (row : Delivery)
      → is_processing (data_of_error options now d error row).status ≡ false
  unfolding data_of_error mark_failed
  data_of_error-status now d (ignored_error m) row = refl
  data_of_error-status now d (terminal_error m) row = refl
  data_of_error-status now d (retryable_error m hint) row = ground arith
  data_of_error-status now d (other_error m) row = ground arith

  data_of_run-status :
      (now : ℕ) (d : Delivery) (run : HandlerRun) (row : Delivery)
      → is_unsettled run ≡ false
      → is_processing (data_of_run options now d run row).status ≡ false
  unfolding data_of_run is_unsettled
  data_of_run-status now d handled row h = refl
  data_of_run-status now d unsettled row h = cc
  data_of_run-status now d (raised error) row h = data_of_error-status now d error row

  bound_data-status :
      (now : ℕ) (d : Delivery) (run : HandlerRun) (binding : Text) (l : BindingLookup)
      (row : Delivery)
      → hangs_behind l run ≡ false
      → is_processing (bound_data options now d run binding l row).status ≡ false
  unfolding bound_data disabled_data hangs_behind
  bound_data-status now d run binding (answered true) row h = data_of_run-status now d run row h
  bound_data-status now d run binding unanswered row h = cc
  bound_data-status now d run binding (answered false) row h = refl
  bound_data-status now d run binding (refused error) row h = data_of_error-status now d error row

  completion_data-status :
      (now : ℕ) (run : Option HandlerRun) (d row : Delivery)
      → hangs binding_enabled run d ≡ false
      → is_processing (completion_data options binding_enabled now run d row).status ≡ false
  unfolding completion_data hangs
  completion_data-status now none d row h = refl
  completion_data-status now (some run) d row h =
      let binding = get_or d.event.integration_binding_id [] in
      elim (Bool-cases (same binding [])) [
        | inl e ↦ rw e (data_of_run-status now d run row (rw e at h))
        | inr e ↦
            rw e (bound_data-status now d run binding (binding_enabled binding) row (rw e at h))
      ]

  -- A row that the worker's lease still covers is among those it has not processed yet.
  abbrev IsCovered : Text → List Delivery → Delivery → Type 0
  IsCovered lease held row = (not (is_leased lease row) || includes (ids_of held) row.id) ≡ true

  process-IsCovered :
      (now : ℕ) (run : Option HandlerRun) (lease : Text) (d : Delivery) (rest : List Delivery)
      (row : Delivery)
      → hangs binding_enabled run d ≡ false
      → d.locked_by ≡ some lease
      → IsCovered lease (d ∷ rest) row
      → IsCovered lease rest
          (if holds_lease d row then completion_data options binding_enabled now run d row else row)
  unfolding includes
  process-IsCovered now run lease d rest row settles owned h =
      elim (Bool-cases (holds_lease d row)) [
        | inl e ↦
            rw
              (
                e,
                not_leased lease (completion_data options binding_enabled now run d row)
                    (completion_data-status now run d row settles),
              )
              refl
        | inr e ↦
            rw e
              (ground (arith, holds_lease-is_leased lease d row owned, same_comm d.id row.id, h, e))
      ]

  module _ (now : ℕ → ℕ) (run_of : Delivery → Option HandlerRun) (lease : Text)
      (settles : (d : Delivery) → hangs binding_enabled (run_of d) d ≡ false) where
    process_all-IsCovered :
        (n : ℕ) (held rows : List Delivery)
        → All (λ d. d.locked_by ≡ some lease) held
        → All (IsCovered lease held) rows
        → All (IsCovered lease []) (process_all options binding_enabled now run_of n held rows)
    unfolding process_all process_delivery complete_delivery
    process_all-IsCovered n [] rows owned covered = covered
    process_all-IsCovered n (d ∷ rest) rows (here, owned) covered = rw (settles d) (
        process_all-IsCovered (suc n) rest _ owned (
          All-map _ _ rows (
            All-mono (IsCovered lease (d ∷ rest)) rows
              (λ row h. process-IsCovered (now n) (run_of d) lease d rest row (settles d) here h)
              covered)))

  -- A tick leaves no row locked under its lease, whatever the handlers and the bindings do, if each
  -- call of a handler and each lookup of a binding that it waits for settles: every delivery that it
  -- claims is settled. The lease is new, as no row is locked under it before.
  pub tick_settles :
      (now : ℕ → ℕ) (run_of : Delivery → Option HandlerRun) (lease : Text) (rows : List Delivery)
      → ((d : Delivery) → hangs binding_enabled (run_of d) d ≡ false)
      → All (λ r. is_leased lease r ≡ false) rows
      → All
          (λ r. is_leased lease r ≡ false)
          (tick options binding_enabled now run_of false lease rows)
  unfolding tick claim_due_deliveries reclaim_stale_locks includes
  tick_settles now run_of lease rows settles fresh =
      let free = map (reclaim options (now 0)) rows in
      let ids = due_ids options (now 1) free in
      let unleased : All (λ r. is_leased lease r ≡ false) free = All-map _ _ rows (
        All-mono (λ r. is_leased lease r ≡ false) rows
          (λ r h. reclaim-unleased options (now 0) lease r h) fresh) in
      let last =
        process_all options binding_enabled now run_of 2 (claimed (now 1) lease ids free)
          (map (lock (now 1) lease ids) free) in
      All-mono (IsCovered lease []) last (λ r h. ground arith)
        (process_all-IsCovered now run_of lease settles 2 _ _
          (All-sort_by _ by_seq _ (locked_owned (now 1) lease ids free))
          (locked-IsCovered (now 1) lease ids free unleased))
