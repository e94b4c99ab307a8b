-- ===== src/DomainEvents/Claims.antt =====
-- packages/domain-events/src/domain-event-dispatcher.service.ts, `claimDueDeliveries`: which
-- rows it takes.
use appspine_packages.Base.{
  ℕ, zero, suc, ◌≡◌, refl, Bool, true, ◌||◌, not, List, [], ◌∷◌, arith, select, All, All-mono,
  All-both, Text, same_refl, same→eq, includes, Distinct, sort_by,
}
use appspine_packages.DomainEvents.{Delivery, DispatcherOptions}
use appspine_packages.DomainEvents.Dispatcher.{take, ids_of, is_due, by_seq, due_ids}
use appspine_packages.DomainEvents.Settled.{includes-ids-sort_by}

includes-take :
    (n : ℕ) (rows : List Delivery) (k : Text)
    → (not (includes (ids_of (take n rows)) k) || includes (ids_of rows) k) ≡ true
unfolding take includes
includes-take zero rows k = refl
includes-take (suc n) [] k = refl
includes-take (suc n) (row ∷ rows) k = ground (arith, includes-take n rows k)

module _ (p : Delivery → Bool) where
  includes-select :
      (rows : List Delivery) (k : Text)
      → (not (includes (ids_of (select p rows)) k) || includes (ids_of rows) k) ≡ true
  unfolding includes
  includes-select [] k = refl
  includes-select (row ∷ rows) k = ground (arith, includes-select rows k)

  own_listed : (rows : List Delivery) → All (λ r. includes (ids_of rows) r.id ≡ true) rows
  unfolding includes
  own_listed [] = tt
  own_listed (row ∷ rows) =
      (ground (arith, same_refl row.id), All-mono _ rows (λ r h. ground arith) (own_listed rows))

  -- Of rows with different IDs, the ID of a row is among the selected ones only if it is selected.
  selected_once :
      (rows : List Delivery)
      → Distinct (ids_of rows)
      → All (λ r. (not (includes (ids_of (select p rows)) r.id) || p r) ≡ true) rows
  unfolding includes
  selected_once [] d = tt
  selected_once (row ∷ rows) (fresh, d) = (
    ground (arith, includes-select rows row.id),
    All-both _ _ _ rows (λ r once listed. ground (arith, same→eq row.id r.id, once, listed, fresh))
        (selected_once rows d) (own_listed rows),
  )

pub due_ids-is_due :
    (options : DispatcherOptions) (now : ℕ) (rows : List Delivery)
    → Distinct (ids_of rows)
    → All (λ r. (not (includes (due_ids options now rows) r.id) || is_due now r) ≡ true) rows
unfolding due_ids
due_ids-is_due options now rows d =
    let due = select (is_due now) rows in
    All-mono _ rows
      (λ r once. ground (
        arith,
        includes-take options.batch_size (sort_by by_seq due) r.id,
        includes-ids-sort_by by_seq due r.id,
        once,
      ))
      (selected_once (is_due now) rows d)
