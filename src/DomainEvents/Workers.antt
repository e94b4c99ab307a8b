-- ===== src/DomainEvents/Workers.antt =====
-- packages/domain-events/src/domain-event-dispatcher.service.ts: several dispatchers at work
-- on one table of deliveries, with the steps of their ticks in any order.
use appspine_packages.Base.{
  ℕ, zero, suc, ◌≡◌, inl, inr, true, ◌||◌, ◌&&◌, not, Option, none, some, List, [], ◌∷◌, ◌++◌, map,
  arith, ltb, select, All, All-mono, All-append, Bool-cases, Text, includes, Distinct,
}
use appspine_packages.DomainEvents.{Delivery, HandlerRun, BindingLookup, DispatcherOptions}
use appspine_packages.DomainEvents.Dispatcher.{
  ids_of, reclaim_stale_locks, is_due, by_seq, due_ids, lock, claim_due_deliveries,
  process_delivery,
}
use appspine_packages.DomainEvents.Identity.{
  reclaim_stale_locks-ids, map-lock-ids, process_delivery-ids,
}
use appspine_packages.DomainEvents.Claims.{due_ids-is_due}
use appspine_packages.DomainEvents.Settled.{All-map, All-sort_by}
use appspine_packages.DomainEvents.Attempts.{
  is_sound, IsSound, IsHeld, reclaim-IsSound, process_delivery-IsSound,
}

-- The table, and the copies of deliveries that workers have claimed and not yet processed.
pub record World : Type 0 where
  pub rows : List Delivery
  pub held : List Delivery

-- A step of some worker: it reclaims stale locks, claims what is due, or processes the delivery that
-- stands at this place among those held.
pub data Action : Type 0 where
  reclaims : ℕ → Action
  claims : ℕ → Text → Action
  processes : ℕ → ℕ → Option HandlerRun → Action

pub record Picked : Type 0 where
  pub one : Delivery
  pub others : List Delivery

unfoldable pub put_back : Delivery → Option Picked → Option Picked
put_back d none = none
put_back d (some p) = some (record { one = p.one; others = d ∷ p.others })

unfoldable pub pick : ℕ → List Delivery → Option Picked
pick n [] = none
pick zero (d ∷ ds) = some (record { one = d; others = ds })
pick (suc n) (d ∷ ds) = put_back d (pick n ds)

module _ (options : DispatcherOptions) (binding_enabled : Text → BindingLookup) where
  unfoldable pub process_picked : ℕ → Option HandlerRun → Option Picked → World → World
  process_picked now run none w = w
  process_picked now run (some p) w = record {
    rows = process_delivery options binding_enabled now run p.one w.rows;
    held = p.others;
  }

  unfoldable pub perform : Action → World → World
  perform (reclaims now) w = record w { rows = reclaim_stale_locks options now w.rows }
  perform (claims now lease) w =
      let claim = claim_due_deliveries options now lease w.rows in
      record { rows = claim.rows; held = w.held ++ claim.claimed }
  perform (processes n now run) w = process_picked now run (pick n w.held) w

  unfoldable pub perform_all : List Action → World → World
  perform_all [] w = w
  perform_all (a ∷ rest) w = perform_all rest (perform a w)

  record IsSane (w : World) : Type 0 where
    once : Distinct (ids_of w.rows)
    sound : All (IsSound options) w.rows
    held : All (IsHeld options) w.held

  abbrev IsFit : Option Picked → Type 0
  IsFit none = Unit
  IsFit (some p) = IsHeld options p.one × All (IsHeld options) p.others

  put_back-IsFit :
      (d : Delivery) (o : Option Picked) → IsHeld options d → IsFit o → IsFit (put_back d o)
  unfolding put_back
  put_back-IsFit d none here h = tt
  put_back-IsFit d (some p) here (one, h) = (one, (here, h))

  pick-IsFit : (n : ℕ) (ds : List Delivery) → All (IsHeld options) ds → IsFit (pick n ds)
  unfolding pick
  pick-IsFit n [] h = tt
  pick-IsFit zero (d ∷ ds) h = h
  pick-IsFit (suc n) (d ∷ ds) (here, h) = put_back-IsFit d (pick n ds) here (pick-IsFit n ds h)

  All-select-IsHeld :
      (ids : List Text) (rows : List Delivery)
      → All (λ r. (not (includes ids r.id) || ltb r.attempts options.max_attempts) ≡ true) rows
      → All (IsHeld options) (select (λ r. includes ids r.id) rows)
  All-select-IsHeld ids [] h = tt
  All-select-IsHeld ids (row ∷ rows) (here, h) = elim (Bool-cases (includes ids row.id)) [
    | inl e ↦ simp e (ground arith, All-select-IsHeld ids rows h)
    | inr e ↦ simp e (All-select-IsHeld ids rows h)
  ]

  locked_sound :
      (now : ℕ) (lease : Text) (ids : List Text) (rows : List Delivery)
      → All (IsSound options) rows
      → All (λ r. (not (includes ids r.id) || is_due now r) ≡ true) rows
      → All
          (λ r.
            (is_sound options.max_attempts r
              && (not (includes ids r.id) || ltb r.attempts options.max_attempts))
            ≡ true)
          (map (lock now lease ids) rows)
  unfolding lock is_sound is_due
  locked_sound now lease ids [] s d = tt
  locked_sound now lease ids (row ∷ rows) (here, s) (due, d) =
      (ground arith, locked_sound now lease ids rows s d)

  process_picked-IsSane :
      (now : ℕ) (run : Option HandlerRun) (o : Option Picked) (w : World)
      → IsFit o
      → IsSane w
      → IsSane (process_picked now run o w)
  unfolding process_picked
  process_picked-IsSane now run none w h sane = sane
  process_picked-IsSane now run (some p) w (one, h) sane = record {
    once = rw (process_delivery-ids options now p.one binding_enabled run w.rows) sane.once;
    sound = process_delivery-IsSound options binding_enabled now run p.one w.rows one sane.sound;
    held = h;
  }

  claims-IsSane :
      (now : ℕ) (lease : Text) (w : World) → IsSane w → IsSane (perform (claims now lease) w)
  unfolding perform claim_due_deliveries
  claims-IsSane now lease w sane =
      let ids = due_ids options now w.rows in
      let locked = map (lock now lease ids) w.rows in
      let facts =
        locked_sound now lease ids w.rows sane.sound
          (due_ids-is_due options now w.rows sane.once) in
      record {
        once = rw (map-lock-ids now lease ids w.rows) sane.once;
        sound = All-mono _ locked (λ r h. ground arith) facts;
        held = All-append _ w.held _ sane.held (
            All-sort_by _ by_seq _
              (All-select-IsHeld ids locked (All-mono _ locked (λ r h. ground arith) facts)));
      }

  perform-IsSane : (a : Action) (w : World) → IsSane w → IsSane (perform a w)
  unfolding perform reclaim_stale_locks
  perform-IsSane (reclaims now) w sane = record {
    once = rw (reclaim_stale_locks-ids options now w.rows) sane.once;
    sound =
        All-map _ _ w.rows
          (All-mono (IsSound options) w.rows (λ r h. reclaim-IsSound options now r h) sane.sound);
    held = sane.held;
  }
  perform-IsSane (claims now lease) w sane = claims-IsSane now lease w sane
  perform-IsSane (processes n now run) w sane =
      process_picked-IsSane now run (pick n w.held) w (pick-IsFit n w.held sane.held) sane

  perform_all-IsSane :
      (actions : List Action) (w : World) → IsSane w → IsSane (perform_all actions w)
  unfolding perform_all
  perform_all-IsSane [] w sane = sane
  perform_all-IsSane (a ∷ rest) w sane = perform_all-IsSane rest _ (perform-IsSane a w sane)

  -- Whatever workers do in turn with a sound table of deliveries with different IDs, from a moment at
  -- which none is at work, the table stays sound: no delivery has more attempts than the maximum, one
  -- that is pending or processing has attempts left, and exactly those processing are locked.
  pub perform_all-IsSound :
      (actions : List Action) (rows : List Delivery)
      → Distinct (ids_of rows)
      → All (λ r. is_sound options.max_attempts r ≡ true) rows
      → All
          (λ r. is_sound options.max_attempts r ≡ true)
          (perform_all actions (record { rows = rows; held = [] })).rows
  perform_all-IsSound actions rows once sound =
      (perform_all-IsSane actions _ (record { once = once; sound = sound; held = tt })).sound
