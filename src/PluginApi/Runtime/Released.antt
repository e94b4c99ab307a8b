-- ===== src/PluginApi/Runtime/Released.antt =====
-- packages/plugin-api/src/runtime/index.ts: what `shutdown` visits and reports.
use appspine_packages.Base.{
  ℕ, ◌≡◌, refl, ◌∙◌, sym, ap, inl, inr, Bool, true, false, ◌||◌, none, some, List, [], ◌∷◌, ◌++◌,
  map, arith, if◌then◌else◌, any, Option-cases, Text,
}
use mathlib.Core.List.{append_assoc, append-nil}
use appspine_packages.PluginApi.Lifecycle.{EventOutcome}
use appspine_packages.PluginApi.Runtime.{
  RuntimeInstance, Runner, HookRun, Attempt, with_timeout, passed, timed_out, threw, event,
}
use appspine_packages.Base.{reverse, subst}
use appspine_packages.PluginApi.Lifecycle.{LifecycleEvent, HostShutdownOutcome}
use appspine_packages.PluginApi.Runtime.Shutdown.{
  ShutdownState, budget_of, run_shutdown_hook, shutdown_instance, shutdown_from, shutdown,
}

abbrev pub is_timeout : EventOutcome → Bool
is_timeout EventOutcome.timeout = true
is_timeout _ = false

abbrev pub is_failure : EventOutcome → Bool
is_failure EventOutcome.failed = true
is_failure _ = false

unfoldable pub release_by : Attempt → EventOutcome
release_by passed = EventOutcome.ok
release_by timed_out = EventOutcome.timeout
release_by (threw message) = EventOutcome.failed

-- How an instance's release ends, read off its hook alone.
unfoldable pub release_of : ℕ → RuntimeInstance → EventOutcome
release_of budget i = elim i.hooks.shutdown [
  | none ↦ EventOutcome.skipped
  | some hook ↦ release_by (with_timeout budget hook)
]

release_of-some :
    (budget : ℕ) (i : RuntimeInstance) (hook : HookRun)
    → i.hooks.shutdown ≡ some hook
    → release_of budget i ≡ release_by (with_timeout budget hook)
unfolding release_of
release_of-some budget i hook h = rw h refl

unfoldable pub shutdown_spec : List (Text × EventOutcome) → HostShutdownOutcome
shutdown_spec reports =
    if any (λ e. is_timeout e.1) reports
    then HostShutdownOutcome.with_reported_timeout
    else if any (λ e. is_failure e.1) reports
    then HostShutdownOutcome.with_reported_failure
    else HostShutdownOutcome.completed

abbrev pub reports_of : List LifecycleEvent → List (Text × EventOutcome)
reports_of events = map (λ e. (e.key, e.outcome)) events

flag :
    (old new : Bool) (p : EventOutcome → Bool) (said meant : EventOutcome) (later : Bool)
    → new ≡ (old || p said)
    → said ≡ meant
    → (new || later) ≡ (old || (p meant || later))
flag old new p said meant later h k = ground arith

module _ (now : ℕ → ℕ) (default_budget : ℕ) where
  abbrev pub releases : List RuntimeInstance → List (Text × EventOutcome)
  releases instances = map (λ i. (i.key, release_of (budget_of now default_budget i) i)) instances

  record Visit (i : RuntimeInstance) (st st' : ShutdownState) : Type 0 where
    event : LifecycleEvent
    key : event.key ≡ i.key
    outcome : event.outcome ≡ release_of (budget_of now default_budget i) i
    events : st'.events ≡ st.events ++ event ∷ []
    recorded : st'.runner.recorded ≡ st.runner.recorded ++ event ∷ []
    timed_out : st'.timed_out ≡ (st.timed_out || is_timeout event.outcome)
    failed : st'.failed ≡ (st.failed || is_failure event.outcome)

  run_shutdown_hook-Visit :
      (i : RuntimeInstance) (hook : HookRun) (st : ShutdownState)
      → i.hooks.shutdown ≡ some hook
      → (a : Attempt) → with_timeout (budget_of now default_budget i) hook ≡ a
      → Visit i st (run_shutdown_hook now default_budget i hook st)
  unfolding run_shutdown_hook release_by event
  run_shutdown_hook-Visit i hook st h passed e =
      rw (e, run_shutdown_hook)
        (record {
          event = _;
          key = refl;
          outcome = sym (release_of-some _ i hook h ∙ ap release_by e);
          events = refl;
          recorded = refl;
          timed_out = ground arith;
          failed = ground arith;
        })
  run_shutdown_hook-Visit i hook st h timed_out e =
      rw (e, run_shutdown_hook)
        (record {
          event = _;
          key = refl;
          outcome = sym (release_of-some _ i hook h ∙ ap release_by e);
          events = refl;
          recorded = refl;
          timed_out = ground arith;
          failed = ground arith;
        })
  run_shutdown_hook-Visit i hook st h (threw message) e =
      rw (e, run_shutdown_hook)
        (record {
          event = _;
          key = refl;
          outcome = sym (release_of-some _ i hook h ∙ ap release_by e);
          events = refl;
          recorded = refl;
          timed_out = ground arith;
          failed = ground arith;
        })

  shutdown_instance-some :
      (i : RuntimeInstance) (hook : HookRun) (st : ShutdownState)
      → i.hooks.shutdown ≡ some hook
      → shutdown_instance now default_budget i st ≡ run_shutdown_hook now default_budget i hook st
  unfolding shutdown_instance
  shutdown_instance-some i hook st h = rw h refl

  visit :
      (i : RuntimeInstance) (st : ShutdownState)
      → Visit i st (shutdown_instance now default_budget i st)
  unfolding shutdown_instance release_of event
  visit i st = elim (Option-cases i.hooks.shutdown) [
    | inl h ↦ rw h (record {
      event = _;
      key = refl;
      outcome = refl;
      events = refl;
      recorded = refl;
      timed_out = ground arith;
      failed = ground arith;
    })
    | inr (hook, h) ↦
        subst (Visit i st) (sym (shutdown_instance-some i hook st h))
          (run_shutdown_hook-Visit i hook st h _ refl)
  ]

  -- What the rest of the loop adds to its variables.
  record Visits (rest : List RuntimeInstance) (st st' : ShutdownState) : Type 0 where
    new : List LifecycleEvent
    reported : reports_of new ≡ releases rest
    events : st'.events ≡ st.events ++ new
    recorded : st'.runner.recorded ≡ st.runner.recorded ++ new
    timed_out : st'.timed_out ≡ (st.timed_out || any (λ e. is_timeout e.1) (releases rest))
    failed : st'.failed ≡ (st.failed || any (λ e. is_failure e.1) (releases rest))

  visits :
      (rest : List RuntimeInstance) (st : ShutdownState)
      → Visits rest st (shutdown_from now default_budget rest st)
  unfolding shutdown_from
  visits [] st = record {
    new = [];
    reported = refl;
    events = sym (append-nil _);
    recorded = sym (append-nil _);
    timed_out = ground arith;
    failed = ground arith;
  }
  visits (i ∷ rest) st =
      let v = visit i st in
      let vs = visits rest (shutdown_instance now default_budget i st) in
      record {
        new = v.event ∷ vs.new;
        reported = λ j. (v.key j, v.outcome j) ∷ vs.reported j;
        events =
            vs.events
            ∙ ap (λ l. l ++ vs.new) v.events
            ∙ (append_assoc st.events (v.event ∷ []) vs.new);
        recorded =
            vs.recorded
            ∙ ap (λ l. l ++ vs.new) v.recorded
            ∙ (append_assoc st.runner.recorded (v.event ∷ []) vs.new);
        timed_out = vs.timed_out ∙ flag st.timed_out _ is_timeout _ _ _ v.timed_out v.outcome;
        failed = vs.failed ∙ flag st.failed _ is_failure _ _ _ v.failed v.outcome;
      }

-- Shutting down visits the instances that own resources once each, the last started first; it reports
-- for each how its release ended, goes on after a timeout or a failure, records every report beside
-- those of the boot, and its outcome is the worst of the reports, a timeout before a failure.
pub shutdown_lem :
    (now : ℕ → ℕ) (default_budget : ℕ) (r : Runner)
    → (map (λ e. (e.key, e.outcome)) (shutdown now default_budget r).events
        ≡ releases now default_budget (reverse r.started))
      × ((shutdown now default_budget r).outcome
          ≡ shutdown_spec (releases now default_budget (reverse r.started)))
      × ((shutdown now default_budget r).runner.recorded
          ≡ r.recorded ++ (shutdown now default_budget r).events)
unfolding shutdown shutdown_spec
shutdown_lem now default_budget r =
    let vs = visits now default_budget (reverse r.started) _ in
    (
      rw vs.events vs.reported,
      rw (vs.timed_out, vs.failed) refl,
      vs.recorded ∙ ap (λ l. r.recorded ++ l) (sym vs.events),
    )
