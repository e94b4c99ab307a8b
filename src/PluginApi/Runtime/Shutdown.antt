-- ===== src/PluginApi/Runtime/Shutdown.antt =====
-- packages/plugin-api/src/runtime/index.ts: `shutdown`.
use appspine_packages.Base.{
  ℕ, ◌+◌, pos, sub_ℕ, Bool, true, false, none, some, List, [], ◌∷◌, ◌++◌, reverse, if◌then◌else◌,
  get_or, Text, text, say,
}
use appspine_packages.PluginApi.Lifecycle.{
  PluginLifecycleStage, PluginInstanceStatus, EventOutcome, LifecycleEvent, HostShutdownOutcome,
}
use appspine_packages.PluginApi.Runtime.{
  RuntimeInstance, Runner, HookRun, update, with_timeout, passed, timed_out, threw, timeout_message,
  event, record_event,
}

-- The loop's variables.
pub record ShutdownState : Type 0 where
  pub runner : Runner
  pub events : List LifecycleEvent
  pub timed_out : Bool
  pub failed : Bool

pub record ShutdownResult : Type 0 where
  pub outcome : HostShutdownOutcome
  pub events : List LifecycleEvent
  pub runner : Runner

abbrev report : LifecycleEvent → ShutdownState → ShutdownState
report e st = record st { runner = record_event e st.runner; events = st.events ++ e ∷ [] }

abbrev set_stopped : RuntimeInstance → Runner → Runner
set_stopped i r = record r {
  entries = update (λ e. record e { status = PluginInstanceStatus.stopped }) i.key r.entries;
}

shutdown_error : RuntimeInstance → Text → Text → Runner → Runner
shutdown_error i verb message r = record r {
  entries =
      update
        (λ e. record e {
          error = some (record { stage = PluginLifecycleStage.shutdown; message = message });
        })
        i.key r.entries;
  log =
      r.log
      ++ say (text "Plugin \"" ∷ i.key ∷ text "\" shutdown " ∷ verb ∷ text ": " ∷ message ∷ [])
        ∷ [];
}

module _ (now : ℕ → ℕ) (default_shutdown_timeout_ms : ℕ) where
  abbrev pub budget_of : RuntimeInstance → ℕ
  budget_of i = get_or i.shutdown_timeout_ms default_shutdown_timeout_ms

  -- The body of the loop for an instance whose hook is raced against its budget.
  unfoldable pub run_shutdown_hook : RuntimeInstance → HookRun → ShutdownState → ShutdownState
  unfolding shutdown_error
  run_shutdown_hook i hook st =
      let started_at = now st.runner.reads in
      let r = record st.runner { reads = st.runner.reads + 2 } in
      let duration = sub_ℕ (now (st.runner.reads + 1)) started_at in
      let ended =
        λ (outcome : EventOutcome). event i PluginLifecycleStage.shutdown outcome duration in
      elim (with_timeout (budget_of i) hook) [
        | passed ↦ report (ended EventOutcome.ok) (record st { runner = set_stopped i r })
        | timed_out ↦ report (ended EventOutcome.timeout) (record st {
          runner =
              shutdown_error i (text "timed out")
                (timeout_message PluginLifecycleStage.shutdown i.key (budget_of i)) r;
          timed_out = true;
        })
        | threw message ↦
            report (ended EventOutcome.failed)
              (record st { runner = shutdown_error i (text "failed") message r; failed = true })
      ]

  unfoldable pub shutdown_instance : RuntimeInstance → ShutdownState → ShutdownState
  shutdown_instance i st = elim i.hooks.shutdown [
    | none ↦
        report (event i PluginLifecycleStage.shutdown EventOutcome.skipped (pos 0))
          (record st { runner = set_stopped i (record st.runner { reads = st.runner.reads + 1 }) })
    | some hook ↦ run_shutdown_hook i hook st
  ]

  unfoldable pub shutdown_from : List RuntimeInstance → ShutdownState → ShutdownState
  shutdown_from [] st = st
  shutdown_from (i ∷ rest) st = shutdown_from rest (shutdown_instance i st)

  unfoldable pub shutdown : Runner → ShutdownResult
  shutdown r =
      let st =
        shutdown_from (reverse r.started)
          (record { runner = r; events = []; timed_out = false; failed = false }) in
      record {
        outcome =
            if st.timed_out
            then HostShutdownOutcome.with_reported_timeout
            else if st.failed
            then HostShutdownOutcome.with_reported_failure
            else HostShutdownOutcome.completed;
        events = st.events;
        runner = st.runner;
      }
