-- ===== src/PluginApi/Runtime/Boot.antt =====
-- packages/plugin-api/src/runtime/index.ts: `boot`, `runBootStages` and `advance`.
use appspine_packages.Base.{
  ℕ, ◌+◌, pos, sub_ℕ, Bool, true, false, ◌||◌, not, Option, none, some, List, [], ◌∷◌, ◌++◌, map,
  if◌then◌else◌, is_some, Text, text, say, Dict, get, String,
}
use appspine_packages.PluginApi.Diagnostics.{PluginDiagnostic, diagnostic, sort_diagnostics}
use appspine_packages.PluginApi.Lifecycle.{
  PluginLifecycleStage, plugin_boot_stages, PluginInstanceStatus, EventOutcome, HostBootOutcome,
}
use appspine_packages.PluginApi.Runtime.{
  RuntimeInstance, CatalogEntry, Runner, hook_of, update, with_timeout, passed, timed_out, threw,
  stage_name, timeout_message, event, record_event, initial_entry,
}

-- `this.advance(entry, stage)`
unfoldable pub advance : PluginLifecycleStage → CatalogEntry → CatalogEntry
advance PluginLifecycleStage.validate e = record e { status = PluginInstanceStatus.validated }
advance PluginLifecycleStage.register e = record e { status = PluginInstanceStatus.registered }
advance PluginLifecycleStage.ready e = record e { status = PluginInstanceStatus.ready }
advance PluginLifecycleStage.shutdown e = e

-- `if (stage === 'register') this.started.push(instance)`
unfoldable pub note_started : PluginLifecycleStage → RuntimeInstance → Runner → Runner
note_started PluginLifecycleStage.register i r = record r { started = r.started ++ i ∷ [] }
note_started stage i r = r

-- What `runBootStages` leaves: the runner, the instance's entry, and the failure if there is one.
pub record StagesResult : Type 0 where
  pub runner : Runner
  pub entry : CatalogEntry
  pub failure : Option PluginDiagnostic

stage_diagnostic : String → RuntimeInstance → PluginLifecycleStage → Text → PluginDiagnostic
stage_diagnostic code i stage message =
    diagnostic (text code)
      (say (
        text "\"" ∷ i.key ∷ text "\" failed during " ∷ stage_name stage ∷ text ": " ∷ message ∷ []))
      (record {
        plugin_id = some i.plugin_id;
        instance_id = some i.instance_id;
        path = some (stage_name stage);
        severity = none;
      })

-- The boot loop's variables.
pub record BootState : Type 0 where
  pub runner : Runner
  pub aborted : Bool
  pub degraded : Bool
  pub diagnostics : List PluginDiagnostic

pub record HostCatalog : Type 0 where
  pub outcome : HostBootOutcome
  pub entries : List CatalogEntry
  pub by_key : Dict CatalogEntry
  pub diagnostics : List PluginDiagnostic

pub data BootResult : Type 0 where
  refused : Text → BootResult
  finished : HostCatalog → Runner → BootResult

unfoldable pub degraded_warning : RuntimeInstance → PluginDiagnostic → Text
degraded_warning i d = say (
    text "Plugin \""
    ∷ i.key
    ∷ text "\" is degraded: "
    ∷ d.message
    ∷ text ". Readiness and catalog report degraded; this is not a silent failure."
    ∷ [])

-- What follows a failure: a required instance, or one with no policy, aborts the boot.
unfoldable pub after_stages : RuntimeInstance → StagesResult → BootState → BootState
after_stages i result st =
    let r = result.runner in
    let written = λ (status : PluginInstanceStatus).
      update (λ old. record result.entry { status = status }) i.key r.entries in
    elim result.failure [
      | none ↦ record st {
        runner = record r { entries = update (λ old. result.entry) i.key r.entries };
      }
      | some d ↦
          if i.required || not (is_some i.optional_failure_policy)
          then record st {
            runner = record r { entries = written PluginInstanceStatus.failed };
            aborted = true;
            diagnostics = st.diagnostics ++ d ∷ [];
          }
          else record st {
            runner = record r {
              entries = written PluginInstanceStatus.degraded;
              log = r.log ++ degraded_warning i d ∷ [];
            };
            degraded = true;
            diagnostics = st.diagnostics ++ d ∷ [];
          }
    ]

unfoldable pub outcome_of : BootState → HostBootOutcome
outcome_of st =
    if st.aborted
    then HostBootOutcome.boot_aborted
    else if st.degraded
    then HostBootOutcome.degraded_ready
    else HostBootOutcome.ready

-- `now n` is the n-th reading of the injected clock.
module _ (now : ℕ → ℕ) (stage_timeout_ms : ℕ) where
  -- The `catch` block of `runBootStages`, for an error with this message.
  unfoldable pub fail_stage :
      RuntimeInstance
      → PluginLifecycleStage
      → EventOutcome
      → String
      → Text
      → ℕ
      → ℕ
      → Runner
      → CatalogEntry
      → StagesResult
  unfolding stage_diagnostic
  fail_stage i stage outcome code message started_at stage_started_at r e = record {
    runner =
        record_event (event i stage outcome (sub_ℕ (now r.reads) stage_started_at))
          (record r { reads = r.reads + 2 });
    entry = record e {
      error = some (record { stage = stage; message = message });
      startup_ms = sub_ℕ (now (r.reads + 1)) started_at;
    };
    failure = some (stage_diagnostic code i stage message);
  }

  -- The rest of the loop over the stages.
  unfoldable pub run_stages :
      RuntimeInstance → ℕ → List PluginLifecycleStage → Runner → CatalogEntry → StagesResult
  run_stages i started_at [] r e = record {
    runner = record r { reads = r.reads + 1 };
    entry = record e { startup_ms = sub_ℕ (now r.reads) started_at };
    failure = none;
  }
  run_stages i started_at (stage ∷ rest) r e =
      let stage_started_at = now r.reads in
      let r' = record r { reads = r.reads + 1 } in
      elim (hook_of i.hooks stage) [
        | none ↦
            run_stages i started_at rest
              (note_started stage i (record_event (event i stage EventOutcome.skipped (pos 0)) r'))
              (advance stage e)
        | some hook ↦ elim (with_timeout stage_timeout_ms hook) [
          | passed ↦
              run_stages i started_at rest
                (note_started stage i (
                  record_event
                    (event i stage EventOutcome.ok (sub_ℕ (now r'.reads) stage_started_at))
                    (record r' { reads = r'.reads + 1 })))
                (advance stage e)
          | timed_out ↦
              fail_stage i stage EventOutcome.timeout "lifecycle-stage-timeout"
                (timeout_message stage i.key stage_timeout_ms) started_at stage_started_at r' e
          | threw message ↦
              fail_stage i stage EventOutcome.failed "lifecycle-stage-failed" message started_at
                stage_started_at r' e
        ]
      ]

  unfoldable pub run_boot_stages : RuntimeInstance → Runner → CatalogEntry → StagesResult
  unfolding plugin_boot_stages
  run_boot_stages i r e =
      run_stages i (now r.reads) plugin_boot_stages (record r { reads = r.reads + 1 }) e

  -- The body of the boot loop. The constructor made an entry for every instance.
  unfoldable pub boot_instance : RuntimeInstance → BootState → BootState
  boot_instance i st =
      let r = st.runner in
      let entry : CatalogEntry = elim (get i.key r.entries) [
        | some e ↦ e
        | none ↦ initial_entry i
      ] in
      if st.aborted
      then record st {
        runner = record r {
          entries =
              update (λ e. record e { status = PluginInstanceStatus.not_reached }) i.key r.entries;
        };
      }
      else after_stages i (run_boot_stages i r entry) st

  unfoldable pub boot_from : List RuntimeInstance → BootState → BootState
  boot_from [] st = st
  boot_from (i ∷ rest) st = boot_from rest (boot_instance i st)

  unfoldable pub boot : Runner → BootResult
  boot r =
      let st = boot_from r.instances (record {
        runner = record r { booted = true };
        aborted = false;
        degraded = false;
        diagnostics = [];
      }) in
      if r.booted
      then refused (text "boot() may only be called once")
      else finished
          (record {
            outcome = outcome_of st;
            entries = map (λ e. e.1) st.runner.entries;
            by_key = st.runner.entries;
            diagnostics = sort_diagnostics st.diagnostics;
          })
          st.runner
