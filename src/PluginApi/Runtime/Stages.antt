-- ===== src/PluginApi/Runtime/Stages.antt =====
-- packages/plugin-api/src/runtime/index.ts: the loop of `runBootStages` over the stages of one instance.
use appspine_packages.Base.{
  String, ℕ, ◌+◌, pos, sub_ℕ, ◌≡◌, refl, ◌∙◌, sym, ap, ◌⊎◌, inl, inr, true, false, not, some, List,
  [], ◌∷◌, ◌++◌, if◌then◌else◌, is_some, Bool-cases, Option-cases, Text,
}
use mathlib.Core.List.{append_assoc, append-nil}
use appspine_packages.PluginApi.Lifecycle.{PluginLifecycleStage, EventOutcome}
use appspine_packages.PluginApi.Runtime.{
  RuntimeInstance, CatalogEntry, Runner, HookRun, hook_of, Attempt, with_timeout, passed, timed_out,
  threw, event, record_event, timeout_message,
}
use appspine_packages.PluginApi.Runtime.Boot.{
  advance, note_started, StagesResult, fail_stage, run_stages,
}
use appspine_packages.PluginApi.Runtime.Verdicts.{is_register, stage_passes, stages_pass, registers}

-- The status that passing all of the stages gives.
abbrev pub final_status : List PluginLifecycleStage → CatalogEntry → CatalogEntry
final_status [] e = e
final_status (stage ∷ rest) e = final_status rest (advance stage e)

pub record StagesFacts (budget : ℕ) (i : RuntimeInstance) (stages : List PluginLifecycleStage)
    (r : Runner) (e : CatalogEntry) (result : StagesResult) : Type 0 where
  pub entries : result.runner.entries ≡ r.entries
  pub booted : result.runner.booted ≡ r.booted
  pub key : result.entry.key ≡ e.key
  pub failure : is_some result.failure ≡ not (stages_pass budget i stages)
  pub status : is_some result.failure ≡ false → result.entry.status ≡ (final_status stages e).status
  pub started : result.runner.started ≡ r.started ++ registers budget i stages

module _ (now : ℕ → ℕ) (budget : ℕ) (i : RuntimeInstance) (started_at : ℕ) where
  note_started-facts :
      (stage : PluginLifecycleStage) (r : Runner)
      → ((note_started stage i r).entries ≡ r.entries)
        × ((note_started stage i r).booted ≡ r.booted)
        × ((note_started stage i r).started
            ≡ r.started ++ (if is_register stage then i ∷ [] else []))
  unfolding note_started
  note_started-facts PluginLifecycleStage.register r = (refl, refl, refl)
  note_started-facts PluginLifecycleStage.validate r = (refl, refl, sym (append-nil r.started))
  note_started-facts PluginLifecycleStage.ready r = (refl, refl, sym (append-nil r.started))
  note_started-facts PluginLifecycleStage.shutdown r = (refl, refl, sym (append-nil r.started))

  advance-key : (stage : PluginLifecycleStage) (e : CatalogEntry) → (advance stage e).key ≡ e.key
  unfolding advance
  advance-key PluginLifecycleStage.validate e = refl
  advance-key _ e = refl

  joined :
      (stage : PluginLifecycleStage) (rest : List PluginLifecycleStage) (r r' : Runner)
      (result : StagesResult)
      → r'.started ≡ r.started
      → (note_started stage i r').started ≡ r'.started ++ (if is_register stage then i ∷ [] else [])
      → result.runner.started ≡ (note_started stage i r').started ++ registers budget i rest
      → result.runner.started
        ≡ r.started
          ++ (if is_register stage then i ∷ registers budget i rest else registers budget i rest)
  joined stage rest r r' result p q h = elim (Bool-cases (is_register stage)) [
    | inl e ↦ rw e (
        h
        ∙ ap (λ l. l ++ registers budget i rest) (q ∙ rw (e, p) refl)
        ∙ append_assoc r.started (i ∷ []) (registers budget i rest))
    | inr e ↦
        rw e (h ∙ ap (λ l. l ++ registers budget i rest) (q ∙ rw (e, p) (append-nil r.started)))
  ]

  -- A stage that passes, in front of the others.
  passing-facts :
      (stage : PluginLifecycleStage) (rest : List PluginLifecycleStage) (r r' : Runner)
      (e : CatalogEntry) (result : StagesResult)
      → r'.entries ≡ r.entries
      → r'.booted ≡ r.booted
      → r'.started ≡ r.started
      → stage_passes budget i stage ≡ true
      → StagesFacts budget i rest (note_started stage i r') (advance stage e) result
      → StagesFacts budget i (stage ∷ rest) r e result
  unfolding stages_pass registers
  passing-facts stage rest r r' e result entries booted started pass f =
      let (n1, n2, n3) = note_started-facts stage r' in
      record {
        entries = f.entries ∙ n1 ∙ entries;
        booted = f.booted ∙ n2 ∙ booted;
        key = f.key ∙ advance-key stage e;
        failure = rw pass f.failure;
        status = f.status;
        started = rw pass (joined stage rest r r' result started n3 f.started);
      }

  -- One stage either passes, and the loop goes on, or ends the loop.
  abbrev GoesOn : PluginLifecycleStage → List PluginLifecycleStage → Runner → CatalogEntry → Type 0
  GoesOn stage rest r e =
      (r' : Runner) × (stage_passes budget i stage ≡ true)
      × (r'.entries ≡ r.entries)
      × (r'.booted ≡ r.booted)
      × (r'.started ≡ r.started)
      × (run_stages now budget i started_at (stage ∷ rest) r e
          ≡ run_stages now budget i started_at rest (note_started stage i r') (advance stage e))

  abbrev Ends : PluginLifecycleStage → List PluginLifecycleStage → Runner → CatalogEntry → Type 0
  Ends stage rest r e =
      (outcome : EventOutcome) × (code : String) × (message : Text) × (stage_passes budget i stage
        ≡ false)
      × (run_stages now budget i started_at (stage ∷ rest) r e
          ≡ fail_stage now budget i stage outcome code message started_at (now r.reads)
              (record r { reads = r.reads + 1 }) e)

  attempt_step :
      (stage : PluginLifecycleStage) (rest : List PluginLifecycleStage) (r : Runner)
      (e : CatalogEntry) (hook : HookRun)
      → hook_of i.hooks stage ≡ some hook
      → (a : Attempt) → with_timeout budget hook ≡ a
      → GoesOn stage rest r e ⊎ Ends stage rest r e
  unfolding run_stages stage_passes
  attempt_step stage rest r e hook present passed h = inl (
    record_event (event i stage EventOutcome.ok (sub_ℕ (now (r.reads + 1)) (now r.reads)))
        (record r { reads = r.reads + 1 + 1 }),
    rw (present, stage_passes) (rw h refl),
    refl,
    refl,
    refl,
    rw (present, run_stages) (rw (h, run_stages) refl),
  )
  attempt_step stage rest r e hook present timed_out h = inr (
    EventOutcome.timeout,
    "lifecycle-stage-timeout",
    timeout_message stage i.key budget,
    rw (present, stage_passes) (rw h refl),
    rw (present, run_stages) (rw (h, run_stages) refl),
  )
  attempt_step stage rest r e hook present (threw message) h = inr (
    EventOutcome.failed,
    "lifecycle-stage-failed",
    message,
    rw (present, stage_passes) (rw h refl),
    rw (present, run_stages) (rw (h, run_stages) refl),
  )

  stage_step :
      (stage : PluginLifecycleStage) (rest : List PluginLifecycleStage) (r : Runner)
      (e : CatalogEntry)
      → GoesOn stage rest r e ⊎ Ends stage rest r e
  unfolding run_stages stage_passes
  stage_step stage rest r e = elim (Option-cases (hook_of i.hooks stage)) [
    | inl absent ↦ inl (
      record_event (event i stage EventOutcome.skipped (pos 0)) (record r { reads = r.reads + 1 }),
      rw (absent, stage_passes) refl,
      refl,
      refl,
      refl,
      rw (absent, run_stages) refl,
    )
    | inr (hook, present) ↦ attempt_step stage rest r e hook present (with_timeout budget hook) refl
  ]

  run_stages-nil :
      (r : Runner) (e : CatalogEntry)
      → StagesFacts budget i [] r e (run_stages now budget i started_at [] r e)
  unfolding run_stages stages_pass registers
  run_stages-nil r e = record {
    entries = refl;
    booted = refl;
    key = refl;
    failure = refl;
    status = λ h. refl;
    started = sym (append-nil r.started);
  }

  ending-facts :
      (stage : PluginLifecycleStage) (rest : List PluginLifecycleStage) (r : Runner)
      (e : CatalogEntry)
      → Ends stage rest r e
      → StagesFacts budget i
          (stage ∷ rest)
          r
          e
          (run_stages now budget i started_at (stage ∷ rest) r e)
  unfolding stages_pass registers fail_stage
  ending-facts stage rest r e (outcome, code, message, fails, same_result) =
      rw same_result (record {
        entries = refl;
        booted = refl;
        key = refl;
        failure = rw fails refl;
        status = λ h. cc;
        started = rw fails (sym (append-nil r.started));
      })

  pub run_stages-facts :
      (stages : List PluginLifecycleStage) (r : Runner) (e : CatalogEntry)
      → StagesFacts budget i stages r e (run_stages now budget i started_at stages r e)
  run_stages-facts [] r e = run_stages-nil r e
  run_stages-facts (stage ∷ rest) r e = elim (stage_step stage rest r e) [
    | inl (r', pass, entries, booted, started, next) ↦ rw next (
        passing-facts stage rest r r' e _ entries booted started pass
          (run_stages-facts rest (note_started stage i r') (advance stage e)))
    | inr ends ↦ ending-facts stage rest r e ends
  ]
