-- ===== src/PluginApi/Runtime/Booted.antt =====
-- packages/plugin-api/src/runtime/index.ts: `boot`, compared with the verdicts.
use appspine_packages.Base.{
  ℕ, ◌+◌, ◌≡◌, refl, ◌∙◌, sym, ap, inl, inr, Bool, true, false, ◌||◌, not, some, List, [], ◌∷◌,
  ◌++◌, map, arith, if◌then◌else◌, is_some, any, Bool-cases, Option-cases, Text, includes, Dict,
  keys, get, Distinct,
}
use mathlib.Core.List.{append_assoc, append-nil, map-append, map-map}
use appspine_packages.PluginApi.Diagnostics.{sort_diagnostics}
use appspine_packages.PluginApi.Lifecycle.{plugin_boot_stages, PluginInstanceStatus}
use appspine_packages.PluginApi.Runtime.{
  RuntimeInstance, CatalogEntry, Runner, update, initial_entry, new_runner,
}
use appspine_packages.PluginApi.Runtime.Boot.{
  advance, StagesResult, BootState, HostCatalog, finished, refused, run_boot_stages, after_stages,
  boot_instance, boot_from, outcome_of, boot,
}
use appspine_packages.PluginApi.Runtime.Verdicts.{
  is_failed, is_degraded, registers, verdict_of, verdicts, claimants, outcome_spec,
}
use appspine_packages.Base.{text}
use appspine_packages.PluginApi.Runtime.Stages.{StagesFacts, run_stages-facts, final_status}
use appspine_packages.PluginApi.Runtime.Entries.{
  fresh, runtime_keys, get-middle, update-middle, IsApart, IsApart-head, IsApart-tail,
  new_runner-entries,
}

final_ready :
    (e : CatalogEntry) → (final_status plugin_boot_stages e).status ≡ PluginInstanceStatus.ready
unfolding plugin_boot_stages advance
final_ready e = refl

not-eq-false : (a b : Bool) → a ≡ not b → a ≡ false → b ≡ true
not-eq-false a b h k = ground arith

not-eq-true : (a b : Bool) → a ≡ not b → a ≡ true → b ≡ false
not-eq-true a b h k = ground arith

or_assoc : (a b c : Bool) → ((a || b) || c) ≡ (a || (b || c))
or_assoc a b c = ground arith

abbrev pub statuses : Dict CatalogEntry → List (Text × PluginInstanceStatus)
statuses entries = map (λ e. (e.1.key, e.1.status)) entries

module _ (now : ℕ → ℕ) (budget : ℕ) where
  abbrev settle : Bool → RuntimeInstance → PluginInstanceStatus
  settle aborted i = if aborted then PluginInstanceStatus.not_reached else verdict_of budget i

  -- What one turn of the boot loop does to its variables.
  record Turn (i : RuntimeInstance) (pre post : Dict CatalogEntry) (st st' : BootState)
      : Type 0 where
    entry : CatalogEntry
    entries : st'.runner.entries ≡ pre ++ (i.key, entry) ∷ post
    key : entry.key ≡ i.key
    status : entry.status ≡ settle st.aborted i
    aborted : st'.aborted ≡ (st.aborted || is_failed (settle st.aborted i))
    degraded : st'.degraded ≡ (st.degraded || is_degraded (settle st.aborted i))
    booted : st'.runner.booted ≡ st.runner.booted
    started :
        st'.runner.started
        ≡ st.runner.started ++ (if st.aborted then [] else registers budget i plugin_boot_stages)

  module _ (i : RuntimeInstance) (pre post : Dict CatalogEntry) (st : BootState)
      (here : st.runner.entries ≡ pre ++ (i.key, initial_entry i) ∷ post)
      (new : includes (keys pre) i.key ≡ false) where
    skipped-Turn : st.aborted ≡ true → Turn i pre post st (boot_instance now budget i st)
    unfolding boot_instance initial_entry
    skipped-Turn e = rw e (record {
      entry = record (initial_entry i) { status = PluginInstanceStatus.not_reached };
      entries = rw here (update-middle _ pre post i.key (initial_entry i) new);
      key = refl;
      status = refl;
      aborted = refl;
      degraded = ground arith;
      booted = refl;
      started = sym (append-nil _);
    })

    after_stages-Turn :
        (r : Runner) (result : StagesResult)
        → r.entries ≡ st.runner.entries
        → r.started ≡ st.runner.started
        → r.booted ≡ st.runner.booted
        → st.aborted ≡ false
        → StagesFacts budget i plugin_boot_stages r (initial_entry i) result
        → Turn i pre post st (after_stages i result st)
    unfolding after_stages verdict_of initial_entry
    after_stages-Turn r result entries started booted e f =
        let written : (g : CatalogEntry → CatalogEntry)
            → update g i.key result.runner.entries ≡ pre ++ (i.key, g (initial_entry i)) ∷ post =
          λ g.
            ap (update g i.key) (f.entries ∙ entries ∙ here)
            ∙ update-middle g pre post i.key (initial_entry i) new in
        let claimed : result.runner.started
            ≡ st.runner.started
              ++ (if st.aborted then [] else registers budget i plugin_boot_stages) =
          f.started ∙ rw (started, e) refl in
        elim (Option-cases result.failure) [
          | inl none_failed ↦
              let passes = not-eq-false _ _ f.failure (rw none_failed refl) in
              rw none_failed (record {
                entry = result.entry;
                entries = written (λ old. result.entry);
                key = f.key;
                status =
                    f.status (rw none_failed refl)
                    ∙ final_ready (initial_entry i)
                    ∙ rw (e, passes) refl;
                aborted = rw (e, passes) refl;
                degraded = rw (e, passes) (ground arith);
                booted = f.booted ∙ booted;
                started = claimed;
              })
          | inr (d, failed) ↦
              let stops = not-eq-true _ _ f.failure (rw failed refl) in
              elim (Bool-cases (i.required || not (is_some i.optional_failure_policy))) [
                | inl fatal ↦
                    rw (failed, fatal)
                      (record {
                        entry = record result.entry { status = PluginInstanceStatus.failed };
                        entries = written _;
                        key = f.key;
                        status = rw (e, stops, fatal) refl;
                        aborted = rw (e, stops, fatal) refl;
                        degraded = rw (e, stops, fatal) (ground arith);
                        booted = f.booted ∙ booted;
                        started = claimed;
                      })
                | inr tolerated ↦
                    rw (failed, tolerated)
                      (record {
                        entry = record result.entry { status = PluginInstanceStatus.degraded };
                        entries = written _;
                        key = f.key;
                        status = rw (e, stops, tolerated) refl;
                        aborted = rw (e, stops, tolerated) refl;
                        degraded = rw (e, stops, tolerated) (ground arith);
                        booted = f.booted ∙ booted;
                        started = claimed;
                      })
              ]
        ]

  boot_instance-Turn :
      (i : RuntimeInstance) (pre post : Dict CatalogEntry) (st : BootState)
      → st.runner.entries ≡ pre ++ (i.key, initial_entry i) ∷ post
      → includes (keys pre) i.key ≡ false
      → Turn i pre post st (boot_instance now budget i st)
  unfolding boot_instance run_boot_stages
  boot_instance-Turn i pre post st here new = elim (Bool-cases st.aborted) [
    | inl e ↦ skipped-Turn i pre post st here new e
    | inr e ↦
        let r = st.runner in
        let found : get i.key r.entries ≡ some (initial_entry i) =
          ap (get i.key) here ∙ get-middle pre post i.key (initial_entry i) new in
        simp (e, found)
          (after_stages-Turn i pre post st here new (record r { reads = r.reads + 1 }) _ refl refl
            refl e
            (run_stages-facts now budget i (now r.reads) plugin_boot_stages _ (initial_entry i)))
  ]

  -- Both flags, the statuses and the instances that own resources, after the rest of the loop.
  record Finish (pre : Dict CatalogEntry) (rest : List RuntimeInstance) (st st' : BootState)
      : Type 0 where
    listed : statuses st'.runner.entries ≡ statuses pre ++ verdicts budget st.aborted rest
    aborted :
        st'.aborted ≡ (st.aborted || any (λ e. is_failed e.1) (verdicts budget st.aborted rest))
    degraded :
        st'.degraded ≡ (st.degraded || any (λ e. is_degraded e.1) (verdicts budget st.aborted rest))
    booted : st'.runner.booted ≡ st.runner.booted
    started : st'.runner.started ≡ st.runner.started ++ claimants budget st.aborted rest

  claimants-cons :
      (aborted : Bool) (i : RuntimeInstance) (rest : List RuntimeInstance)
      → claimants budget aborted (i ∷ rest)
        ≡ (if aborted then [] else registers budget i plugin_boot_stages)
          ++ claimants budget (aborted || is_failed (settle aborted i)) rest
  unfolding claimants
  claimants-cons true i rest = refl
  claimants-cons false i rest = refl

  Finish-cons :
      (i : RuntimeInstance) (rest : List RuntimeInstance) (pre post : Dict CatalogEntry)
      (st st₁ st₂ : BootState) (turn : Turn i pre post st st₁)
      → Finish (pre ++ (i.key, turn.entry) ∷ []) rest st₁ st₂
      → Finish pre (i ∷ rest) st st₂
  unfolding verdicts
  Finish-cons i rest pre post st st₁ st₂ turn f =
      let now_aborted = st.aborted || is_failed (settle st.aborted i) in
      let later = verdicts budget now_aborted rest in
      let claims = claimants budget now_aborted rest in
      record {
        listed =
            f.listed
            ∙ ap (λ b. statuses (pre ++ (i.key, turn.entry) ∷ []) ++ verdicts budget b rest)
                turn.aborted
            ∙ ap (λ l. l ++ later)
                (map-append (λ e. (e.1.key, e.1.status)) pre ((i.key, turn.entry) ∷ []))
            ∙ append_assoc (statuses pre) ((turn.entry.key, turn.entry.status) ∷ []) later
            ∙ (λ j. statuses pre ++ (turn.key j, turn.status j) ∷ later);
        aborted =
            f.aborted
            ∙ ap (λ b. b || any (λ e. is_failed e.1) (verdicts budget b rest)) turn.aborted
            ∙ or_assoc st.aborted _ _;
        degraded =
            f.degraded
            ∙ ap (λ b. st₁.degraded || any (λ e. is_degraded e.1) (verdicts budget b rest))
                turn.aborted
            ∙ ap (λ x. x || any (λ e. is_degraded e.1) later) turn.degraded
            ∙ or_assoc st.degraded _ _;
        booted = f.booted ∙ turn.booted;
        started =
            f.started
            ∙ ap (λ b. st₁.runner.started ++ claimants budget b rest) turn.aborted
            ∙ ap (λ l. l ++ claims) turn.started
            ∙ append_assoc st.runner.started _ claims
            ∙ ap (λ l. st.runner.started ++ l) (sym (claimants-cons st.aborted i rest));
      }

  boot_from-Finish :
      (pre : Dict CatalogEntry) (rest : List RuntimeInstance) (st : BootState)
      → st.runner.entries ≡ pre ++ fresh rest
      → Distinct (runtime_keys rest)
      → IsApart (keys pre) (runtime_keys rest)
      → Finish pre rest st (boot_from now budget rest st)
  unfolding boot_from verdicts claimants
  boot_from-Finish pre [] st here d apart = record {
    listed = ap statuses (here ∙ append-nil pre) ∙ sym (append-nil (statuses pre));
    aborted = ground arith;
    degraded = ground arith;
    booted = refl;
    started = sym (append-nil st.runner.started);
  }
  boot_from-Finish pre (i ∷ rest) st here (new, d) apart =
      let turn =
        boot_instance-Turn i pre (fresh rest) st here (IsApart-head (keys pre) i.key _ apart) in
      Finish-cons i rest pre (fresh rest) st _ _ turn (
        boot_from-Finish (pre ++ (i.key, turn.entry) ∷ []) rest _
          (turn.entries ∙ sym (append_assoc pre ((i.key, turn.entry) ∷ []) (fresh rest))) d
          (rw (map-append (λ e. e.0) pre ((i.key, turn.entry) ∷ []))
            (IsApart-tail (keys pre) i.key (runtime_keys rest) new apart)))

-- A runner that was just constructed, of instances with different keys, boots, whatever its hooks do. Each instance gets its verdict;
-- the outcome is the one that the verdicts call for; the instances that own resources afterwards are
-- those whose `register` stage passed; and the runner refuses to boot again.
pub boot_lem :
    (now : ℕ → ℕ) (budget : ℕ) (instances : List RuntimeInstance)
    → Distinct (runtime_keys instances)
    → (catalog : HostCatalog) × (r : Runner) × (boot now budget (new_runner instances)
        ≡ finished catalog r)
      × (map (λ e. (e.key, e.status)) catalog.entries ≡ verdicts budget false instances)
      × (catalog.outcome ≡ outcome_spec (verdicts budget false instances))
      × (r.started ≡ claimants budget false instances)
      × (boot now budget r ≡ refused (text "boot() may only be called once"))
unfolding boot outcome_of outcome_spec includes new_runner
boot_lem now budget instances d =
    let start : BootState = record {
      runner = record (new_runner instances) { booted = true };
      aborted = false;
      degraded = false;
      diagnostics = [];
    } in
    let f =
      boot_from-Finish now budget [] instances start (new_runner-entries instances d) d
        (λ k h. refl) in
    let end = boot_from now budget instances start in
    (
      record {
        outcome = outcome_of end;
        entries = map (λ e. e.1) end.runner.entries;
        by_key = end.runner.entries;
        diagnostics = sort_diagnostics end.diagnostics;
      },
      end.runner,
      refl,
      map-map (λ e. (e.key, e.status)) (λ e. e.1) end.runner.entries ∙ f.listed,
      rw (f.aborted, f.degraded) refl,
      f.started,
      rw f.booted refl,
    )
