-- ===== src/PluginApi/Runtime/Samples.antt =====
-- Two instances, one of which fails to become ready, and what the runner makes of them.
use appspine_packages.Base.{
  String, ℕ, ◌≡◌, refl, true, false, Option, none, some, List, [], ◌∷◌, ◌++◌, map, reverse, text,
  same, includes, Distinct,
}
use appspine_packages.PluginApi.Lifecycle.{plugin_boot_stages, HostBootOutcome, HostShutdownOutcome}
use appspine_packages.PluginApi.Runtime.{
  RuntimeInstance, Runner, HookRun, resolves, rejects, hangs, new_runner, hook_of, with_timeout,
}
use appspine_packages.PluginApi.Runtime.Boot.{HostCatalog, boot, finished, refused}
use appspine_packages.PluginApi.Runtime.Verdicts.{
  stage_passes, stages_pass, registers, verdict_of, verdicts, claimants, outcome_spec,
}
use appspine_packages.PluginApi.Runtime.Entries.{runtime_keys}
use appspine_packages.PluginApi.Runtime.Booted.{boot_lem}
use appspine_packages.PluginApi.Runtime.Shutdown.{shutdown}
use appspine_packages.PluginApi.Runtime.Released.{
  release_by, release_of, releases, shutdown_spec, shutdown_lem,
}

abbrev tick : ℕ → ℕ
tick n = n

abbrev instance_of : String → Option HookRun → Option HookRun → RuntimeInstance
instance_of id ready shutdown = record {
  key = text id;
  plugin_id = text id;
  instance_id = text "default";
  package_name = text id;
  package_version = text "1.0.0";
  digest = [];
  required = true;
  provides = [];
  requires = [];
  unresolved_optional = [];
  hooks = record { validate = none; register = none; ready = ready; shutdown = shutdown };
  optional_failure_policy = none;
  health_indicator_id = none;
  shutdown_timeout_ms = none;
}

-- "api" hangs when it should become ready, so "web" is not reached.
abbrev instances : List RuntimeInstance
instances =
    instance_of "store" (some (resolves 5)) (some (rejects 1 (text "busy")))
    ∷ instance_of "api" (some hangs) none
    ∷ instance_of "web" none none
    ∷ []

instances-Distinct : Distinct (runtime_keys instances)
unfolding includes same text
instances-Distinct = (refl, (refl, (refl, tt)))

outcome_test : outcome_spec (verdicts 10 false instances) ≡ HostBootOutcome.boot_aborted
unfolding outcome_spec verdicts verdict_of stages_pass stage_passes plugin_boot_stages hook_of
    with_timeout
outcome_test = refl

claimants_test : runtime_keys (claimants 10 false instances) ≡ text "store" ∷ text "api" ∷ []
unfolding claimants registers verdict_of stages_pass stage_passes plugin_boot_stages hook_of
    with_timeout
claimants_test = refl

boot_lem_example :
    (catalog : HostCatalog) × (r : Runner) × (boot tick 10 (new_runner instances)
      ≡ finished catalog r)
    × (map (λ e. (e.key, e.status)) catalog.entries ≡ verdicts 10 false instances)
    × (catalog.outcome ≡ outcome_spec (verdicts 10 false instances))
    × (r.started ≡ claimants 10 false instances)
    × (boot tick 10 r ≡ refused (text "boot() may only be called once"))
boot_lem_example = boot_lem tick 10 instances instances-Distinct

abbrev running : Runner
running = record (new_runner instances) { started = instances }

shutdown_test :
    shutdown_spec (releases tick 10 (reverse instances)) ≡ HostShutdownOutcome.with_reported_failure
unfolding shutdown_spec release_of release_by with_timeout
shutdown_test = refl

shutdown_lem_example :
    (map (λ e. (e.key, e.outcome)) (shutdown tick 10 running).events
      ≡ releases tick 10 (reverse running.started))
    × ((shutdown tick 10 running).outcome
        ≡ shutdown_spec (releases tick 10 (reverse running.started)))
    × ((shutdown tick 10 running).runner.recorded
        ≡ running.recorded ++ (shutdown tick 10 running).events)
shutdown_lem_example = shutdown_lem tick 10 running
