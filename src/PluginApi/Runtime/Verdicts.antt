-- ===== src/PluginApi/Runtime/Verdicts.antt =====
-- packages/plugin-api/src/runtime/index.ts: what `boot` should come to, read off the instances and their
-- hooks alone.
use appspine_packages.Base.{
  ℕ, Bool, true, false, ◌||◌, ◌&&◌, not, none, some, List, [], ◌∷◌, ◌++◌, if◌then◌else◌, is_some,
  any, Text,
}
use appspine_packages.PluginApi.Lifecycle.{
  PluginLifecycleStage, plugin_boot_stages, PluginInstanceStatus, HostBootOutcome,
}
use appspine_packages.PluginApi.Runtime.{RuntimeInstance, hook_of, with_timeout, passed}

abbrev pub is_register : PluginLifecycleStage → Bool
is_register PluginLifecycleStage.register = true
is_register _ = false

abbrev pub is_failed : PluginInstanceStatus → Bool
is_failed PluginInstanceStatus.failed = true
is_failed _ = false

abbrev pub is_degraded : PluginInstanceStatus → Bool
is_degraded PluginInstanceStatus.degraded = true
is_degraded _ = false

module _ (budget : ℕ) where
  -- A stage passes if the instance has no hook for it, or the hook settles well in time.
  unfoldable pub stage_passes : RuntimeInstance → PluginLifecycleStage → Bool
  stage_passes i stage = elim (hook_of i.hooks stage) [
    | none ↦ true
    | some hook ↦ elim (with_timeout budget hook) [ passed ↦ true | _ ↦ false ]
  ]

  unfoldable pub stages_pass : RuntimeInstance → List PluginLifecycleStage → Bool
  stages_pass i [] = true
  stages_pass i (stage ∷ rest) = stage_passes i stage && stages_pass i rest

  -- The instance owns resources once its `register` stage has passed.
  unfoldable pub registers : RuntimeInstance → List PluginLifecycleStage → List RuntimeInstance
  registers i [] = []
  registers i (stage ∷ rest) =
      if stage_passes i stage
      then (if is_register stage then i ∷ registers i rest else registers i rest)
      else []

  unfoldable pub verdict_of : RuntimeInstance → PluginInstanceStatus
  verdict_of i =
      if stages_pass i plugin_boot_stages
      then PluginInstanceStatus.ready
      else if i.required || not (is_some i.optional_failure_policy)
      then PluginInstanceStatus.failed
      else PluginInstanceStatus.degraded

  -- The status of each instance, in order; the flag says that an earlier one failed.
  unfoldable pub verdicts : Bool → List RuntimeInstance → List (Text × PluginInstanceStatus)
  verdicts aborted [] = []
  verdicts aborted (i ∷ rest) =
      let status = if aborted then PluginInstanceStatus.not_reached else verdict_of i in
      (i.key, status) ∷ verdicts (aborted || is_failed status) rest

  unfoldable pub claimants : Bool → List RuntimeInstance → List RuntimeInstance
  claimants aborted [] = []
  claimants aborted (i ∷ rest) =
      (if aborted then [] else registers i plugin_boot_stages)
      ++ claimants (aborted || is_failed (verdict_of i)) rest

unfoldable pub outcome_spec : List (Text × PluginInstanceStatus) → HostBootOutcome
outcome_spec statuses =
    if any (λ e. is_failed e.1) statuses
    then HostBootOutcome.boot_aborted
    else if any (λ e. is_degraded e.1) statuses
    then HostBootOutcome.degraded_ready
    else HostBootOutcome.ready
