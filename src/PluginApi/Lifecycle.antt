-- ===== src/PluginApi/Lifecycle.antt =====
-- packages/plugin-api/src/lifecycle.ts: stages, statuses, events and outcomes.
use appspine_packages.Base.{ℤ, List, [], ◌∷◌, Text}

pub data PluginLifecycleStage : Type 0 where
  validate register ready shutdown : PluginLifecycleStage

unfoldable pub plugin_boot_stages : List PluginLifecycleStage
plugin_boot_stages = validate ∷ register ∷ ready ∷ []

pub data PluginInstanceStatus : Type 0 where
  pending validated registered ready degraded failed not_reached disabled stopped :
      PluginInstanceStatus

pub data EventOutcome : Type 0 where
  ok failed timeout skipped : EventOutcome

pub record LifecycleEvent : Type 0 where
  pub key : Text
  pub plugin_id : Text
  pub instance_id : Text
  pub stage : PluginLifecycleStage
  pub outcome : EventOutcome
  pub duration_ms : ℤ

pub data HostBootOutcome : Type 0 where
  ready degraded_ready boot_aborted : HostBootOutcome

pub data HostShutdownOutcome : Type 0 where
  completed with_reported_timeout with_reported_failure : HostShutdownOutcome
