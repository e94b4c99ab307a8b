-- ===== src/PluginApi/Runtime.antt =====
-- packages/plugin-api/src/runtime/index.ts: the lifecycle runner's data, its constructor, and the race of
-- a hook against its budget. `Boot`, `Shutdown` and `Health` hold the operations.
pub mod Boot
pub mod Shutdown
pub mod Verdicts
pub mod Stages
pub mod Entries
pub mod Booted
pub mod Health
pub mod Released
mod Samples
use appspine_packages.Base.{
  ℕ, ◌||◌, ℤ, pos, Bool, true, false, Option, none, some, List, [], ◌∷◌, ◌++◌, map, if◌then◌else◌,
  ltb, Text, text, say, decimal, same, Dict, put,
}
use appspine_packages.PluginApi.Manifest.{OptionalFailurePolicy}
use appspine_packages.PluginApi.Lifecycle.{
  PluginLifecycleStage, PluginInstanceStatus, EventOutcome, LifecycleEvent,
}

-- What running a hook comes to: it settles after some milliseconds, or never.
pub data HookRun : Type 0 where
  resolves : ℕ → HookRun
  rejects : ℕ → Text → HookRun
  hangs : HookRun

pub record PluginLifecycleHooks : Type 0 where
  pub validate : Option HookRun
  pub register : Option HookRun
  pub ready : Option HookRun
  pub shutdown : Option HookRun

unfoldable pub hook_of : PluginLifecycleHooks → PluginLifecycleStage → Option HookRun
hook_of hooks PluginLifecycleStage.validate = hooks.validate
hook_of hooks PluginLifecycleStage.register = hooks.register
hook_of hooks PluginLifecycleStage.ready = hooks.ready
hook_of hooks PluginLifecycleStage.shutdown = hooks.shutdown

pub record RuntimeInstance : Type 0 where
  pub key : Text
  pub plugin_id : Text
  pub instance_id : Text
  pub package_name : Text
  pub package_version : Text
  pub digest : Text
  pub required : Bool
  pub provides : List Text
  pub requires : List Text
  pub unresolved_optional : List Text
  pub hooks : PluginLifecycleHooks
  pub optional_failure_policy : Option OptionalFailurePolicy
  pub health_indicator_id : Option Text
  pub shutdown_timeout_ms : Option ℕ

pub record CatalogError : Type 0 where
  pub stage : PluginLifecycleStage
  pub message : Text

pub record CatalogEntry : Type 0 where
  pub key : Text
  pub plugin_id : Text
  pub instance_id : Text
  pub package_name : Text
  pub package_version : Text
  pub digest : Text
  pub status : PluginInstanceStatus
  pub required : Bool
  pub provides : List Text
  pub requires : List Text
  pub unresolved_optional : List Text
  pub startup_ms : ℤ
  pub health_indicator_id : Option Text
  pub error : Option CatalogError

-- The runner's mutable fields. `reads` counts the readings of the injected clock, and `log` holds
-- the messages handed to the logger.
pub record Runner : Type 0 where
  pub instances : List RuntimeInstance
  pub entries : Dict CatalogEntry
  pub recorded : List LifecycleEvent
  pub started : List RuntimeInstance
  pub booted : Bool
  pub reads : ℕ
  pub log : List Text

unfoldable pub initial_entry : RuntimeInstance → CatalogEntry
initial_entry i = record {
  key = i.key;
  plugin_id = i.plugin_id;
  instance_id = i.instance_id;
  package_name = i.package_name;
  package_version = i.package_version;
  digest = i.digest;
  status = PluginInstanceStatus.pending;
  required = i.required;
  provides = i.provides;
  requires = i.requires;
  unresolved_optional = i.unresolved_optional;
  startup_ms = pos 0;
  health_indicator_id = i.health_indicator_id;
  error = none;
}

entries_from : Dict CatalogEntry → List RuntimeInstance → Dict CatalogEntry
entries_from entries [] = entries
entries_from entries (i ∷ rest) = entries_from (put i.key (initial_entry i) entries) rest

-- The constructor.
unfoldable pub new_runner : List RuntimeInstance → Runner
unfolding entries_from
new_runner instances = record {
  instances = instances;
  entries = entries_from [] instances;
  recorded = [];
  started = [];
  booted = false;
  reads = 0;
  log = [];
}

-- Assignments to the entry that `this.entries.get(key)` returns.
unfoldable pub update : (CatalogEntry → CatalogEntry) → Text → Dict CatalogEntry → Dict CatalogEntry
update f k [] = []
update f k ((j, e) ∷ m) = if same j k then (j, f e) ∷ m else (j, e) ∷ update f k m

-- How a hook's race against its budget ends.
pub data Attempt : Type 0 where
  passed : Attempt
  timed_out : Attempt
  threw : Text → Attempt

-- The delay that `setTimeout` waits: one out of its range counts as 1 ms.
unfoldable pub timer_delay : ℕ → ℕ
timer_delay ms = if ltb ms 1 || ltb 2147483647 ms then 1 else ms

-- The timer is created before the hook starts, so it comes first at the same millisecond; a hook that
-- settles at once (after 0 ms) does so before any timer.
unfoldable pub with_timeout : ℕ → HookRun → Attempt
unfolding timer_delay
with_timeout budget (resolves ms) = if ltb ms (timer_delay budget) then passed else timed_out
with_timeout budget (rejects ms message) =
    if ltb ms (timer_delay budget) then threw message else timed_out
with_timeout budget hangs = timed_out

unfoldable pub stage_name : PluginLifecycleStage → Text
stage_name PluginLifecycleStage.validate = text "validate"
stage_name PluginLifecycleStage.register = text "register"
stage_name PluginLifecycleStage.ready = text "ready"
stage_name PluginLifecycleStage.shutdown = text "shutdown"

-- The message of a `StageTimeoutError`.
unfoldable pub timeout_message : PluginLifecycleStage → Text → ℕ → Text
timeout_message stage key budget = say (
    text "\""
    ∷ key
    ∷ text "\" exceeded its "
    ∷ decimal budget
    ∷ text "ms budget during "
    ∷ stage_name stage
    ∷ [])

unfoldable pub event : RuntimeInstance → PluginLifecycleStage → EventOutcome → ℤ → LifecycleEvent
event i stage outcome duration = record {
  key = i.key;
  plugin_id = i.plugin_id;
  instance_id = i.instance_id;
  stage = stage;
  outcome = outcome;
  duration_ms = duration;
}

abbrev pub record_event : LifecycleEvent → Runner → Runner
record_event e r = record r { recorded = r.recorded ++ e ∷ [] }
