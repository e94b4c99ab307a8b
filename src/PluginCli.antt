-- ===== src/PluginCli.antt =====
-- packages/plugin-cli: the permission reconciler.
pub mod Permissions
pub mod Plans
pub mod Diff
pub mod ChangePlan
pub mod Lockfile
mod Samples
mod PlanSamples
