-- ===== src/PluginApi/Resolver.antt =====
-- packages/plugin-api/src/resolver/index.ts
pub mod Topology
pub mod Records
pub mod Instances
pub mod Intake
pub mod Contributions
pub mod Checks
pub mod Requirements
pub mod Graph
pub mod Keys
pub mod Providers
pub mod Needs
pub mod Lookup
pub mod Wiring
pub mod Edges
pub mod Sound
pub mod Enabled
pub mod Exact
pub mod Shutdown
pub mod Exclusive
mod Samples
