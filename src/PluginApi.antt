-- ===== src/PluginApi.antt =====
-- packages/plugin-api: manifests, inventory, diagnostics, canonical JSON, the resolver.
pub mod Inventory
pub mod Capabilities
pub mod Diagnostics
pub mod Json
pub mod Manifest
pub mod Resolver
pub mod Lifecycle
pub mod Runtime
