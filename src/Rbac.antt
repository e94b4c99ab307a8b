-- ===== src/Rbac.antt =====
-- packages/rbac: what roles grant, the guard that asks for permissions, and the management of roles.
pub mod Policy
pub mod Grants
pub mod Roles
pub mod Kept
pub mod Assignments
pub mod Assigned
pub mod Protected
mod Samples
mod RoleSamples
