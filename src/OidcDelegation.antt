-- ===== src/OidcDelegation.antt =====
-- packages/oidc-delegation: exchanging a user's token for one of another audience.
pub mod Policies
pub mod Throttle
pub mod Exchange
pub mod Delegated
pub mod InFlight
pub mod Breaker
mod Samples
