-- ===== src/M2mApiKey.antt =====
-- packages/m2m-api-key: API keys, their scopes, their rate limits and the guards that read them.
pub mod RateLimiter
pub mod Windows
pub mod Eviction
pub mod Scopes
pub mod ApiKeys
pub mod Guard
pub mod Admission
pub mod Validity
mod Samples
mod AccessSamples
