-- ===== src/IntegrationContracts.antt =====
-- packages/integration-contracts: where webhooks may go, and how they are signed and verified.
pub mod DestinationPolicy
pub mod Webhook
pub mod Delivery
mod Samples
mod WebhookSamples
