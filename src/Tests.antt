-- ===== src/Tests.antt =====
-- Runs at concrete inputs.
pub mod Setup
pub mod Registry
pub mod Services
pub mod Worker
pub mod Access
pub mod System
pub mod Gateway
pub mod Normalizer
pub mod Webhook
pub mod Migrations
pub mod Duplicated
pub mod Burst
