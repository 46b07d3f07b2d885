-- ===== src/Webhook.antt =====
-- internal/webhook: the webhook adapter. verify.go is Verify, normalize.go is Normalize, store.go is
-- Store, server.go is Server.
pub mod Verify
pub mod Normalize
pub mod Store
pub mod Server
pub mod Refusal
pub mod Settings
pub mod Router
pub mod Signed
pub mod Retried
pub mod Dispatch
