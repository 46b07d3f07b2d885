-- ===== src/Normalizer.antt =====
-- internal/normalizer: the normalizer and router. store.go is Store, registry_client.go is
-- RegistryClient, worker.go is Worker and Replay, server.go is Server.
pub mod State
pub mod Store
pub mod RegistryClient
pub mod Worker
pub mod Replay
pub mod Fetched
pub mod Stored
pub mod Cached
pub mod Server
pub mod Settings
pub mod Router
pub mod Duplicated
pub mod Replayed
pub mod Quarantined
pub mod Redelivered
pub mod Counts
pub mod Dispatch
