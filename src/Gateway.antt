-- ===== src/Gateway.antt =====
-- internal/coreapi: the core API gateway. rate.go is Rate, store.go is Slug, Keys and Store, auth.go is
-- Auth, handlers.go is Handlers and its children.
pub mod Rate
pub mod Slug
pub mod Keys
pub mod Store
pub mod Auth
pub mod Handlers
pub mod Revoked
pub mod Slugs
pub mod Unseen
pub mod Settings
pub mod Router
pub mod Queried
pub mod Migrations
pub mod Tokens
pub mod Idempotent
pub mod Dispatch
