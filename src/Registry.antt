-- ===== src/Registry.antt =====
-- internal/registry: the schema registry. The tables' operations (store.go) are Schemas, Proposals
-- and Agents, git.go is Git, handlers.go is Handlers.
pub mod Schemas
pub mod Proposals
pub mod Agents
pub mod Git
pub mod Handlers
pub mod Router
pub mod Reads
pub mod Versions
pub mod NewVersion
pub mod Dispatch
pub mod CommitTables
pub mod Settled
pub mod Published
pub mod Approval
pub mod Access
pub mod Settings
