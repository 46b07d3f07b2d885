-- ===== src/Platform.antt =====
-- What the four services share: errors and handlers (Exec), the JSON objects (Json), the
-- messages on JetStream (Messages), the tables of migrations/ (Database), and the state that the
-- services share with the outside (World).
pub mod Exec
pub mod Float64
pub mod Json
pub mod Messages
pub mod Database
pub mod World
pub mod Keeps
pub mod KeepsDb
pub mod Inversion
pub mod Auth
pub mod Environ
