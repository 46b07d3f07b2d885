-- ===== src/Registry/Versions.antt =====
-- The invariant of the schema table: in each category at most one active version, no version twice, and
-- the active version is the newest.
pub mod Rows
pub mod Routes
pub mod Dispatch
use signalyard.Common.{ℕ, ◌≤◌, ◌≡◌, ◌⊎◌, Bool, ◌&&◌, ◌==◌, ℕ_eq, List, count, max_of}
use signalyard.Platform.Database.{Db, SchemaRow}
use signalyard.Registry.Schemas.{of_category}

abbrev pub active_in : ℕ → SchemaRow → Bool
active_in c r = of_category c r && r.is_active

abbrev pub version_in : ℕ → ℕ → SchemaRow → Bool
version_in c v r = of_category c r && (r.version == v)

abbrev pub newest : (SchemaRow → Bool) → List SchemaRow → ℕ
newest p rows = max_of (λ r. r.version) p rows

pub record IsVersionedIn (rows : List SchemaRow) (c : ℕ) : Type 0 where
  pub one_active : count (active_in c) rows ≤ 1
  pub distinct : (v : ℕ) → count (version_in c v) rows ≤ 1
  pub active_newest :
      (count (active_in c) rows ≡ 0) ⊎ (newest (active_in c) rows ≡ newest (of_category c) rows)

pub record IsVersioned (d : Db) : Type 0 where
  pub in_category : (c : ℕ) → IsVersionedIn d.schemas c
