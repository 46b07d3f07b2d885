-- ===== src/Gateway/Migrations.antt =====
-- Store.Migrate of internal/coreapi/store.go, and the loop of cmd/core-api-gateway/main.go over the files of
-- the directory with the migrations. What a file's SQL does to the tables is `execute`, `none` where it fails.
pub mod Again
use signalyard.Common.{
  String, String_eq, Bool, true, false, ◌&&◌, ◌||◌, not, Option, none, some, List, [], ◌∷◌, ◌++◌,
  is_some, find, ◌==◌, if◌then◌else◌,
}
use signalyard.Platform.Exec.{Error, failed, Result, ok, err, Exec, ◌>>=◌, ◌>>◌, pure, or_fail}
use signalyard.Platform.Database.{Db}
use signalyard.Platform.World.{Env, World, query, statement, transaction}

-- strings.HasSuffix
unfoldable pub has_suffix : (s suffix : String) → Bool
has_suffix String.[] suffix = suffix == ""
has_suffix (String.◌∷◌ c s) suffix = (String.◌∷◌ c s == suffix) || has_suffix s suffix

-- An entry as os.ReadDir lists it; `none` where os.ReadFile fails.
pub record DirEntry : Type 0 where
  pub name : String
  pub is_dir : Bool
  pub content : Option String

unfoldable pub is_migration : DirEntry → Bool
unfolding has_suffix
is_migration e = not e.is_dir && has_suffix e.name ".sql"

-- In a list of names; the table is there when it is asked.
abbrev pub is_listed : String → Option (List String) → Bool
is_listed name none = false
is_listed name (some names) = is_some (find (λ n. n == name) names)

unfoldable pub is_applied : String → Db → Bool
is_applied name d = is_listed name d.schema_migrations

abbrev created : Option (List String) → Option (List String)
created none = some []
created (some names) = some names

abbrev with_table : Db → Db
with_table d = record d { schema_migrations = created d.schema_migrations }

abbrev with_name : String → Db → Option (List String) → Result Error (Unit {0}) × Db
with_name name d none = (err failed, d)
with_name name d (some names) =
    if is_listed name (some names)
    then (err failed, d)
    else (ok tt, record d { schema_migrations = some (names ++ name ∷ []) })

module _ ⦃env : Env⦄ (execute : String → Db → Option Db) where
  -- CREATE TABLE IF NOT EXISTS schema_migrations, outside the transaction
  ensure_table : Exec Error World (Unit {0})
  ensure_table = statement (λ n d. (ok tt, with_table d))

  run_sql : String → Exec Error World (Unit {0})
  run_sql sql =
      statement λ n d. elim (execute sql d) [ none ↦ (err failed, d) | some d' ↦ (ok tt, d') ]

  -- The name is the primary key. Without the table, which a file may have dropped, it fails.
  record_migration : String → Exec Error World (Unit {0})
  record_migration name = statement (λ n d. with_name name d d.schema_migrations)

  apply_migration : (name sql : String) → Exec Error World (Unit {0})
  unfolding run_sql record_migration
  apply_migration name sql = transaction (do run_sql sql; record_migration name)

  unfoldable pub migrate : (name sql : String) → Exec Error World (Unit {0})
  unfolding ensure_table is_applied apply_migration
  migrate name sql = do
    ensure_table
    applied ← query (is_applied name)
    if applied then pure tt else apply_migration name sql

  -- The loop stops at the first error.
  unfoldable pub run_migrations : List DirEntry → Exec Error World (Unit {0})
  unfolding migrate
  run_migrations [] = pure tt
  run_migrations (e ∷ rest) =
      if is_migration e
      then (do sql ← or_fail e.content failed; migrate e.name sql; run_migrations rest)
      else run_migrations rest
