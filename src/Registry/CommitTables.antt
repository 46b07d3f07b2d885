-- ===== src/Registry/CommitTables.antt =====
-- Committing a schema version writes to no table but those of categories and schema versions.
use signalyard.Common.{ℕ, ◌≡◌, refl, sym, subst, String, List, String_eq, ℕ_eq, arith}
use signalyard.Platform.Exec.{Error, Result, ok, err}
use signalyard.Platform.Json.{Object}
use signalyard.Platform.Database.{Db, CategoryRow, SchemaRow}
use signalyard.Platform.World.{Env, statement}
use signalyard.Platform.Keeps.{Preorder, Keeps}
use signalyard.Platform.KeepsDb.{tables, tables_rules, Keeps-statement}
use signalyard.Registry.Git.Tables.{commit_schema-Keeps}
use signalyard.Registry.Handlers.{Server}
use signalyard.Registry.Handlers.SchemaRoutes.{commit_new_schema_version, after_commit}
use signalyard.Registry.Schemas.{
  Schema, create_schema_version, version_statements, upsert_category, upsert_row,
  deactivate_versions, insert_version, set_schema_git_sha,
}

-- `R` relates tables that differ in categories and schema versions at most.
module _ ⦃env : Env⦄ {R : Db → Db → Type 0} (o : Preorder R)
    (frame : (d : Db) (c : List CategoryRow) (s : List SchemaRow)
      → R d (record d { categories = c; schemas = s })) where
  these_tables :
      {A : Type 0} (f : ℕ → Db → Result Error A × Db)
      → ((n : ℕ) (d : Db)
          → (f n d).1 ≡ record d { categories = (f n d).1.categories; schemas = (f n d).1.schemas })
      → Keeps tables R (statement f)
  these_tables f h = Keeps-statement o f λ n d. subst (R d) (sym (h n d)) (frame d _ _)

  upsert-Keeps : (name : String) → Keeps tables R (upsert_category name)
  unfolding upsert_category upsert_row
  upsert-Keeps name = these_tables _ (λ n d. ground arith)

  deactivate-Keeps : (c : ℕ) → Keeps tables R (deactivate_versions c)
  unfolding deactivate_versions
  deactivate-Keeps c = these_tables _ (λ n d. refl)

  insert-Keeps : (c : ℕ) (j : Object) (y b s : String) → Keeps tables R (insert_version c j y b s)
  unfolding insert_version
  insert-Keeps c j y b s = these_tables _ (λ n d. refl)

  set_sha-Keeps : (id : ℕ) (sha : String) → Keeps tables R (set_schema_git_sha id sha)
  unfolding set_schema_git_sha
  set_sha-Keeps id sha = these_tables _ (λ n d. refl)

  after_commit-Keeps : (sc : Schema) (r : Result Error String) → Keeps tables R (after_commit sc r)
  unfolding after_commit
  after_commit-Keeps sc (ok sha) = search (tables_rules, o, set_sha-Keeps)
  after_commit-Keeps sc (err e) = search (tables_rules, o)

  create_version-Keeps :
      (c : String) (j : Object) (y b s : String) → Keeps tables R (create_schema_version c j y b s)
  unfolding create_schema_version version_statements
  create_version-Keeps c j y b s =
      search (tables_rules, o, upsert-Keeps, deactivate-Keeps, insert-Keeps)

  pub commit-Keeps :
      (s : Server) (category : String) (schema : Object) (yaml actor : String)
      → Keeps tables R (commit_new_schema_version s category schema yaml actor)
  unfolding commit_new_schema_version
  commit-Keeps s category schema yaml actor =
      search (tables_rules, o, create_version-Keeps, commit_schema-Keeps, after_commit-Keeps)
