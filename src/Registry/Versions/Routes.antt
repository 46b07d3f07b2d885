-- ===== src/Registry/Versions/Routes.antt =====
-- The handlers of internal/registry/handlers.go and the invariant of the schema table.
use signalyard.Common.{ℕ, suc, inl, inr, String, some, Bool-cases}
use signalyard.Platform.Exec.{Error, Result, ok, err, Exec, ◌>>=◌}
use signalyard.Platform.Json.{Object}
use signalyard.Platform.World.{Env, World, statement}
use signalyard.Platform.Keeps.{Preorder, Keeps}
use signalyard.Platform.KeepsDb.{
  tables, tables_rules, Preserving, Preserving-preorder, Keeps-statement,
}
use signalyard.Registry.Git.Tables.{commit_schema-Keeps}
use signalyard.Registry.Handlers.{Server}
use signalyard.Registry.Handlers.SchemaRoutes.{commit_new_schema_version, after_commit}
use signalyard.Registry.Schemas.{
  Schema, find_category, create_schema_version, version_statements, upsert_category,
  deactivate_versions, insert_version, set_schema_git_sha, delete_category,
}
use signalyard.Registry.Versions.{IsVersioned}
use signalyard.Registry.Versions.Rows.{
  upsert-IsVersioned, new_version-IsVersioned, deactivate-IsVersioned, delete-IsVersioned,
  set_sha-IsVersioned,
}

abbrev pub Stays : {E A : Type 0} → Exec E World A → Type 0
Stays m = Keeps tables (Preserving IsVersioned) m

pub preorder : Preorder (Preserving IsVersioned)
preorder = Preserving-preorder IsVersioned

module _ ⦃env : Env⦄ where
  insert_after_deactivate :
      (c : ℕ) (schema : Object) (yaml by sha : String)
      → Stays (deactivate_versions c >>= λ _. insert_version c schema yaml by sha)
  unfolding deactivate_versions insert_version statement ◌>>=◌
  insert_after_deactivate c schema yaml by sha = record {
    at = λ w v. elim (Bool-cases (env.db_fails w.calls)) [
      | inl e ↦ rw e v
      | inr e ↦ rw e (elim (Bool-cases (env.db_fails (suc w.calls))) [
        | inl e' ↦ rw e' (deactivate-IsVersioned c w.db v)
        | inr e' ↦ rw e' (new_version-IsVersioned _ _ c schema yaml by sha w.db v)
      ])
    ];
  }

  upsert-Stays : (name : String) → Stays (upsert_category name)
  unfolding upsert_category
  upsert-Stays name =
      Keeps-statement preorder _ λ n d. upsert-IsVersioned (env.now n) (env.new_uuid n) name d

  create_schema_version-Stays :
      (category : String) (schema : Object) (yaml by sha : String)
      → Stays (create_schema_version category schema yaml by sha)
  unfolding create_schema_version version_statements
  create_schema_version-Stays category schema yaml by sha =
      search (tables_rules, preorder, upsert-Stays, insert_after_deactivate)

  pub delete_category-Stays : (category : String) → Stays (delete_category category)
  unfolding delete_category
  delete_category-Stays category =
      Keeps-statement preorder _ λ n d. delete-IsVersioned (find_category category d) d

  set_schema_git_sha-Stays : (id : ℕ) (sha : String) → Stays (set_schema_git_sha id sha)
  unfolding set_schema_git_sha
  set_schema_git_sha-Stays id sha =
      Keeps-statement preorder _ λ n d. set_sha-IsVersioned id (some sha) d

  after_commit-Stays : (sc : Schema) (r : Result Error String) → Stays (after_commit sc r)
  unfolding after_commit
  after_commit-Stays sc (ok sha) = search (tables_rules, preorder, set_schema_git_sha-Stays)
  after_commit-Stays sc (err e) = search (tables_rules, preorder)

  pub commit_new_schema_version-Stays :
      (s : Server) (category : String) (schema : Object) (yaml actor : String)
      → Stays (commit_new_schema_version s category schema yaml actor)
  unfolding commit_new_schema_version
  commit_new_schema_version-Stays s category schema yaml actor =
      search (
        tables_rules, preorder, create_schema_version-Stays, commit_schema-Keeps,
        after_commit-Stays,
      )
