-- ===== src/Registry/Handlers/SchemaRoutes.antt =====
-- The routes of schemas and categories in internal/registry/handlers.go.
use signalyard.Common.{String, String_eq, not, ◌||◌, Option, ◌==◌, if◌then◌else◌}
use signalyard.Platform.Exec.{
  Error, not_found, Result, ok, err, Exec, ◌>>=◌, ◌>>◌, pure, raise, ◌or_else◌, ignore, attempt,
  Response, write_json, write_error, Handler,
}
use signalyard.Platform.Json.{Object}
use signalyard.Platform.Auth.{Identity, name}
use signalyard.Platform.World.{Env, World}
use signalyard.Registry.Schemas.{
  Schema, create_schema_version, set_schema_git_sha, get_active_schema, list_active_schemas,
  list_schema_versions, list_categories, delete_category,
}
use signalyard.Registry.Git.{commit_schema}
use signalyard.Registry.Handlers.{
  Server, UpsertSchemaRequest, Reply, schemas, versioned, schema, deleted, versions, categories,
  missing_or, decoded, required,
}

module _ ⦃env : Env⦄ where
  -- A failed git commit is logged only; an empty SHA is not stored.
  unfoldable pub after_commit : Schema → Result Error String → Exec Error World Schema
  after_commit sc (err e) = pure sc
  after_commit sc (ok sha) =
      if not (sha == "")
      then (do
        ignore {E = Error} (set_schema_git_sha sc.id sha)
        pure (record sc { git_commit = sha }))
      else pure sc

  -- commitNewSchemaVersion
  unfoldable pub commit_new_schema_version :
      Server → String → Object → String → String → Exec Error World Schema
  unfolding after_commit
  commit_new_schema_version s category json_schema routing_yaml actor = do
    sc ← create_schema_version category json_schema routing_yaml actor ""
    sha ← attempt (commit_schema s.git category sc.version json_schema routing_yaml)
    after_commit sc sha

  unfoldable pub handle_list_schemas : Server → Handler World Reply
  handle_list_schemas s = do
    out ← list_active_schemas s.before or_else (λ _. write_error 500 "list failed")
    pure (write_json 200 (schemas out))

  unfoldable pub handle_create_schema :
      Server → Identity → Option UpsertSchemaRequest → Handler World Reply
  handle_create_schema s id body = do
    req ← decoded body "invalid JSON body"
    json_schema ←
        required req.json_schema (req.category == "" || req.routing_yaml == "")
          "category, json_schema and routing_yaml are required"
    sc ←
        commit_new_schema_version s req.category json_schema req.routing_yaml (name id)
        or_else (λ _. write_error 500 "failed to create schema")
    pure (write_json 201 (versioned sc.category sc.version))

  unfoldable pub handle_get_schema : String → Handler World Reply
  handle_get_schema category = do
    sc ← get_active_schema category or_else missing_or "schema not found" "lookup failed"
    pure (write_json 200 (schema sc))

  -- Only `not_found` stops the update: any other error of the lookup is passed over.
  unfoldable pub found_or_failed : Result Error Schema → Exec (Response Reply) World (Unit {0})
  found_or_failed (err not_found) = raise (write_error 404 "schema not found")
  found_or_failed _ = pure tt

  unfoldable pub handle_update_schema :
      Server → Identity → String → Option UpsertSchemaRequest → Handler World Reply
  unfolding found_or_failed
  handle_update_schema s id category body = do
    found ← attempt (get_active_schema category)
    found_or_failed found
    req ← decoded body "invalid JSON body"
    json_schema ←
        required req.json_schema (req.routing_yaml == "")
          "json_schema and routing_yaml are required"
    sc ←
        commit_new_schema_version s category json_schema req.routing_yaml (name id)
        or_else (λ _. write_error 500 "failed to update schema")
    pure (write_json 200 (versioned sc.category sc.version))

  unfoldable pub handle_delete_schema : String → Handler World Reply
  handle_delete_schema category = do
    delete_category category or_else missing_or "schema not found" "delete failed"
    pure (write_json 200 (deleted category))

  unfoldable pub handle_list_versions : String → Handler World Reply
  handle_list_versions category = do
    out ← list_schema_versions category or_else missing_or "schema not found" "list failed"
    pure (write_json 200 (versions out))

  unfoldable pub handle_list_categories : Server → Handler World Reply
  handle_list_categories s = do
    out ← list_categories s.before or_else (λ _. write_error 500 "list failed")
    pure (write_json 200 (categories out))
