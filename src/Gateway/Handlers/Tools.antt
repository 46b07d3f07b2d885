-- ===== src/Gateway/Handlers/Tools.antt =====
-- The MCP tools in internal/coreapi/handlers.go.
use Prim.Native.String.{◌++◌}
use signalyard.Common.{
  ℕ, String, String_eq, ℕ_eq, Bool, true, false, ◌&&◌, not, Option, none, some, List, [], ltb, ◌==◌,
  if◌then◌else◌,
}
use signalyard.Platform.Exec.{
  Exec, ◌>>=◌, ◌>>◌, pure, raise, fail_if, or_fail, ◌or_else◌, Response, write_json, write_error,
  Handler,
}
use signalyard.Platform.Json.{Object}
use signalyard.Platform.World.{Env, World}
use signalyard.Gateway.Keys.{Agent}
use signalyard.Gateway.Store.{query_events}
use signalyard.Gateway.Auth.{Config}
use signalyard.Gateway.Handlers.{
  QueryEventsRequest, ProposeSchemaRequest, Reply, events, proxied, no_categories, decoded,
}

-- The proposal contract of the registry, as the gateway sends it.
pub record ForwardedProposal : Type 0 where
  pub category : String
  pub json_schema_patch : Object
  pub routing_yaml_diff : String
  pub generated_by : String
  pub sample_event_ids : List String

-- The registry's answer over HTTP, `none` where it cannot be reached: for a proposal, and for the
-- list of categories.
pub record RegistryProxy : Type 0 where
  pub post_proposal : (url : String) → ForwardedProposal → Option (ℕ × String)
  pub get_categories : (url : String) → Option (ℕ × String)

abbrev pub required : Option Object → Bool → Exec (Response Reply) World Object
required none missing = raise (write_error 400 "category and json_schema are required")
required (some o) true = raise (write_error 400 "category and json_schema are required")
required (some o) false = pure o

-- A zero time is no bound.
unfoldable pub is_reversed : (start stop : ℕ) → Bool
is_reversed start stop = not (start == 0) && not (stop == 0) && ltb stop start

abbrev pub raw : ℕ × String → Response Reply
raw (status, body) = write_json status (proxied body)

module _ ⦃env : Env⦄ where
  unfoldable pub handle_query_events : Option QueryEventsRequest → Handler World Reply
  unfolding is_reversed
  handle_query_events body = do
    req ← decoded body "invalid query"
    fail_if (is_reversed req.start_time req.end_time)
        (write_error 400 "end_time must be after start_time")
    out ←
        query_events req.category req.start_time req.end_time req.limit
        or_else (λ _. write_error 500 "query failed")
    pure (write_json 200 (events out))

module _ ⦃proxy : RegistryProxy⦄ where
  unfoldable pub handle_propose_schema :
      Config → Agent → Option ProposeSchemaRequest → Handler World Reply
  handle_propose_schema cfg agent body = do
    req ← decoded body "invalid proposal payload"
    json_schema ← required req.json_schema (req.category == "")
    fail_if (cfg.schema_registry_url == "") (write_error 503 "schema registry not configured")
    answer ←
        or_fail
          (proxy.post_proposal cfg.schema_registry_url (record {
            category = req.category;
            json_schema_patch = json_schema;
            routing_yaml_diff = req.routing_yaml_diff;
            generated_by = "mcp-agent:" ++ agent.slug;
            sample_event_ids = [];
          }))
          (write_error 502 "schema registry unreachable")
    pure (raw answer)

  unfoldable pub handle_list_categories : Config → Handler World Reply
  handle_list_categories cfg =
      if cfg.schema_registry_url == "" then pure (write_json 200 no_categories) else do
        answer ←
            or_fail (proxy.get_categories cfg.schema_registry_url)
              (write_error 502 "schema registry unreachable")
        pure (raw answer)
