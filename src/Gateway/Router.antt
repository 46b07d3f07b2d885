-- ===== src/Gateway/Router.antt =====
-- internal/coreapi/server.go: the routes, each behind what its group requires.
use signalyard.Common.{ℕ, String, Bool, Option, List, [], ◌∷◌}
use signalyard.Platform.Exec.{◌>>=◌, ◌>>◌, pure, write_json, Handler}
use signalyard.Platform.Messages.{Envelope}
use signalyard.Platform.Auth.{Crypto, Request}
use signalyard.Platform.World.{Env, World}
use signalyard.Gateway.Rate.{new_rate_limiter}
use signalyard.Gateway.Keys.{Agent}
use signalyard.Gateway.Auth.{Config, Identities, User, authenticate, session_of, require_role}
use signalyard.Gateway.Handlers.{
  Gateway, at_world, RegisterRequest, CreateApiKeyRequest, CollectRequest, QueryEventsRequest,
  ProposeSchemaRequest, Reply, Document, document, healthy,
}
use signalyard.Gateway.Handlers.Sessions.{
  handle_register, handle_login, handle_get_api_key, handle_create_api_key, handle_delete_api_key,
}
use signalyard.Gateway.Handlers.Ingest.{
  TokenBody, handle_create_agent_token, rate_limit, handle_collect, handle_otlp,
}
use signalyard.Gateway.Handlers.Tools.{
  RegistryProxy, handle_query_events, handle_propose_schema, handle_list_categories,
}

-- Issuing and revoking keys, for admins and approvers.
pub data KeyRoute : Type 0 where
  create_api_key : Option CreateApiKeyRequest → KeyRoute
  delete_api_key : String → KeyRoute

-- For agents, by key or token. /mcp/tools/ingest_event is `collect` too.
pub data AgentRoute : Type 0 where
  create_agent_token : TokenBody → AgentRoute
  collect : (idempotency_key : String) → Option CollectRequest → AgentRoute
  otlp : (kind content_type : String) → Option String → AgentRoute
  query_events : Option QueryEventsRequest → AgentRoute
  propose_schema : Option ProposeSchemaRequest → AgentRoute
  list_categories get_manifest : AgentRoute

pub data Route : Type 0 where
  health start_here_agents openapi_json mcp_manifest_json : Route
  register : Option RegisterRequest → Route
  login : Option String → Route
  get_api_key : String → Route
  keys : KeyRoute → Route
  machine : AgentRoute → Route

abbrev pub reviewers : List String
reviewers = "admin" ∷ "approver" ∷ []

-- What json.Marshal and the runes of a name are to the handlers.
pub record Codec : Type 0 where
  pub encodable : Envelope → Bool
  pub string_of_runes : List ℕ → String

-- NewServer
abbrev pub new_server : ⦃env : Env⦄ → (rps burst : ℕ) → World → Gateway
new_server rps burst w = record { world = w; limiter = new_rate_limiter rps burst; ingested = [] }

module _ ⦃env : Env⦄ ⦃crypto : Crypto⦄ ⦃ids : Identities⦄ ⦃proxy : RegistryProxy⦄ (codec : Codec)
    (cfg : Config) where
  unfoldable pub key_route : KeyRoute → User → Handler World Reply
  key_route (create_api_key body) user = handle_create_api_key cfg body
  key_route (delete_api_key text) user = handle_delete_api_key text

  unfoldable pub agent_route : AgentRoute → Agent → Handler Gateway Reply
  agent_route (create_agent_token body) agent = at_world (handle_create_agent_token cfg agent body)
  agent_route (collect key body) agent =
      rate_limit agent (handle_collect codec.encodable agent key body)
  agent_route (otlp kind content_type read) agent = handle_otlp cfg kind content_type read
  agent_route (query_events body) agent = at_world (handle_query_events body)
  agent_route (propose_schema body) agent = at_world (handle_propose_schema cfg agent body)
  agent_route list_categories agent = at_world (handle_list_categories cfg)
  agent_route get_manifest agent = pure (write_json 200 (document Document.manifests))

  -- RequireSession, then RequireRole
  unfoldable pub for_reviewer : Request → KeyRoute → Handler World Reply
  for_reviewer r route = do user ← session_of cfg r; require_role reviewers (key_route route) user

  unfoldable pub for_session : Request → String → Handler World Reply
  for_session r text = do session_of cfg r; handle_get_api_key text

  -- RequireAPIKey
  unfoldable pub for_agent : Request → AgentRoute → Handler Gateway Reply
  for_agent r route = do agent ← at_world (authenticate cfg r); agent_route route agent

  unfoldable pub dispatch : Request → Route → Handler Gateway Reply
  dispatch r health = pure (write_json 200 healthy)
  dispatch r start_here_agents = pure (write_json 200 (document Document.start_here))
  dispatch r openapi_json = pure (write_json 200 (document Document.openapi))
  dispatch r mcp_manifest_json = pure (write_json 200 (document Document.mcp_manifest))
  dispatch r (register body) = at_world (handle_register codec.string_of_runes body)
  dispatch r (login body) = at_world (handle_login cfg body)
  dispatch r (get_api_key text) = at_world (for_session r text)
  dispatch r (keys route) = at_world (for_reviewer r route)
  dispatch r (machine route) = for_agent r route
