-- ===== src/Gateway/Dispatch/Routes.antt =====
-- The requests to the gateway keep what its writes keep.
use signalyard.Common.{ℕ, String, Bool, true, false, Option, none, some}
use signalyard.Platform.Json.{Object}
use signalyard.Platform.Database.{Db}
use signalyard.Platform.Auth.{Crypto, Request}
use signalyard.Platform.World.{Env}
use signalyard.Platform.Keeps.{Preorder, Keeps, Keeps-bind}
use signalyard.Platform.KeepsDb.{tables}
use signalyard.Gateway.Keys.{Agent}
use signalyard.Gateway.Store.{query_events}
use signalyard.Gateway.Auth.{Config, Identities, User, issue_agent_token}
use signalyard.Gateway.Handlers.{Gateway, Reply}
use signalyard.Gateway.Handlers
use signalyard.Gateway.Handlers.Ingest
use signalyard.Gateway.Handlers.Ingest.{
  TokenBody, limited, replayed, check_replay, required, save_response, count_ingested, envelope_of,
  handle_create_agent_token, rate_limit, handle_collect, handle_otlp, requested, ttl_or_refuse,
  forward_otlp, forward_if_configured,
}
use signalyard.Gateway.Handlers.Tools
use signalyard.Gateway.Handlers.Tools.{
  RegistryProxy, handle_query_events, handle_propose_schema, handle_list_categories,
}
use signalyard.Gateway.Router
use signalyard.Gateway.Router.{
  KeyRoute, AgentRoute, Route, Codec, key_route, agent_route, for_reviewer, for_session, for_agent,
  dispatch,
}
use signalyard.Gateway.Dispatch.{
  WritesKeep, tables_of, Keeps-at_world, gateway_rules, Keeps-authenticate, Keeps-session,
  Keeps-require_role,
}
use signalyard.Gateway.Dispatch.Sessions.{
  register-Keeps, login-Keeps, get_key-Keeps, delete_key-Keeps, create_key-Keeps,
}
use signalyard.Gateway.Dispatch.Ingest.{collect-Keeps, otlp-Keeps, rate_limit-Keeps}

module _ ⦃env : Env⦄ ⦃crypto : Crypto⦄ {R : Db → Db → Type 0} (o : Preorder R)
    (k : WritesKeep R) where
  requested-Keeps : (b : TokenBody) → Keeps tables R (requested b)
  requested-Keeps Ingest.absent = search (gateway_rules, o)
  requested-Keeps Ingest.malformed = search (gateway_rules, o)
  requested-Keeps (Ingest.ttl_seconds t) = search (gateway_rules, o)

  ttl-Keeps : (t : Option ℕ) → Keeps tables R (ttl_or_refuse t)
  ttl-Keeps none = search (gateway_rules, o)
  ttl-Keeps (some t) = search (gateway_rules, o)

  token-Keeps :
      (cfg : Config) (a : Agent) (b : TokenBody)
      → Keeps tables R (handle_create_agent_token cfg a b)
  unfolding handle_create_agent_token issue_agent_token
  token-Keeps cfg a b = search (gateway_rules, o, requested-Keeps, ttl-Keeps) depth 12

  query-Keeps : (b : Option Handlers.QueryEventsRequest) → Keeps tables R (handle_query_events b)
  unfolding handle_query_events query_events
  query-Keeps b = search (gateway_rules, o) depth 9

  module _ ⦃ids : Identities⦄ ⦃proxy : RegistryProxy⦄ where
    required-Keeps : (v : Option Object) (b : Bool) → Keeps tables R (Tools.required v b)
    required-Keeps none b = search (gateway_rules, o)
    required-Keeps (some p) true = search (gateway_rules, o)
    required-Keeps (some p) false = search (gateway_rules, o)

    propose-Keeps :
        (cfg : Config) (a : Agent) (b : Option Handlers.ProposeSchemaRequest)
        → Keeps tables R (handle_propose_schema cfg a b)
    unfolding handle_propose_schema
    propose-Keeps cfg a b = search (gateway_rules, o, required-Keeps) depth 9

    categories-Keeps : (cfg : Config) → Keeps tables R (handle_list_categories cfg)
    unfolding handle_list_categories
    categories-Keeps cfg = search (gateway_rules, o) depth 9

    module _ (codec : Codec) (cfg : Config) where
      key_route-Keeps : (route : KeyRoute) (u : User) → Keeps tables R (key_route codec cfg route u)
      unfolding key_route
      key_route-Keeps (Router.create_api_key body) u = create_key-Keeps o k cfg body
      key_route-Keeps (Router.delete_api_key text) u = delete_key-Keeps o k text

      agent_route-Keeps :
          (route : AgentRoute) (a : Agent) → Keeps tables_of R (agent_route codec cfg route a)
      unfolding agent_route
      agent_route-Keeps (Router.create_agent_token b) a = Keeps-at_world _ (token-Keeps cfg a b)
      agent_route-Keeps (Router.collect key b) a =
          rate_limit-Keeps o k a _ (collect-Keeps o k codec.encodable a key b)
      agent_route-Keeps (Router.otlp kind ct read) a = otlp-Keeps o k cfg kind ct read
      agent_route-Keeps (Router.query_events b) a = Keeps-at_world _ (query-Keeps b)
      agent_route-Keeps (Router.propose_schema b) a = Keeps-at_world _ (propose-Keeps cfg a b)
      agent_route-Keeps Router.list_categories a = Keeps-at_world _ (categories-Keeps cfg)
      agent_route-Keeps Router.get_manifest a = search (gateway_rules, o)

      reviewer-Keeps :
          (r : Request) (route : KeyRoute) → Keeps tables R (for_reviewer codec cfg r route)
      unfolding for_reviewer
      reviewer-Keeps r route =
          Keeps-bind o _ _ (Keeps-session o k cfg r)
            λ u. Keeps-require_role o k Router.reviewers _ u (key_route-Keeps route u)

      for_session-Keeps :
          (r : Request) (text : String) → Keeps tables R (for_session codec cfg r text)
      unfolding for_session
      for_session-Keeps r text =
          Keeps-bind o _ _ (Keeps-session o k cfg r) (λ u. get_key-Keeps o k text)

      for_agent-Keeps :
          (r : Request) (route : AgentRoute) → Keeps tables_of R (for_agent codec cfg r route)
      unfolding for_agent
      for_agent-Keeps r route =
          Keeps-bind o _ _ (Keeps-at_world _ (Keeps-authenticate o k cfg r))
            (agent_route-Keeps route)

      pub dispatch-Keeps :
          (r : Request) (route : Route) → Keeps tables_of R (dispatch codec cfg r route)
      unfolding dispatch
      dispatch-Keeps r (Router.register b) =
          Keeps-at_world _ (register-Keeps o k codec.string_of_runes b)
      dispatch-Keeps r (Router.login b) = Keeps-at_world _ (login-Keeps o k cfg b)
      dispatch-Keeps r (Router.get_api_key text) = Keeps-at_world _ (for_session-Keeps r text)
      dispatch-Keeps r (Router.keys route) = Keeps-at_world _ (reviewer-Keeps r route)
      dispatch-Keeps r (Router.machine route) = for_agent-Keeps r route
      dispatch-Keeps r _ = search (gateway_rules, o)
