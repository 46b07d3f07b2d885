-- ===== src/Registry/Router.antt =====
-- internal/registry/server.go: the routes, behind the token middleware and the role check.
use signalyard.Common.{String, Option, List, [], ◌∷◌}
use signalyard.Platform.Exec.{Handler, write_json, pure}
use signalyard.Platform.Auth.{Crypto, Identity, Request, middleware, require_role}
use signalyard.Platform.World.{Env, World}
use signalyard.Registry.Handlers.{
  Server, UpsertSchemaRequest, CreateProposalRequest, CreateAgentRequest, UpdateAgentRequest, Reply,
  healthy,
}
use signalyard.Registry.Handlers.SchemaRoutes.{
  handle_list_schemas, handle_create_schema, handle_get_schema, handle_update_schema,
  handle_delete_schema, handle_list_versions, handle_list_categories,
}
use signalyard.Registry.Handlers.Review.{
  approve, reject, handle_list_proposals, handle_create_proposal, handle_get_proposal,
  handle_review, handle_list_audit_log,
}
use signalyard.Registry.Handlers.AgentRoutes.{
  handle_list_agents, handle_create_agent, handle_get_agent, handle_update_agent,
  handle_delete_agent,
}

-- The routes open to any valid token.
pub data OpenRoute : Type 0 where
  list_schemas list_categories list_agents : OpenRoute
  get_schema list_versions list_proposals get_proposal list_audit_log get_agent : String → OpenRoute
  create_proposal : Option CreateProposalRequest → OpenRoute

-- The mutating routes, for admins and approvers.
pub data AdminRoute : Type 0 where
  create_schema : Option UpsertSchemaRequest → AdminRoute
  update_schema : String → Option UpsertSchemaRequest → AdminRoute
  delete_schema delete_agent : String → AdminRoute
  approve_proposal reject_proposal : String → Option String → AdminRoute
  create_agent : Option CreateAgentRequest → AdminRoute
  update_agent : String → Option UpdateAgentRequest → AdminRoute

pub data Route : Type 0 where
  health : Route
  opened : OpenRoute → Route
  admin : AdminRoute → Route

abbrev pub reviewers : List String
reviewers = "admin" ∷ "approver" ∷ []

module _ ⦃env : Env⦄ where
  unfoldable pub open_route : Server → OpenRoute → Handler World Reply
  open_route s list_schemas = handle_list_schemas s
  open_route s list_categories = handle_list_categories s
  open_route s list_agents = handle_list_agents
  open_route s (get_schema category) = handle_get_schema category
  open_route s (list_versions category) = handle_list_versions category
  open_route s (list_proposals status) = handle_list_proposals status
  open_route s (get_proposal id) = handle_get_proposal id
  open_route s (list_audit_log id) = handle_list_audit_log id
  open_route s (get_agent id) = handle_get_agent id
  open_route s (create_proposal body) = handle_create_proposal body

  unfoldable pub admin_route : Server → AdminRoute → Identity → Handler World Reply
  admin_route s (create_schema body) id = handle_create_schema s id body
  admin_route s (update_schema category body) id = handle_update_schema s id category body
  admin_route s (delete_schema category) id = handle_delete_schema category
  admin_route s (approve_proposal p body) id = handle_review approve s id p body
  admin_route s (reject_proposal p body) id = handle_review reject s id p body
  admin_route s (create_agent body) id = handle_create_agent body
  admin_route s (update_agent a body) id = handle_update_agent a body
  admin_route s (delete_agent a) id = handle_delete_agent a

  unfoldable pub dispatch : ⦃crypto : Crypto⦄ → Server → Request → Route → Handler World Reply
  dispatch s r health = pure (write_json 200 healthy)
  dispatch s r (opened route) = middleware s.auth r (λ id. open_route s route)
  dispatch s r (admin route) = middleware s.auth r (require_role reviewers (admin_route s route))
