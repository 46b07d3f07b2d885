-- ===== src/Registry/Handlers/AgentRoutes.antt =====
-- The routes of agents in internal/registry/handlers.go, and the dispatch of server.go.
use signalyard.Common.{String, String_eq, Option, ◌==◌}
use signalyard.Platform.Exec.{◌>>=◌, ◌>>◌, pure, ◌or_else◌, write_json, write_error, Handler}
use signalyard.Platform.World.{Env, World}
use signalyard.Registry.Agents.{
  list_agents, create_agent, get_agent, update_agent, delete_agent, list_api_keys_for_agent,
}
use signalyard.Registry.Handlers.{
  CreateAgentRequest, UpdateAgentRequest, Reply, agents, agent_id, agent, agent_deleted, missing_or,
  decoded, required, parse_id,
}

module _ ⦃env : Env⦄ where
  unfoldable pub handle_list_agents : Handler World Reply
  handle_list_agents = do
    out ← list_agents or_else (λ _. write_error 500 "list failed")
    pure (write_json 200 (agents out))

  unfoldable pub handle_create_agent : Option CreateAgentRequest → Handler World Reply
  handle_create_agent body = do
    req ← decoded body "invalid JSON body"
    capabilities ←
        required req.capabilities (req.agent_name == "") "agent_name and capabilities are required"
    a ←
        create_agent req.agent_name req.description capabilities
        or_else (λ _. write_error 500 "failed to register agent")
    pure (write_json 201 (agent_id (env.uuid_string a.id)))

  unfoldable pub handle_get_agent : String → Handler World Reply
  handle_get_agent text = do
    id ← parse_id text "invalid agent_id"
    a ← get_agent id or_else missing_or "agent not found" "lookup failed"
    keys ← list_api_keys_for_agent id or_else (λ _. write_error 500 "key lookup failed")
    pure (write_json 200 (agent a keys))

  unfoldable pub handle_update_agent : String → Option UpdateAgentRequest → Handler World Reply
  handle_update_agent text body = do
    id ← parse_id text "invalid agent_id"
    req ← decoded body "invalid JSON body"
    update_agent id req.agent_name req.status req.capabilities
        or_else missing_or "agent not found" "update failed"
    pure (write_json 200 (agent_id (env.uuid_string id)))

  unfoldable pub handle_delete_agent : String → Handler World Reply
  handle_delete_agent text = do
    id ← parse_id text "invalid agent_id"
    delete_agent id or_else missing_or "agent not found" "delete failed"
    pure (write_json 200 (agent_deleted (env.uuid_string id)))
