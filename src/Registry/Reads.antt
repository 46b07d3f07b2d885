-- ===== src/Registry/Reads.antt =====
-- The routes of the registry that only read: they change no table.
use signalyard.Common.{String, Bool, true, false, Option, none, some, List, [], ◌∷◌}
use signalyard.Platform.Database.{Db}
use signalyard.Platform.World.{Env}
use signalyard.Platform.Keeps.{Preorder, Keeps}
use signalyard.Platform.KeepsDb.{tables, tables_rules}
use signalyard.Registry.Schemas.{
  Schema, get_active_schema, list_active_schemas, list_categories, list_schema_versions,
  some_versions,
}
use signalyard.Registry.Proposals.{list_proposals, get_proposal, list_audit_log}
use signalyard.Registry.Agents.{list_agents, get_agent, list_api_keys_for_agent}
use signalyard.Registry.Handlers.{Server, parse_id, decoded, required}
use signalyard.Registry.Handlers.SchemaRoutes.{
  handle_list_schemas, handle_get_schema, handle_list_versions, handle_list_categories,
}
use signalyard.Registry.Handlers.Review.{
  handle_list_proposals, handle_get_proposal, handle_list_audit_log, optional_id, reviewable,
}
use signalyard.Registry.Handlers.AgentRoutes.{handle_list_agents, handle_get_agent}
use signalyard.Registry.Router.{
  OpenRoute, list_schemas, list_versions, get_schema, create_proposal, open_route,
}
use signalyard.Registry.Router

module _ ⦃env : Env⦄ {R : Db → Db → Type 0} (o : Preorder R) where
  pub Keeps-parse_id : (text msg : String) → Keeps tables R (parse_id text msg)
  unfolding parse_id
  Keeps-parse_id text msg = search (tables_rules, o)

  module _ {A : Type 0} where
    pub Keeps-decoded : (body : Option A) (msg : String) → Keeps tables R (decoded body msg)
    unfolding decoded
    Keeps-decoded none msg = search (tables_rules, o)
    Keeps-decoded (some a) msg = search (tables_rules, o)

    pub Keeps-required :
        (v : Option A) (b : Bool) (msg : String) → Keeps tables R (required v b msg)
    unfolding required
    Keeps-required none b msg = search (tables_rules, o)
    Keeps-required (some a) true msg = search (tables_rules, o)
    Keeps-required (some a) false msg = search (tables_rules, o)

  Keeps-some_versions : (vs : List Schema) → Keeps tables R (some_versions vs)
  unfolding some_versions
  Keeps-some_versions [] = search (tables_rules, o)
  Keeps-some_versions (v ∷ vs) = search (tables_rules, o)

  pub Keeps-reviewable :
      (text : String) (body : Option String) → Keeps tables R (reviewable text body)
  unfolding reviewable get_proposal
  Keeps-reviewable text body = search (tables_rules, o, Keeps-parse_id, Keeps-decoded) depth 9

pub ruleset request_rules = (tables_rules, Keeps-parse_id, Keeps-decoded, Keeps-required)

abbrev pub IsRead : OpenRoute → Type 0
IsRead (create_proposal body) = ⊥
IsRead _ = Unit

module _ ⦃env : Env⦄ {R : Db → Db → Type 0} (o : Preorder R) where
  Keeps-optional_id : (text : String) → Keeps tables R (optional_id text)
  unfolding optional_id
  Keeps-optional_id text = search (request_rules, o)

  pub Keeps-read :
      (s : Server) (route : OpenRoute) → IsRead route → Keeps tables R (open_route s route)
  unfolding open_route handle_list_schemas list_active_schemas handle_list_categories
      list_categories handle_list_agents list_agents handle_get_schema get_active_schema
      handle_list_versions list_schema_versions handle_list_proposals list_proposals
      handle_get_proposal get_proposal handle_list_audit_log list_audit_log handle_get_agent
      get_agent list_api_keys_for_agent
  Keeps-read s list_schemas h = search (request_rules, o)
  Keeps-read s (list_versions c) h = search (request_rules, o, Keeps-some_versions)
  Keeps-read s (Router.list_audit_log c) h = search (request_rules, o, Keeps-optional_id)
  Keeps-read s (create_proposal b) h = elim h [ ]
  Keeps-read s _ h = search (request_rules, o)
