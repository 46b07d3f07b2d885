-- ===== src/Registry/Dispatch.antt =====
-- What every request to the registry keeps, given that each write of the store keeps it: any
-- relation of the tables before and after that is a preorder.
use signalyard.Common.{ℕ, String, Option, List}
use signalyard.Platform.Exec.{Error, Result, ok, err}
use signalyard.Platform.Json.{Object}
use signalyard.Platform.Database.{Db}
use signalyard.Platform.Auth.{Identity, Crypto, Request}
use signalyard.Platform.Auth.Tables.{Keeps-middleware, Keeps-require_role}
use signalyard.Platform.World.{Env}
use signalyard.Platform.Keeps.{Preorder, Keeps}
use signalyard.Platform.KeepsDb.{tables}
use signalyard.Registry.Proposals.{Proposal, create_proposal, finalize_proposal, audit_log}
use signalyard.Registry.Agents.{create_agent, update_agent, delete_agent}
use signalyard.Registry.Handlers.{Server}
use signalyard.Registry.Handlers.SchemaRoutes.{
  handle_create_schema, handle_update_schema, handle_delete_schema, found_or_failed,
}
use signalyard.Registry.Handlers.Review.{
  Decision, approve, reject, decide, decide_on, notify, handle_review, handle_create_proposal,
}
use signalyard.Registry.Handlers.AgentRoutes.{
  handle_create_agent, handle_update_agent, handle_delete_agent,
}
use signalyard.Registry.Schemas.{Schema, get_active_schema}
use signalyard.Registry.Reads.{request_rules, Keeps-read, Keeps-reviewable}
use signalyard.Registry.Router
use signalyard.Registry.Router.{
  Route, OpenRoute, AdminRoute, open_route, admin_route, dispatch, reviewers,
}
use signalyard.Registry.Schemas.{delete_category}
use signalyard.Registry.Handlers.SchemaRoutes.{commit_new_schema_version}

pub record WritesKeep ⦃env : Env⦄ (R : Db → Db → Type 0) : Type 0 where
  pub commit :
      (s : Server) (category : String) (schema : Object) (yaml actor : String)
      → Keeps tables R (commit_new_schema_version s category schema yaml actor)
  pub delete_schemas : (category : String) → Keeps tables R (delete_category category)
  pub propose :
      (c g : String) (o : Object) (r : String) (s : List String) (n : Option String)
      → Keeps tables R (create_proposal c g o r s n)
  pub finalize :
      (id : ℕ) (s r n : String) (o : Option ℕ) → Keeps tables R (finalize_proposal id s r n o)
  pub audit : (id : ℕ) (u : Option ℕ) (a n : String) → Keeps tables R (audit_log id u a n)
  pub add_agent : (n d : String) (c : List String) → Keeps tables R (create_agent n d c)
  pub change_agent :
      (id : ℕ) (n s : String) (c : Option (List String)) → Keeps tables R (update_agent id n s c)
  pub remove_agent : (id : ℕ) → Keeps tables R (delete_agent id)

module _ ⦃env : Env⦄ {R : Db → Db → Type 0} (o : Preorder R) (k : WritesKeep R) where
  notify-Keeps : (p : Proposal) (sc : Schema) (r : String) → Keeps tables R (notify p sc r)
  unfolding notify
  notify-Keeps p sc r = search (request_rules, o)

  ruleset route_rules = (request_rules, notify-Keeps)

  decide-Keeps :
      (x : Decision) (s : Server) (id : Identity) (p : Proposal) (n : String)
      → Keeps tables R (decide x s id p n)
  unfolding decide
  decide-Keeps reject s id p n = search (route_rules, o, k.finalize, k.audit) depth 9
  decide-Keeps approve s id p n = search (route_rules, o, k.commit, k.finalize, k.audit) depth 9

  review-Keeps :
      (x : Decision) (s : Server) (id : Identity) (t : String) (b : Option String)
      → Keeps tables R (handle_review x s id t b)
  unfolding handle_review decide_on
  review-Keeps x s id t b = search (route_rules, o, Keeps-reviewable, decide-Keeps)

  found_or_failed-Keeps : (r : Result Error Schema) → Keeps tables R (found_or_failed r)
  unfolding found_or_failed
  found_or_failed-Keeps (err Error.not_found) = search (route_rules, o)
  found_or_failed-Keeps (err Error.conflict) = search (route_rules, o)
  found_or_failed-Keeps (err Error.failed) = search (route_rules, o)
  found_or_failed-Keeps (ok s) = search (route_rules, o)

  admin_route-Keeps :
      (s : Server) (route : AdminRoute) (id : Identity) → Keeps tables R (admin_route s route id)
  unfolding admin_route handle_create_schema handle_update_schema handle_delete_schema
      handle_create_agent handle_update_agent handle_delete_agent get_active_schema
  admin_route-Keeps s (Router.update_schema c b) id =
      search (route_rules, o, k.commit, found_or_failed-Keeps) depth 9
  admin_route-Keeps s (Router.approve_proposal p b) id = review-Keeps approve s id p b
  admin_route-Keeps s (Router.reject_proposal p b) id = review-Keeps reject s id p b
  admin_route-Keeps s (Router.create_schema b) id = search (route_rules, o, k.commit) depth 9
  admin_route-Keeps s (Router.delete_schema c) id = search (route_rules, o, k.delete_schemas)
  admin_route-Keeps s (Router.create_agent b) id = search (route_rules, o, k.add_agent) depth 9
  admin_route-Keeps s (Router.update_agent a b) id = search (route_rules, o, k.change_agent) depth 9
  admin_route-Keeps s (Router.delete_agent a) id = search (route_rules, o, k.remove_agent)

  open_route-Keeps : (s : Server) (route : OpenRoute) → Keeps tables R (open_route s route)
  unfolding open_route handle_create_proposal
  open_route-Keeps s (Router.create_proposal b) = search (route_rules, o, k.propose) depth 9
  open_route-Keeps s r = Keeps-read o s r tt

  module _ ⦃crypto : Crypto⦄ where
    pub dispatch-Keeps :
        (s : Server) (r : Request) (route : Route) → Keeps tables R (dispatch s r route)
    unfolding dispatch
    dispatch-Keeps s r Router.health = search (route_rules, o)
    dispatch-Keeps s r (Router.opened route) =
        Keeps-middleware o s.auth r _ λ id. open_route-Keeps s route
    dispatch-Keeps s r (Router.admin route) =
        Keeps-middleware o s.auth r _
          λ id. Keeps-require_role o reviewers _ id (admin_route-Keeps s route id)
