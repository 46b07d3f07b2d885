-- ===== src/Normalizer/Dispatch/Routes.antt =====
-- Deliveries and requests to the normalizer keep what its writes keep.
use signalyard.Common.{
  ℕ, String, Option, none, some, List, [], ◌∷◌, Bool-cases, inl, inr, ◌==◌, String_eq,
}
use signalyard.Platform.Exec.{◌>>=◌, Error, not_found, conflict, failed, Result, ok, err, Handler}
use signalyard.Platform.Database.{Db, QuarantineRow}
use signalyard.Platform.Messages.{Envelope}
use signalyard.Platform.Auth.{Crypto, TokenAuth, Request, extract_token}
use signalyard.Platform.Auth.Tables.{Keeps-resolve}
use signalyard.Platform.World.{Env, time_now}
use signalyard.Platform.Keeps.{Preorder, Keeps, Keeps-bind, Keeps-fail_if, Keeps-or_else}
use signalyard.Platform.KeepsDb.{tables, tables_rules}
use signalyard.Normalizer.State.{RegistrySchema, Worker, Upstream}
use signalyard.Normalizer.RegistryClient.{invalidate}
use signalyard.Normalizer.Store.{
  insert_event, id_or_new, quarantine_row, list_quarantined, get_quarantined,
  quarantined_by_category,
}
use signalyard.Normalizer.Worker.{
  Outcome, routed, quarantined, ValidationResult, route, route_all, quarantine, after_validation,
  after_schema, process, handle_ingest,
}
use signalyard.Normalizer.Replay.{
  after_process, replay_payload, replay_one, replay_rows, replay_category, handle_approval,
}
use signalyard.Normalizer.Server.{
  Reply, parse_id, handle_list_quarantine, handle_get_quarantine, handle_replay_one,
  handle_replay_category,
}
use signalyard.Normalizer.Router
use signalyard.Normalizer.Router.{Route, handle_routing_stats, protected, authenticated, dispatch}
use signalyard.Normalizer.Dispatch.{
  WritesKeep, tables_of, Keeps-at_world, worker_rules, get_schema-Keeps, Keeps-loki,
}

module _ ⦃env : Env⦄ ⦃up : Upstream⦄ {R : Db → Db → Type 0} (o : Preorder R)
    (k : WritesKeep R) where
  insert-Keeps : (e : Envelope) → Keeps tables R (insert_event e)
  unfolding insert_event
  insert-Keeps e = search (tables_rules, o, k.event)

  route-Keeps : (dest : String) (e : Envelope) → Keeps tables R (route dest e)
  unfolding route
  route-Keeps dest e = search (tables_rules, o, insert-Keeps, Keeps-loki)

  route_all-Keeps : (dests : List String) (e : Envelope) → Keeps tables R (route_all dests e)
  unfolding route_all
  route_all-Keeps [] e = search (tables_rules, o)
  route_all-Keeps (dest ∷ rest) e =
      Keeps-bind o _ _ (route-Keeps dest e) (λ u. route_all-Keeps rest e)

  id-Keeps : {E : Type 0} (id : Option ℕ) → Keeps tables R (id_or_new {E = E} id)
  id-Keeps none = search (tables_rules, o)
  id-Keeps (some id) = search (tables_rules, o)

  row-Keeps : (e : Envelope) (reason : String) → Keeps tables R (quarantine_row e reason)
  unfolding quarantine_row
  row-Keeps e reason = search (tables_rules, o, id-Keeps, k.quarantined)

  quarantine-Keeps : (e : Envelope) (reason : String) → Keeps tables_of R (quarantine e reason)
  unfolding quarantine
  quarantine-Keeps e reason = search (worker_rules, o, row-Keeps) depth 9

  validation-Keeps :
      (e : Envelope) (s : RegistrySchema) (v : Option ValidationResult)
      → Keeps tables_of R (after_validation e s v)
  unfolding after_validation
  validation-Keeps e s none = search (worker_rules, o)
  validation-Keeps e s (some v) =
      search (worker_rules, o, route_all-Keeps, quarantine-Keeps) depth 9

  schema-Keeps :
      (e : Envelope) (r : Result Error RegistrySchema) → Keeps tables_of R (after_schema e r)
  unfolding after_schema
  schema-Keeps e (err not_found) = search (worker_rules, o, quarantine-Keeps)
  schema-Keeps e (err conflict) = search (worker_rules, o)
  schema-Keeps e (err failed) = search (worker_rules, o)
  schema-Keeps e (ok s) = validation-Keeps e s _

  process-Keeps : (e : Envelope) → Keeps tables_of R (process e)
  unfolding process
  process-Keeps e = search (worker_rules, o, get_schema-Keeps, schema-Keeps)

  pub ingest-Keeps :
      (m : Option Envelope) (s : Worker) → R s.world.db (handle_ingest m s).1.world.db
  unfolding handle_ingest
  ingest-Keeps none s = o.reflexive s.world.db
  ingest-Keeps (some e) s = (process-Keeps e).at s

  processed-Keeps : (id : ℕ) (r : Outcome) → Keeps tables_of R (after_process id r)
  unfolding after_process
  processed-Keeps id routed = search (worker_rules, o, k.replayed)
  processed-Keeps id quarantined = search (worker_rules, o)

  payload-Keeps : (id : ℕ) (e : Option Envelope) → Keeps tables_of R (replay_payload id e)
  unfolding replay_payload
  payload-Keeps id none = search (worker_rules, o, k.bumped)
  payload-Keeps id (some e) = search (worker_rules, o, process-Keeps, processed-Keeps)

  replay_one-Keeps : (q : QuarantineRow) → Keeps tables_of R (replay_one q)
  unfolding replay_one
  replay_one-Keeps q = payload-Keeps q.id q.raw_payload

  rows-Keeps : (rows : List QuarantineRow) (n : ℕ) → Keeps tables_of R (replay_rows rows n)
  unfolding replay_rows
  rows-Keeps [] n = search (worker_rules, o)
  rows-Keeps (q ∷ rest) n = Keeps-bind o _ _ (replay_one-Keeps q) (λ done. rows-Keeps rest _)

  category-Keeps : (category : String) → Keeps tables_of R (replay_category category)
  unfolding replay_category quarantined_by_category
  category-Keeps category = search (worker_rules, o, rows-Keeps)

  pub approval-Keeps :
      (m : Option String) (s : Worker) → R s.world.db (handle_approval m s).1.world.db
  unfolding handle_approval invalidate
  approval-Keeps none s = o.reflexive s.world.db
  approval-Keeps (some category) s = elim (Bool-cases (category == "")) [
    | inl e ↦ rw e (o.reflexive s.world.db)
    | inr e ↦ rw e ((category-Keeps category).at (invalidate category s))
  ]

  Keeps-parse_id : (text : String) → Keeps tables_of R (parse_id text)
  unfolding parse_id
  Keeps-parse_id text = search (worker_rules, o)

  ruleset server_rules = (worker_rules, Keeps-parse_id)

  module _ (started_at : ℕ) where
    stats-Keeps : Keeps tables_of R (handle_routing_stats started_at)
    unfolding handle_routing_stats ◌>>=◌ time_now
    stats-Keeps = record { at = λ s. o.reflexive s.world.db }

    protected-Keeps : (r : Route) → Keeps tables_of R (protected started_at r)
    unfolding protected handle_list_quarantine handle_get_quarantine handle_replay_one
        handle_replay_category list_quarantined get_quarantined
    protected-Keeps Router.health = search (server_rules, o)
    protected-Keeps (Router.list_quarantine s) = search (server_rules, o) depth 12
    protected-Keeps (Router.get_quarantine id) = search (server_rules, o) depth 12
    protected-Keeps (Router.replay_one id) = search (server_rules, o, replay_one-Keeps) depth 15
    protected-Keeps (Router.replay_category c) =
        search (server_rules, o, get_schema-Keeps, category-Keeps) depth 9
    protected-Keeps Router.get_routing_stats = stats-Keeps

    module _ ⦃crypto : Crypto⦄ where
      authenticated-Keeps :
          (a : TokenAuth) (r : Request) (h : Handler Worker Reply)
          → Keeps tables_of R h
          → Keeps tables_of R (authenticated started_at a r h)
      unfolding authenticated
      authenticated-Keeps a r h kh = Keeps-bind o _ _ (Keeps-fail_if o _ _) λ u.
          Keeps-bind o _ _
            (Keeps-or_else _ _ (Keeps-at_world _ (Keeps-resolve o a (extract_token r)))) λ id. kh

      pub dispatch-Keeps :
          (a : TokenAuth) (r : Request) (route : Route)
          → Keeps tables_of R (dispatch started_at a r route)
      unfolding dispatch
      dispatch-Keeps a r Router.health = search (worker_rules, o)
      dispatch-Keeps a r route = authenticated-Keeps a r _ (protected-Keeps route)
