-- ===== src/Normalizer/Stored.antt =====
-- A delivered event whose category has a schema that accepts it (internal/normalizer/worker.go).
use signalyard.Common.{ℕ, suc, ◌≡◌, refl, ap, String, true, false, some, none, List, [], ◌∷◌, ◌++◌}
use signalyard.Platform.Exec.{◌>>=◌, pure, attempt}
use signalyard.Platform.Messages.{Envelope}
use signalyard.Platform.Database.{SchemaRow}
use signalyard.Platform.World.{Env, World}
use signalyard.Normalizer.State.{Worker, Upstream, RegistrySchema, replied}
use signalyard.Normalizer.RegistryClient.{get_schema}
use signalyard.Normalizer.Store.{active_row, refers_to_agent}
use signalyard.Normalizer.Worker.{
  process, after_schema, after_validation, validate_payload, verdict, destinations, routing_of,
  route_all, route, bump_processed, bump_routed, handle_ingest, answer, ack,
}
use signalyard.Normalizer.Fetched.{get_schema-counts}
use signalyard.Normalizer.Replayed.{
  event_row, insert_event-works, get_schema-fetched, get_schema-db,
}

module _ ⦃env : Env⦄ ⦃up : Upstream⦄ where
  -- A delivered event is acknowledged, stored as one row behind the others, and counted as processed and as
  -- routed, where the database works, nothing is cached, the registry answers with a schema that accepts the
  -- payload and routes it to Postgres alone, the category has an active schema version in the database, and
  -- the agent is known or not given.
  pub handle_ingest-stored :
      (e : Envelope) (sc : RegistrySchema) (r : SchemaRow) (msgs : List String) (s : Worker)
      → ((n : ℕ) → env.db_fails n ≡ false)
      → s.cache e.category ≡ none
      → ((w : World) → up.fetch w e.category ≡ replied 200 (some sc))
      → up.validate sc.json_schema e.payload ≡ some (true, msgs)
      → destinations (routing_of sc.routing_yaml) ≡ "postgres" ∷ []
      → active_row e.category s.world.db ≡ some r
      → refers_to_agent (env.uuid_parse e.agent_id) s.world.db ≡ true
      → let (result, t) = handle_ingest (some e) s in
        (result ≡ ack)
        × ((n : ℕ) × (t.world.db.events ≡ s.world.db.events ++ event_row n e r ∷ []))
        × (t.counts ≡ bump_routed (bump_processed s.counts))
  unfolding handle_ingest answer process ◌>>=◌ attempt after_schema after_validation
      validate_payload verdict route_all route pure
  handle_ingest-stored e sc r msgs s f c g v d a k =
      let s1 = record s { counts = bump_processed s.counts } in
      let x = get_schema-fetched e.category sc s1 c g in
      let y = get_schema-db e.category sc s1 c g in
      let s2 = (get_schema e.category s1).1 in
      let z = insert_event-works e r s2.world f (rw y a) (rw y k) in
      (
        rw (x, v, d, z) refl,
        (suc s2.world.calls, rw (x, v, d, z) (rw y refl)),
        rw (x, v, d, z) (ap bump_routed (get_schema-counts e.category s1)),
      )
