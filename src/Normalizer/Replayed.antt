-- ===== src/Normalizer/Replayed.antt =====
-- Replaying a quarantined event whose category has a schema by now (internal/normalizer/worker.go).
use signalyard.Common.{
  ℕ, suc, ◌≡◌, refl, String, ℕ_eq, String_eq, true, false, none, some, List, [], ◌∷◌, ◌++◌,
}
use signalyard.Common.ListLaws.{find-update}
use signalyard.Platform.Exec.{ok, ◌>>=◌, pure, attempt}
use signalyard.Platform.Messages.{Envelope}
use signalyard.Platform.Database.{QuarantineRow, EventRow, SchemaRow}
use signalyard.Platform.World.{Env, World, statement, query_row, query}
use signalyard.Normalizer.State.{Worker, Upstream, RegistrySchema, replied}
use signalyard.Normalizer.RegistryClient.{
  get_schema, cached_or_fetch, fetch_schema, on_fetched, keep_decoded, store_in_cache,
}
use signalyard.Normalizer.Store.{
  insert_event, insert_row, active_row, refers_to_agent, find_quarantined, mark_replayed,
}
use signalyard.Normalizer.Worker.{
  process, after_schema, after_validation, validate_payload, verdict, destinations, routing_of,
  route_all, route, bump_processed,
}
use signalyard.Normalizer.Replay.{replay_one, replay_payload, after_process}

-- The row that an event leaves in the table of events when statement `n` stores it.
abbrev pub event_row : ⦃env : Env⦄ → ℕ → Envelope → SchemaRow → EventRow
event_row ⦃env⦄ n e schema = record {
  id = env.new_uuid n;
  agent_id = env.uuid_parse e.agent_id;
  category_id = schema.category_id;
  schema_id = schema.id;
  source = e.source;
  normalized_payload = e.payload;
  occurred_at = e.timestamp;
  created_at = env.now n;
}

module _ ⦃env : Env⦄ where
  pub insert_event-works :
      (e : Envelope) (r : SchemaRow) (w : World)
      → ((n : ℕ) → env.db_fails n ≡ false)
      → active_row e.category w.db ≡ some r
      → refers_to_agent (env.uuid_parse e.agent_id) w.db ≡ true
      → insert_event e w ≡ (
        ok tt,
        record w {
          db = record w.db { events = w.db.events ++ event_row (suc w.calls) e r ∷ [] };
          calls = suc (suc w.calls);
        },
      )
  unfolding insert_event insert_row query_row query ◌>>=◌ statement
  insert_event-works e r w f a g = rw (f, a, g) (rw (f (suc w.calls)) refl)

module _ ⦃env : Env⦄ ⦃up : Upstream⦄ where
  pub get_schema-fetched :
      (category : String) (sc : RegistrySchema) (s : Worker)
      → s.cache category ≡ none
      → ((w : World) → up.fetch w category ≡ replied 200 (some sc))
      → (get_schema category s).0 ≡ ok sc
  unfolding get_schema cached_or_fetch fetch_schema on_fetched keep_decoded
  get_schema-fetched category sc s c f = rw (c, f s.world) refl

  pub get_schema-db :
      (category : String) (sc : RegistrySchema) (s : Worker)
      → s.cache category ≡ none
      → ((w : World) → up.fetch w category ≡ replied 200 (some sc))
      → (get_schema category s).1.world.db ≡ s.world.db
  unfolding get_schema cached_or_fetch fetch_schema on_fetched keep_decoded store_in_cache
  get_schema-db category sc s c f = rw (c, f s.world) refl

  -- A quarantined event is stored and its row marked as replayed, where the database works, nothing is
  -- cached, the registry answers with a schema that accepts the payload and routes it to Postgres, the
  -- category has an active schema version in the database, and the agent is known or not given.
  pub replay_one-stored :
      (q : QuarantineRow) (e : Envelope) (sc : RegistrySchema) (r : SchemaRow) (msgs : List String)
      (s : Worker)
      → q.raw_payload ≡ some e
      → find_quarantined q.id s.world.db ≡ some q
      → ((n : ℕ) → env.db_fails n ≡ false)
      → s.cache e.category ≡ none
      → ((w : World) → up.fetch w e.category ≡ replied 200 (some sc))
      → up.validate sc.json_schema e.payload ≡ some (true, msgs)
      → destinations (routing_of sc.routing_yaml) ≡ "postgres" ∷ []
      → active_row e.category s.world.db ≡ some r
      → refers_to_agent (env.uuid_parse e.agent_id) s.world.db ≡ true
      → let (result, t) = replay_one q s in
        (result ≡ ok true)
        × (find_quarantined q.id t.world.db ≡ some (record q { status = "replayed" }))
        × ((n : ℕ) × (t.world.db.events ≡ s.world.db.events ++ event_row n e r ∷ []))
  unfolding replay_one replay_payload after_process process ◌>>=◌ attempt after_schema
      after_validation validate_payload verdict route_all route pure mark_replayed statement
      find_quarantined
  replay_one-stored q e sc r msgs s p h f c g v d a k =
      let s1 = record s { counts = bump_processed s.counts } in
      let x = get_schema-fetched e.category sc s1 c g in
      let y = get_schema-db e.category sc s1 c g in
      let s2 = (get_schema e.category s1).1 in
      let z = insert_event-works e r s2.world f (rw y a) (rw y k) in
      let n = suc (suc s2.world.calls) in
      (
        rw (p, x, v, d, z) (rw (f n) refl),
        rw (p, x, v, d, z)
            (rw (f n, y)
              (rw p at (
                find-update _ (λ (o : QuarantineRow). record o { status = "replayed" }) q
                  s.world.db.quarantine_events (λ o. refl) h))),
        (suc s2.world.calls, rw (p, x, v, d, z) (rw (f n, y) refl)),
      )
