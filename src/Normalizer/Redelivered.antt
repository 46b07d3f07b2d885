-- ===== src/Normalizer/Redelivered.antt =====
-- Redeliveries of an event whose agent has been deleted (internal/normalizer/worker.go and store.go).
use signalyard.Common.{
  ℕ, zero, suc, ◌≡◌, refl, ◌∙◌, String, ℕ_eq, String_eq, Option, none, some, List, [], ◌∷◌,
  Bool-cases, inl, inr,
}
use signalyard.Platform.Exec.{not_found, failed, err, ◌>>=◌, pure, attempt}
use signalyard.Platform.Messages.{Envelope}
use signalyard.Platform.World.{Env, World, statement}
use signalyard.Registry.Agents.{find_agent}
use signalyard.Normalizer.State.{Worker, Upstream, replied}
use signalyard.Normalizer.RegistryClient.{
  get_schema, cached_or_fetch, fetch_schema, on_fetched, tick,
}
use signalyard.Normalizer.Store.{
  quarantine_row, upsert_quarantine, find_quarantined, refers_to_agent,
}
use signalyard.Normalizer.Worker.{
  quarantine, process, after_schema, handle_ingest, answer, Ack, nak_with_delay, bump_processed,
}
use signalyard.Normalizer.Counts.Consumed.{consume}

abbrev pub times : ℕ → Envelope → List (Option Envelope)
times zero e = []
times (suc n) e = some e ∷ times n e

abbrev pub naks : ℕ → List Ack
naks zero = []
naks (suc n) = nak_with_delay 5 ∷ naks n

module _ ⦃env : Env⦄ where
  upsert-refused :
      (id agent : ℕ) (e : Envelope) (reason : String) (w : World)
      → env.uuid_parse e.agent_id ≡ some agent
      → find_agent agent w.db ≡ none
      → find_quarantined id w.db ≡ none
      → ((upsert_quarantine id e reason w).0 ≡ err failed)
        × ((upsert_quarantine id e reason w).1.db ≡ w.db)
  unfolding upsert_quarantine statement refers_to_agent
  upsert-refused id agent e reason w p q h = elim (Bool-cases (env.db_fails w.calls)) [
    | inl f ↦ (rw f refl, rw f refl)
    | inr f ↦ (rw (f, h, p, q) refl, rw (f, h, p, q) refl)
  ]

module _ ⦃env : Env⦄ ⦃up : Upstream⦄ where
  quarantine-refused :
      (id agent : ℕ) (e : Envelope) (reason : String) (s : Worker)
      → env.uuid_parse e.event_id ≡ some id
      → env.uuid_parse e.agent_id ≡ some agent
      → find_agent agent s.world.db ≡ none
      → find_quarantined id s.world.db ≡ none
      → ((quarantine e reason s).0 ≡ err failed)
        × ((quarantine e reason s).1.world.db ≡ s.world.db)
        × ((quarantine e reason s).1.cache ≡ s.cache)
  unfolding quarantine quarantine_row ◌>>=◌ pure
  quarantine-refused id agent e reason s i p q h =
      let (r, d) = upsert-refused id agent e reason s.world p q h in
      (rw (i, r) refl, rw (i, r) d, rw (i, r) refl)

  pub get_schema-missing :
      (category : String) (s : Worker)
      → s.cache category ≡ none
      → ((w : World) → up.fetch w category ≡ replied 404 none)
      → get_schema category s ≡ (err not_found, tick s)
  unfolding get_schema cached_or_fetch fetch_schema on_fetched
  get_schema-missing category s c f = rw (c, f s.world) refl

  process-refused :
      (id agent : ℕ) (e : Envelope) (s : Worker)
      → env.uuid_parse e.event_id ≡ some id
      → env.uuid_parse e.agent_id ≡ some agent
      → find_agent agent s.world.db ≡ none
      → find_quarantined id s.world.db ≡ none
      → s.cache e.category ≡ none
      → ((w : World) → up.fetch w e.category ≡ replied 404 none)
      → ((process e s).0 ≡ err failed)
        × ((process e s).1.world.db ≡ s.world.db)
        × ((process e s).1.cache ≡ s.cache)
  unfolding process ◌>>=◌ attempt after_schema pure
  process-refused id agent e s i p q h c f =
      let s1 = record s { counts = bump_processed s.counts } in
      let (r, d, k) = quarantine-refused id agent e "unknown_category" (tick s1) i p q h in
      let g = get_schema-missing e.category s1 c f in (rw (g, r) refl, rw (g, r) d, rw (g, r) k)

  -- An event of a deleted agent, of a category without a schema, that has no row in the quarantine table, is
  -- never acknowledged, however often it is delivered: the foreign key of its quarantine row fails each time,
  -- and no table changes. This holds for every pattern of failures, while the registry answers 404 and nothing
  -- is cached.
  pub consume-refused :
      (n id agent : ℕ) (e : Envelope) (s : Worker)
      → env.uuid_parse e.event_id ≡ some id
      → env.uuid_parse e.agent_id ≡ some agent
      → find_agent agent s.world.db ≡ none
      → find_quarantined id s.world.db ≡ none
      → s.cache e.category ≡ none
      → ((w : World) → up.fetch w e.category ≡ replied 404 none)
      → ((consume (times n e) s).0 ≡ naks n) × ((consume (times n e) s).1.world.db ≡ s.world.db)
  unfolding consume handle_ingest answer
  consume-refused zero id agent e s i p q h c f = (refl, refl)
  consume-refused (suc n) id agent e s i p q h c f =
      let (r, d, k) = process-refused id agent e s i p q h c f in
      let t = (process e s).1 in
      let (a, b) = consume-refused n id agent e t i p (rw d q) (rw d h) (rw k c) f in
      (rw (r, a) refl, b ∙ d)
