-- ===== src/Normalizer/Duplicated.antt =====
-- Redeliveries after a fan-out that failed half way (internal/normalizer/worker.go).
use signalyard.Common.{
  ℕ, zero, suc, ◌+◌, ◌≡◌, refl, sym, ap, ◌∙◌, String, ℕ_eq, String_eq, ◌==◌, Bool, true, false,
  Option, none, some, List, [], ◌∷◌, ◌++◌, Bool-cases, inl, inr, length, arith, eq_iff,
  if◌then◌else◌,
}
use mathlib.Core.Option.{some-injective}
use signalyard.Platform.Exec.{failed, err, ok, ◌>>=◌, pure, attempt}
use signalyard.Platform.Messages.{Envelope}
use signalyard.Platform.Database.{Db, SchemaRow, CategoryRow, EventRow}
use signalyard.Platform.World.{Env, World, next}
use signalyard.Registry.Agents.{find_agent}
use signalyard.Registry.Schemas.{find_category, versions_of, head_row}
use signalyard.Normalizer.State.{Worker, Upstream, RegistrySchema, CachedSchema, replied}
use signalyard.Normalizer.RegistryClient.{
  get_schema, cached_or_fetch, fetch_schema, on_fetched, keep_decoded, store_in_cache, is_fresh,
  tick,
}
use signalyard.Normalizer.Store.{active_row, refers_to_agent}
use signalyard.Normalizer.Worker.{
  process, after_schema, after_validation, validate_payload, verdict, destinations, routing_of,
  route_all, route, push_loki, dated, post_loki, bump_processed, handle_ingest, answer,
}
use signalyard.Normalizer.Counts.Consumed.{consume}
use signalyard.Normalizer.Redelivered.{times, naks}
use signalyard.Normalizer.Replayed.{event_row, insert_event-works}

-- What is cached for the category, if anything, is this schema.
abbrev pub Knows : String → RegistrySchema → Worker → Type 0
Knows category sc s = (c : CachedSchema) → s.cache category ≡ some c → c.schema ≡ sc

module _ ⦃env : Env⦄ ⦃up : Upstream⦄ (category : String) (sc : RegistrySchema)
    (f : (w : World) → up.fetch w category ≡ replied 200 (some sc)) where
  known :
      (c c' : CachedSchema) (o : Option CachedSchema)
      → (if category == category then some c' else o) ≡ some c
      → c.schema ≡ c'.schema
  known c c' o h = sym (
      ap (λ (x : CachedSchema). x.schema)
        (some-injective c' c (rw ((eq_iff category category).1 refl) at h)))

  fetched :
      (s : Worker)
      → ((fetch_schema category s).0 ≡ ok sc)
        × ((fetch_schema category s).1.world.db ≡ s.world.db)
        × Knows category sc (fetch_schema category s).1
  unfolding fetch_schema on_fetched keep_decoded store_in_cache
  fetched s = (rw (f s.world) refl, rw (f s.world) refl, rw (f s.world) (λ c h. known c _ _ h))

  got_cached :
      (o : Option CachedSchema) (s : Worker)
      → s.cache category ≡ o
      → Knows category sc s
      → ((cached_or_fetch category o s).0 ≡ ok sc)
        × ((cached_or_fetch category o s).1.world.db ≡ s.world.db)
        × Knows category sc (cached_or_fetch category o s).1
  unfolding cached_or_fetch
  got_cached none s e k = fetched s
  got_cached (some c) s e k = elim (Bool-cases (is_fresh c s)) [
    | inl g ↦ (rw g (ap ok (k c e)), rw g refl, rw g k)
    | inr g ↦ let (x, y, z) = fetched (tick s) in (rw g x, rw g y, rw g z)
  ]

  got :
      (s : Worker)
      → Knows category sc s
      → ((get_schema category s).0 ≡ ok sc)
        × ((get_schema category s).1.world.db ≡ s.world.db)
        × Knows category sc (get_schema category s).1
  unfolding get_schema
  got s k = got_cached (s.cache category) s refl k

length-append_one : (x : EventRow) (xs : List EventRow) → length (xs ++ x ∷ []) ≡ suc (length xs)
length-append_one x [] = omega arith
length-append_one x (y ∷ xs) = ap suc (length-append_one x xs)

-- What storing an event leaves alone.
module _ (d : Db) (rows : List EventRow) where
  versions-events :
      (p : SchemaRow → Bool) (o : Option CategoryRow)
      → versions_of p o (record d { events = rows }) ≡ versions_of p o d
  unfolding versions_of
  versions-events p none = refl
  versions-events p (some c) = refl

  active_row-events :
      (category : String) → active_row category (record d { events = rows }) ≡ active_row category d
  unfolding active_row find_category
  active_row-events category = ap head_row (versions-events _ (find_category category d))

  refers-events :
      (a : Option ℕ) → refers_to_agent a (record d { events = rows }) ≡ refers_to_agent a d
  unfolding refers_to_agent find_agent
  refers-events none = refl
  refers-events (some a) = refl

module _ ⦃env : Env⦄ ⦃up : Upstream⦄ where
  loki_down :
      (e : Envelope) (w : World)
      → (up.loki_push_url == "") ≡ false
      → (e.timestamp == 0) ≡ false
      → ((n : ℕ) → env.http_status n ≡ none)
      → push_loki e w ≡ (err failed, next w)
  unfolding push_loki dated post_loki pure ◌>>=◌
  loki_down e w u t h = rw (u, t, h) refl

  abbrev stored : Envelope → SchemaRow → World → World
  stored e r w = record w {
    db = record w.db { events = w.db.events ++ event_row (suc w.calls) e r ∷ [] };
    calls = suc (suc w.calls);
  }

  route-half :
      (e : Envelope) (r : SchemaRow) (w : World)
      → ((n : ℕ) → env.db_fails n ≡ false)
      → ((n : ℕ) → env.http_status n ≡ none)
      → (up.loki_push_url == "") ≡ false
      → (e.timestamp == 0) ≡ false
      → active_row e.category w.db ≡ some r
      → refers_to_agent (env.uuid_parse e.agent_id) w.db ≡ true
      → route_all ("postgres" ∷ "loki" ∷ []) e w ≡ (err failed, next (stored e r w))
  unfolding route_all route ◌>>=◌
  route-half e r w f m u t a b =
      rw (insert_event-works e r w f a b) (rw (loki_down e (stored e r w) u t m) refl)

  process-half :
      (e : Envelope) (sc : RegistrySchema) (r : SchemaRow) (msgs : List String) (s : Worker)
      → ((n : ℕ) → env.db_fails n ≡ false)
      → ((n : ℕ) → env.http_status n ≡ none)
      → (up.loki_push_url == "") ≡ false
      → (e.timestamp == 0) ≡ false
      → ((w : World) → up.fetch w e.category ≡ replied 200 (some sc))
      → up.validate sc.json_schema e.payload ≡ some (true, msgs)
      → destinations (routing_of sc.routing_yaml) ≡ "postgres" ∷ "loki" ∷ []
      → Knows e.category sc s
      → active_row e.category s.world.db ≡ some r
      → refers_to_agent (env.uuid_parse e.agent_id) s.world.db ≡ true
      → ((process e s).0 ≡ err failed)
        × ((n : ℕ) × ((process e s).1.world.db
              ≡ record s.world.db { events = s.world.db.events ++ event_row n e r ∷ [] }))
        × Knows e.category sc (process e s).1
  unfolding process ◌>>=◌ attempt after_schema after_validation validate_payload verdict pure
  process-half e sc r msgs s f m u t g v d k a b =
      let s1 = record s { counts = bump_processed s.counts } in
      let (x, y, z) = got e.category sc g s1 k in
      let s2 = (get_schema e.category s1).1 in
      let i = route-half e r s2.world f m u t (rw y a) (rw y b) in
      (rw (x, v, d, i) refl, (suc s2.world.calls, rw (x, v, d, i) (rw y refl)), rw (x, v, d, i) z)

  -- An event that is routed to Postgres and Loki, of an accepted schema, while Loki cannot be reached: no
  -- delivery of it is acknowledged, and each one, however many come, stores it once more in the table of
  -- events. The database works; the agent is known or not given.
  pub consume-duplicated :
      (n : ℕ) (e : Envelope) (sc : RegistrySchema) (r : SchemaRow) (msgs : List String) (s : Worker)
      → ((n : ℕ) → env.db_fails n ≡ false)
      → ((n : ℕ) → env.http_status n ≡ none)
      → (up.loki_push_url == "") ≡ false
      → (e.timestamp == 0) ≡ false
      → ((w : World) → up.fetch w e.category ≡ replied 200 (some sc))
      → up.validate sc.json_schema e.payload ≡ some (true, msgs)
      → destinations (routing_of sc.routing_yaml) ≡ "postgres" ∷ "loki" ∷ []
      → Knows e.category sc s
      → active_row e.category s.world.db ≡ some r
      → refers_to_agent (env.uuid_parse e.agent_id) s.world.db ≡ true
      → ((consume (times n e) s).0 ≡ naks n)
        × (length (consume (times n e) s).1.world.db.events ≡ length s.world.db.events + n)
  unfolding consume handle_ingest answer
  consume-duplicated zero e sc r msgs s f m u t g v d k a b = (refl, omega arith)
  consume-duplicated (suc n) e sc r msgs s f m u t g v d k a b =
      let (x, (i, y), z) = process-half e sc r msgs s f m u t g v d k a b in
      let s' = (process e s).1 in
      let rows = s.world.db.events ++ event_row i e r ∷ [] in
      let a' : (active_row e.category s'.world.db ≡ some r) =
        rw y (active_row-events s.world.db rows e.category ∙ a) in
      let b' : (refers_to_agent (env.uuid_parse e.agent_id) s'.world.db ≡ true) =
        rw y (refers-events s.world.db rows (env.uuid_parse e.agent_id) ∙ b) in
      let (p, q) = consume-duplicated n e sc r msgs s' f m u t g v d z a' b' in
      let l : (length s'.world.db.events ≡ suc (length s.world.db.events)) =
        rw y (length-append_one (event_row i e r) s.world.db.events) in
      (rw (x, p) refl, q ∙ omega (arith, l))
