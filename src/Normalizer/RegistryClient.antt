-- ===== src/Normalizer/RegistryClient.antt =====
-- internal/normalizer/registry_client.go: schemas from the registry, behind a cache with a time to
-- live. The URL and the headers of the request are part of `Upstream.fetch`.
use signalyard.Common.{
  ◌-◌, String, String_eq, ℕ_eq, Bool, not, Option, none, some, ltb, ◌==◌, if◌then◌else◌,
}
use signalyard.Platform.Exec.{Error, not_found, failed, Result, ok, err, Exec}
use signalyard.Platform.World.{Env, next}
use signalyard.Normalizer.State.{
  RegistrySchema, CachedSchema, Worker, Fetched, bad_request, unreachable, replied, Upstream,
}

unfoldable pub store_in_cache : String → CachedSchema → Worker → Worker
store_in_cache category c s = record s { cache = λ k. if k == category then some c else s.cache k }

-- Invalidate
unfoldable pub invalidate : String → Worker → Worker
invalidate category s = record s { cache = λ k. if k == category then none else s.cache k }

abbrev pub tick : Worker → Worker
tick s = record s { world = next s.world }

-- The last known schema, however old, is used while the registry cannot be reached.
unfoldable pub last_known : Option CachedSchema → Worker → Result Error RegistrySchema × Worker
last_known none s = (err failed, s)
last_known (some c) s = (ok c.schema, s)

module _ ⦃env : Env⦄ ⦃up : Upstream⦄ where
  unfoldable pub keep_decoded : String → Option RegistrySchema → Exec Error Worker RegistrySchema
  unfolding store_in_cache
  keep_decoded category none s = (err failed, s)
  keep_decoded category (some sc) s = (
    ok sc,
    tick (store_in_cache category (record { schema = sc; fetched_at = env.now s.world.calls }) s),
  )

  unfoldable pub on_fetched : String → Fetched → Exec Error Worker RegistrySchema
  unfolding last_known keep_decoded
  on_fetched category bad_request s = (err failed, s)
  on_fetched category unreachable s = last_known (s.cache category) s
  on_fetched category (replied status body) s =
      if status == 404
      then (err not_found, s)
      else if not (status == 200)
      then (err failed, s)
      else keep_decoded category body s

  unfoldable pub fetch_schema : String → Exec Error Worker RegistrySchema
  unfolding on_fetched
  fetch_schema category s = on_fetched category (up.fetch s.world category) (tick s)

  -- `time.Since(cached.fetchedAt) < c.ttl`
  unfoldable pub is_fresh : CachedSchema → Worker → Bool
  is_fresh c s = ltb (env.now s.world.calls - c.fetched_at) up.ttl

  unfoldable pub cached_or_fetch : String → Option CachedSchema → Exec Error Worker RegistrySchema
  unfolding is_fresh fetch_schema
  cached_or_fetch category none s = fetch_schema category s
  cached_or_fetch category (some c) s =
      if is_fresh c s then (ok c.schema, tick s) else fetch_schema category (tick s)

  -- GetSchema
  unfoldable pub get_schema : String → Exec Error Worker RegistrySchema
  unfolding cached_or_fetch
  get_schema category s = cached_or_fetch category (s.cache category) s
