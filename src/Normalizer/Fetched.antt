-- ===== src/Normalizer/Fetched.antt =====
-- Fetching a schema counts nothing (internal/normalizer/registry_client.go).
use signalyard.Common.{◌≡◌, refl, inl, inr, String, ℕ_eq, ◌==◌, Option, none, some, Bool-cases}
use signalyard.Platform.World.{Env, next}
use signalyard.Normalizer.State.{
  RegistrySchema, CachedSchema, Worker, Upstream, Fetched, bad_request, unreachable, replied,
}
use signalyard.Normalizer.RegistryClient.{
  get_schema, last_known, keep_decoded, on_fetched, fetch_schema, cached_or_fetch, is_fresh,
  store_in_cache, tick,
}

module _ ⦃env : Env⦄ ⦃up : Upstream⦄ where
  last_known-counts : (c : Option CachedSchema) (s : Worker) → (last_known c s).1.counts ≡ s.counts
  unfolding last_known
  last_known-counts none s = refl
  last_known-counts (some c) s = refl

  keep_decoded-counts :
      (k : String) (b : Option RegistrySchema) (s : Worker)
      → (keep_decoded k b s).1.counts ≡ s.counts
  unfolding keep_decoded store_in_cache
  keep_decoded-counts k none s = refl
  keep_decoded-counts k (some b) s = refl

  on_fetched-counts :
      (k : String) (f : Fetched) (s : Worker) → (on_fetched k f s).1.counts ≡ s.counts
  unfolding on_fetched
  on_fetched-counts k bad_request s = refl
  on_fetched-counts k unreachable s = last_known-counts (s.cache k) s
  on_fetched-counts k (replied status body) s = elim (Bool-cases (status == 404)) [
    | inl e ↦ rw e refl
    | inr e ↦ elim (Bool-cases (status == 200)) [
      | inl e' ↦ rw (e, e') (keep_decoded-counts k body s)
      | inr e' ↦ rw (e, e') refl
    ]
  ]

  cached-counts :
      (k : String) (c : Option CachedSchema) (s : Worker)
      → (cached_or_fetch k c s).1.counts ≡ s.counts
  unfolding cached_or_fetch fetch_schema
  cached-counts k none s = on_fetched-counts k (up.fetch s.world k) (tick s)
  cached-counts k (some c) s = elim (Bool-cases (is_fresh c s)) [
    | inl e ↦ rw e refl
    | inr e ↦ rw e (on_fetched-counts k (up.fetch (next s.world) k) (tick (tick s)))
  ]

  pub get_schema-counts :
      (category : String) (s : Worker) → (get_schema category s).1.counts ≡ s.counts
  unfolding get_schema
  get_schema-counts category s = cached-counts category (s.cache category) s
