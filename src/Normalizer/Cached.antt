-- ===== src/Normalizer/Cached.antt =====
-- The cache of internal/normalizer/registry_client.go.
use text.Mathlib.TextPositions.{eq_refl}
use signalyard.Common.{◌≡◌, refl, inl, inr, String, String_eq, ℕ_eq, ◌==◌, false, some, Bool-cases}
use signalyard.Platform.Exec.{ok}
use signalyard.Platform.World.{Env, World}
use signalyard.Normalizer.State.{
  RegistrySchema, CachedSchema, Worker, unreachable, replied, Upstream,
}
use signalyard.Normalizer.RegistryClient.{
  get_schema, invalidate, last_known, keep_decoded, on_fetched, fetch_schema, cached_or_fetch,
  is_fresh, store_in_cache,
}

module _ ⦃env : Env⦄ ⦃up : Upstream⦄ (k : String) (c : CachedSchema) (s : Worker) where
  -- While the registry cannot be reached, a category that was fetched before is still served with its last
  -- known schema, however old it is, and the cache is kept.
  pub get_schema-unreachable :
      s.cache k ≡ some c
      → ((w : World) → up.fetch w k ≡ unreachable)
      → ((get_schema k s).0 ≡ ok c.schema) × ((get_schema k s).1.cache ≡ s.cache)
  unfolding get_schema cached_or_fetch fetch_schema on_fetched last_known
  get_schema-unreachable h f = elim (Bool-cases (is_fresh c s)) [
    | inl e ↦ rw (h, e) (refl, refl)
    | inr e ↦ rw (h, e, f _, h) (refl, refl)
  ]

module _ ⦃env : Env⦄ ⦃up : Upstream⦄ (k : String) (sc : RegistrySchema) (s : Worker) where
  -- Once a category has been invalidated, the next lookup returns what the registry answers, whatever was
  -- cached; the other categories stay cached as they were.
  pub get_schema-invalidate :
      ((w : World) → up.fetch w k ≡ replied 200 (some sc))
      → ((get_schema k (invalidate k s)).0 ≡ ok sc)
        × ((k' : String)
            → (k' == k) ≡ false
            → (get_schema k (invalidate k s)).1.cache k' ≡ s.cache k')
  unfolding get_schema invalidate cached_or_fetch fetch_schema on_fetched keep_decoded
      store_in_cache
  get_schema-invalidate f = rw (eq_refl k, f _) (refl, λ k' e. rw e refl)
