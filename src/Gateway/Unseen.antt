-- ===== src/Gateway/Unseen.antt =====
-- Agents that the registry creates (internal/registry/store.go), seen by the gateway
-- (internal/coreapi/store.go).
use Prim.Native.String.{◌++◌ as cat}
use signalyard.Common.{
  ℕ, ◌≡◌, refl, sym, inl, inr, String, true, Option, none, some, List, [], ◌∷◌, ◌++◌, ◌==◌, ℕ_eq,
  arith, find, Bool-cases, nat_eq_iff,
}
use signalyard.Platform.Exec.{failed, ok, err, ◌>>=◌}
use signalyard.Platform.Database.{AgentRow}
use signalyard.Platform.World.{Env, World, statement, query_row, query}
use signalyard.Registry.Agents
use signalyard.Registry.Agents.{AgentRecord, find_agent, slug_taken}
use signalyard.Gateway.Keys

found-append :
    (id : ℕ) (r : AgentRow) (rows : List AgentRow)
    → find (λ x. x.id == id) rows ≡ none
    → (r.id == id) ≡ true
    → find (λ x. x.id == id) (rows ++ r ∷ []) ≡ some r
unfolding find
found-append id r [] h k = ground arith
found-append id r (x ∷ rows) h k = ground (arith, found-append id r rows)

unscannable : (r : AgentRow) → r.contact_email ≡ none → Keys.scan_agent r ≡ err failed
unfolding Keys.scan_agent
unscannable r e = rw e (without_email r.description)
  where
    without_email : (d : Option String) → Keys.scan_strings r d none ≡ err failed
    without_email none = refl
    without_email (some t) = refl

module _ ⦃env : Env⦄ where
  -- The row that CreateAgent of the registry has left, under an id that was not in use.
  created-row :
      (name description : String) (caps : List String) (w w' : World) (a : AgentRecord)
      → Agents.create_agent name description caps w ≡ (ok a, w')
      → find_agent a.id w.db ≡ none
      → (r : AgentRow) × (find_agent a.id w'.db ≡ some r) × (r.contact_email ≡ none)
  unfolding Agents.create_agent statement find_agent
  created-row name description caps w w' a h n =
      let n0 = w.calls in
      let r : AgentRow = record {
        id = env.new_uuid n0;
        name = name;
        slug = cat name (cat "-" (env.short_uuid n0));
        description = some description;
        agent_type = "custom";
        status = "active";
        contact_email = none;
        capabilities = some caps;
        created_at = env.now n0;
      } in
      let i : (a.id ≡ env.new_uuid n0) = ground arith in
      let g : (w'.db.agents ≡ w.db.agents ++ r ∷ []) = ground arith in
      (r, rw g (found-append a.id r w.db.agents n ((nat_eq_iff r.id a.id).1 (sym i))), refl)

-- After the registry has created an agent, under an id that is new, the gateway fails to read it, because its
-- contact email is NULL.
pub get_agent-create_agent :
    ⦃env : Env⦄ (name description : String) (caps : List String) (w w' : World) (a : AgentRecord)
    → Agents.create_agent name description caps w ≡ (ok a, w')
    → find_agent a.id w.db ≡ none
    → (Keys.get_agent a.id w').0 ≡ err failed
unfolding Keys.get_agent ◌>>=◌ query_row query Keys.scan_agent
get_agent-create_agent ⦃env = env⦄ name description caps w w' a h n =
    let (r, f, e) = created-row name description caps w w' a h n in
    elim (Bool-cases (env.db_fails w'.calls)) [
      | inl b ↦ rw b refl
      | inr b ↦ rw (b, f) (unscannable r e)
    ]
