-- ===== src/Gateway/Idempotent.antt =====
-- Idempotency keys (internal/coreapi/store.go and handlers.go) as a partial map from keys and agents to
-- responses.
use signalyard.Common.{
  ℕ, ◌≡◌, refl, ap, ◌∙◌, String, String_eq, ℕ_eq, Bool, true, false, ◌&&◌, Option, none, some, List,
  [], ◌∷◌, ◌++◌, arith, ◌==◌, if◌then◌else◌, find, get_or, Bool-cases, Option-cases, eq_iff, ◌⊎◌,
  inl, inr,
}
use signalyard.Platform.Exec.{ok, ◌>>=◌, attempt, write_json, serve}
use signalyard.Platform.Messages.{Envelope}
use signalyard.Platform.Database.{Db, IdempotencyRow, Accepted}
use signalyard.Platform.World.{Env, World, next, statement, query_row, query}
use signalyard.Gateway.Keys.{Agent}
use signalyard.Gateway.Store.{
  idempotency_row, stored_response, save_idempotency_response, get_idempotency_response,
}
use signalyard.Gateway.Handlers.{Gateway, CollectRequest, accepted}
use signalyard.Gateway.Handlers.Ingest.{handle_collect, check_replay, replayed}

-- The map that the table stands for.
abbrev pub response_to : Db → String → ℕ → Option Accepted
response_to d key agent = stored_response (idempotency_row key agent d)

is_row : String → ℕ → IdempotencyRow Accepted → Bool
is_row key agent r = (r.key == key) && (r.agent_id == agent)

same-cases :
    (key k : String) (agent a : ℕ)
    → ((key ≡ k) × (agent ≡ a) × (((key == k) && (agent == a)) ≡ true))
      ⊎ (((key == k) && (agent == a)) ≡ false)
same-cases key k agent a = elim (Bool-cases ((key == k) && (agent == a))) [
  | inl e ↦ inl (ground (arith, eq_iff key k), ground arith, e)
  | inr e ↦ inr e
]

module _ (key : String) (agent : ℕ) (r : IdempotencyRow Accepted) where
  found-append :
      (rows : List (IdempotencyRow Accepted))
      → stored_response (find (is_row key agent) (rows ++ r ∷ []))
        ≡ (elim (find (is_row key agent) rows) as (λ _. Option Accepted) [
          | some x ↦ some x.response
          | none ↦ if is_row key agent r then some r.response else none
        ])
  unfolding find stored_response
  found-append [] = ground arith
  found-append (x ∷ rows) = ground (arith, found-append rows)

module _ (key : String) (agent : ℕ) (r : IdempotencyRow Accepted)
    (rows : List (IdempotencyRow Accepted)) where
  found-new :
      find (is_row key agent) rows ≡ none
      → is_row key agent r ≡ true
      → stored_response (find (is_row key agent) (rows ++ r ∷ [])) ≡ some r.response
  found-new e t = found-append key agent r rows ∙ rw (e, t) refl

  found-old :
      is_row key agent r ≡ false
      → stored_response (find (is_row key agent) (rows ++ r ∷ []))
        ≡ stored_response (find (is_row key agent) rows)
  unfolding stored_response
  found-old t =
      found-append key agent r rows ∙ (elim (Option-cases (find (is_row key agent) rows)) [
        | inl e ↦ rw (e, t) refl
        | inr (x, e) ↦ rw e refl
      ])

module _ ⦃env : Env⦄ where
  kept :
      (key : String) (agent event_id : ℕ) (r : Accepted) (w w' : World) (u : Unit {0})
      (x : IdempotencyRow Accepted)
      → idempotency_row key agent w.db ≡ some x
      → save_idempotency_response key agent event_id r w ≡ (ok u, w')
      → w'.db.idempotency_keys ≡ w.db.idempotency_keys
  unfolding save_idempotency_response statement
  kept key agent event_id r w w' u x e h = ground arith

  added :
      (key : String) (agent event_id : ℕ) (r : Accepted) (w w' : World) (u : Unit {0})
      → idempotency_row key agent w.db ≡ none
      → save_idempotency_response key agent event_id r w ≡ (ok u, w')
      → w'.db.idempotency_keys
        ≡ w.db.idempotency_keys
          ++ record { key = key; agent_id = agent; event_id = event_id; response = r } ∷ []
  unfolding save_idempotency_response statement
  added key agent event_id r w w' u e h = ground arith

  -- Saving a response that succeeds binds it to its key and agent where nothing was bound to them; a
  -- response that was saved before stays. Every other binding is as it was.
  pub response_to-save_idempotency_response :
      (key : String) (agent event_id : ℕ) (r : Accepted) (w w' : World) (u : Unit {0})
      → save_idempotency_response key agent event_id r w ≡ (ok u, w')
      → (k : String) (a : ℕ)
      → response_to w'.db k a ≡ (
          if (key == k) && (agent == a)
          then some (get_or (response_to w.db key agent) r)
          else response_to w.db k a)
  unfolding stored_response idempotency_row is_row
  response_to-save_idempotency_response key agent event_id r w w' u h k a =
      elim (same-cases key k agent a) [
        | inl (p, q, t) ↦ elim (Option-cases (idempotency_row key agent w.db)) [
          | inl e ↦
              rw (t, e, added key agent event_id r w w' u e h)
                (found-new k a _ w.db.idempotency_keys (rw (p, q) at e) t)
          | inr (x, e) ↦
              rw (t, e, kept key agent event_id r w w' u x e h)
                (ap stored_response (rw (p, q) at e))
        ]
        | inr t ↦ elim (Option-cases (idempotency_row key agent w.db)) [
          | inl e ↦
              rw (t, added key agent event_id r w w' u e h)
                (found-old k a _ w.db.idempotency_keys t)
          | inr (x, e) ↦ rw (t, kept key agent event_id r w w' u x e h) refl
        ]
      ]

  -- A request under a key that has a stored response is answered with it, status 200. Nothing is published
  -- or written: the state is as it was, but for the one call of the lookup, which is to succeed.
  pub handle_collect-replayed :
      (encodable : Envelope → Bool) (agent : Agent) (key : String) (body : Option CollectRequest)
      (s : Gateway) (r : Accepted)
      → (key == "") ≡ false
      → env.db_fails s.world.calls ≡ false
      → response_to s.world.db key agent.id ≡ some r
      → serve (handle_collect encodable agent key body) s
        ≡ (write_json 200 (accepted r), record s { world = next s.world })
  unfolding handle_collect check_replay replayed get_idempotency_response query_row query attempt
      ◌>>=◌ stored_response
  handle_collect-replayed encodable agent key body s r k f h = rw (k, f, h) refl
