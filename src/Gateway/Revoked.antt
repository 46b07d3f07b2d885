-- ===== src/Gateway/Revoked.antt =====
-- API keys at the gateway after they were revoked (internal/coreapi/store.go and auth.go).
use signalyard.Common.{
  ℕ, ◌≡◌, refl, inl, inr, String, String_eq, ℕ_eq, Bool, true, false, Option, none, some, List, [],
  ◌∷◌, ◌==◌, arith, is_some, find, update, count, Bool-cases,
}
use signalyard.Platform.Exec.{Result, ok, err, ◌>>=◌}
use signalyard.Platform.Database.{Db, KeyRow}
use signalyard.Platform.World.{Env, World, statement, query, query_row, time_now}
use signalyard.Platform.Auth.{Crypto, Request, extract_token}
use signalyard.Gateway.Auth.{Config, hash_api_key, authenticate, revoked_or_expired}
use signalyard.Gateway.Keys.{revocable, key_by_hash, revoke_api_key, get_api_key_by_hash}

abbrev pub is_ok : {E A : Type 0} → Result E A → Bool
is_ok (ok a) = true
is_ok (err e) = false

count-revoked :
    (id t : ℕ) (rows : List KeyRow)
    → count (revocable id) (update (revocable id) (λ k. record k { revoked_at = some t }) rows) ≡ 0
unfolding count update
count-revoked id t [] = refl
count-revoked id t (k ∷ rows) = ground (arith, count-revoked id t rows)

found-revoked :
    (id : ℕ) (hash : String) (k : KeyRow) (rows : List KeyRow)
    → count (revocable id) rows ≡ 0
    → find (λ x. x.key_hash == hash) rows ≡ some k
    → k.id ≡ id
    → is_some k.revoked_at ≡ true
unfolding count find
found-revoked id hash k [] n f e = ground arith
found-revoked id hash k (x ∷ rows) n f e = ground (arith, found-revoked id hash k rows)

key-revoked :
    (id : ℕ) (hash : String) (k : KeyRow) (d : Db)
    → count (revocable id) d.api_keys ≡ 0
    → key_by_hash hash d ≡ some k
    → k.id ≡ id
    → is_some k.revoked_at ≡ true
unfolding key_by_hash
key-revoked id hash k d n f e = found-revoked id hash k d.api_keys n f e

some-of : (o : Option ℕ) → is_some o ≡ true → (t : ℕ) × (o ≡ some t)
some-of none h = ground arith
some-of (some t) h = (t, refl)

module _ ⦃env : Env⦄ where
  revoke-none_live :
      (id : ℕ) (w w' : World) (u : Unit {0})
      → revoke_api_key id w ≡ (ok u, w')
      → count (revocable id) w'.db.api_keys ≡ 0
  unfolding revoke_api_key statement
  revoke-none_live id w w' u h = ground (arith, count-revoked id (env.now w.calls) w.db.api_keys)

-- Once a key has been revoked, no request with its token passes RequireAPIKey, whatever else fails.
pub authenticate-revoke_api_key :
    ⦃env : Env⦄ ⦃crypto : Crypto⦄ (B : Type 0) (id : ℕ) (w w' : World) (u : Unit {0}) (cfg : Config)
    (r : Request) (k : KeyRow)
    → revoke_api_key id w ≡ (ok u, w')
    → key_by_hash (hash_api_key cfg.hec_token_salt (extract_token r)) w'.db ≡ some k
    → k.id ≡ id
    → is_ok (authenticate {B = B} cfg r w').0 ≡ false
unfolding authenticate ◌>>=◌ get_api_key_by_hash query_row query revoked_or_expired time_now
authenticate-revoke_api_key ⦃env = env⦄ B id w w' u cfg r k h f e =
    let (t, v) =
      some-of k.revoked_at (key-revoked id _ k w'.db (revoke-none_live id w w' u h) f e) in
    elim (Bool-cases (extract_token r == "")) [
      | inl a ↦ rw a refl
      | inr a ↦ elim (Bool-cases (env.db_fails w'.calls)) [
        | inl b ↦ rw (a, b) refl
        | inr b ↦ rw (a, b, f, v) refl
      ]
    ]
