-- ===== src/Gateway/Dispatch/Frame.antt =====
-- The writes of the gateway are to agents, keys, users and idempotency keys.
use signalyard.Common.{ℕ, ◌≡◌, refl, sym, subst, String, String_eq, ℕ_eq, List, arith}
use signalyard.Platform.Exec.{Error, Result}
use signalyard.Platform.Database.{Db, AgentRow, KeyRow, UserRow, IdempotencyRow, Accepted}
use signalyard.Platform.World.{Env, statement}
use signalyard.Platform.Keeps.{Preorder, Keeps, Keeps-ignore}
use signalyard.Platform.KeepsDb.{tables, Keeps-statement}
use signalyard.Gateway.Keys.{create_agent, create_api_key, revoke_api_key, touch_api_key}
use signalyard.Gateway.Store.{upsert_user_by_oidc, save_idempotency_response}
use signalyard.Gateway.Dispatch.{WritesKeep}

-- `R` relates tables that differ in these four at most.
module _ ⦃env : Env⦄ {R : Db → Db → Type 0} (o : Preorder R)
    (frame : (d : Db) (a : List AgentRow) (k : List KeyRow) (u : List UserRow)
        (i : List (IdempotencyRow Accepted))
      → R d (record d { agents = a; api_keys = k; users = u; idempotency_keys = i })) where
  abbrev IsFramed : {A : Type 0} → (ℕ → Db → Result Error A × Db) → Type 0
  IsFramed f =
      (n : ℕ) (d : Db)
      → (f n d).1 ≡ record d {
        agents = (f n d).1.agents;
        api_keys = (f n d).1.api_keys;
        users = (f n d).1.users;
        idempotency_keys = (f n d).1.idempotency_keys;
      }

  framed :
      {A : Type 0} (f : ℕ → Db → Result Error A × Db) → IsFramed f → Keeps tables R (statement f)
  framed f h = Keeps-statement o f λ n d. subst (R d) (sym (h n d)) (frame d _ _ _ _)

  add_agent : (f : List ℕ → String) (n e h d : String) → Keeps tables R (create_agent f n e h d)
  unfolding create_agent
  add_agent f n e h d = record { at = λ w. (framed _ (λ k x. ground arith)).at _ }

  pub writes : WritesKeep R
  unfolding create_api_key revoke_api_key touch_api_key upsert_user_by_oidc
      save_idempotency_response
  writes = record {
    add_agent = add_agent;
    add_key = λ a l s h p. framed _ (λ n d. ground arith);
    revoke = λ id. framed _ (λ n d. ground arith);
    touch = λ id. Keeps-ignore _ (framed _ (λ n d. refl));
    login = λ e s n. framed _ (λ n d. ground arith);
    save = λ k a e r. framed _ (λ n d. ground arith);
  }
