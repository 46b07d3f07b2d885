-- ===== src/Gateway/Dispatch.antt =====
-- What every request to the gateway keeps of the tables, given that each of its writes keeps it: any
-- relation of the tables before and after that is a preorder.
pub mod Sessions
pub mod Ingest
pub mod Routes
pub mod Frame
use signalyard.Common.{
  ℕ, String, Bool, true, false, Option, none, some, List, ℤ, Bool-cases, inl, inr,
}
use signalyard.Platform.Exec.{
  Error, not_found, conflict, failed, Result, ok, err, Exec, ◌>>=◌, ◌>>◌, Response, Handler,
}
use signalyard.Platform.Json.{Object}
use signalyard.Platform.Database.{Db, KeyRow, Accepted}
use signalyard.Platform.Messages.{Envelope}
use signalyard.Platform.Auth.{Claims, Crypto, Request}
use signalyard.Platform.World.{Env, World}
use signalyard.Platform.Keeps.{Preorder, Keeps, Keeps-if, Keeps-raise}
use signalyard.Platform.KeepsDb.{tables, tables_rules}
use signalyard.Gateway.Keys.{
  Agent, scanned, create_agent, get_agent, create_api_key, get_api_key_by_hash, get_api_key_by_id,
  revoke_api_key, touch_api_key,
}
use signalyard.Registry.Agents.{find_agent}
use signalyard.Gateway.Store.{
  query_events, upsert_user_by_oidc, get_idempotency_response, save_idempotency_response,
}
use signalyard.Gateway.Auth.{
  Config, Identities, User, generate_api_key, issue_agent_token, issue_session_token,
  verify_oidc_token, agent_by_token, agent_by_key, after_key_lookup, authenticate, claimed_user,
  session_of, require_role,
}
use signalyard.Gateway.Handlers
use signalyard.Gateway.Handlers.{Gateway, Reply, at_world, decoded, parse_id}

pub record WritesKeep ⦃env : Env⦄ (R : Db → Db → Type 0) : Type 0 where
  pub add_agent : (f : List ℕ → String) (n e h d : String) → Keeps tables R (create_agent f n e h d)
  pub add_key :
      (a : ℕ) (l : String) (s : List String) (h p : String)
      → Keeps tables R (create_api_key a l s h p)
  pub revoke : (id : ℕ) → Keeps tables R (revoke_api_key id)
  pub touch : (id : ℕ) → Keeps tables R (touch_api_key id)
  pub login : (e s n : String) → Keeps tables R (upsert_user_by_oidc e s n)
  pub save :
      (k : String) (a e : ℕ) (r : Accepted) → Keeps tables R (save_idempotency_response k a e r)

-- The tables of a state of the gateway.
abbrev pub tables_of : Gateway → Db
tables_of s = s.world.db

module _ {R : Db → Db → Type 0} {E A : Type 0} where
  pub Keeps-at_world : (m : Exec E World A) → Keeps tables R m → Keeps tables_of R (at_world m)
  Keeps-at_world m k = record { at = λ s. k.at s.world }

module _ {R : Db → Db → Type 0} (o : Preorder R) {S : Type 0} {view : S → Db} where
  pub Keeps-decoded :
      {A : Type 0} (body : Option A) (msg : String) → Keeps view R (decoded body msg)
  unfolding decoded
  Keeps-decoded none msg = search (tables_rules, o)
  Keeps-decoded (some a) msg = search (tables_rules, o)

module _ ⦃env : Env⦄ {R : Db → Db → Type 0} (o : Preorder R) where
  pub Keeps-parse_id : (text msg : String) → Keeps tables R (parse_id text msg)
  unfolding parse_id
  Keeps-parse_id text msg = search (tables_rules, o)

pub ruleset gateway_rules = (tables_rules, Keeps-decoded, Keeps-parse_id, Keeps-at_world)

-- Authentication: touching the key is its only write.
module _ ⦃env : Env⦄ ⦃crypto : Crypto⦄ {R : Db → Db → Type 0} (o : Preorder R)
    (k : WritesKeep R) where
  Keeps-scanned : (r : signalyard.Platform.Database.AgentRow) → Keeps tables R (scanned r)
  unfolding scanned
  Keeps-scanned r = record { at = λ w. o.reflexive w.db }

  pub Keeps-get_agent : (id : ℕ) → Keeps tables R (get_agent id)
  unfolding get_agent
  Keeps-get_agent id = search (tables_rules, o, Keeps-scanned)

  module _ {B : Type 0} where
    Keeps-agent_by_token :
        (cfg : Config) (token : String) → Keeps tables R (agent_by_token {B = B} cfg token)
    unfolding agent_by_token
    Keeps-agent_by_token cfg token = search (tables_rules, o, Keeps-get_agent)

    Keeps-agent_by_key : (key : KeyRow) → Keeps tables R (agent_by_key {B = B} key)
    unfolding agent_by_key
    Keeps-agent_by_key key = search (tables_rules, o, Keeps-get_agent, k.touch) depth 9

    Keeps-after_lookup :
        (cfg : Config) (token : String) (r : Result Error KeyRow)
        → Keeps tables R (after_key_lookup {B = B} cfg token r)
    unfolding after_key_lookup
    Keeps-after_lookup cfg token (ok key) = Keeps-agent_by_key key
    Keeps-after_lookup cfg token (err not_found) = Keeps-agent_by_token cfg token
    Keeps-after_lookup cfg token (err conflict) = search (tables_rules, o)
    Keeps-after_lookup cfg token (err failed) = search (tables_rules, o)

    pub Keeps-authenticate :
        (cfg : Config) (r : Request) → Keeps tables R (authenticate {B = B} cfg r)
    unfolding authenticate get_api_key_by_hash
    Keeps-authenticate cfg r = search (tables_rules, o, Keeps-after_lookup)

    Keeps-claimed :
        (cfg : Config) (token : String) → Keeps tables R (claimed_user {B = B} cfg token)
    unfolding claimed_user
    Keeps-claimed cfg token = search (tables_rules, o)

    pub Keeps-session : (cfg : Config) (r : Request) → Keeps tables R (session_of {B = B} cfg r)
    unfolding session_of
    Keeps-session cfg r = search (tables_rules, o, Keeps-claimed)

    pub Keeps-require_role :
        (roles : List String) (next : User → Handler World B) (u : User)
        → Keeps tables R (next u)
        → Keeps tables R (require_role roles next u)
    unfolding require_role
    Keeps-require_role roles next u h = Keeps-if o _ _ _ (Keeps-raise o _) h
