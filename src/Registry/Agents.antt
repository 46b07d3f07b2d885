-- ===== src/Registry/Agents.antt =====
-- internal/registry/store.go: the agents and the metadata of their API keys.
use Prim.Native.String.{◌++◌ as cat}
use signalyard.Common.{
  ℕ, String, ℕ_eq, String_eq, Bool, true, false, Option, none, some, List, [], ◌∷◌, ◌++◌, map, leb,
  get_or, is_some, ◌==◌, if◌then◌else◌, select, find, update, order_by,
}
use signalyard.Platform.Exec.{Error, not_found, failed, ok, err, Exec}
use signalyard.Platform.Database.{
  Db, AgentRow, KeyRow, QuarantineRow, EventRow, IdempotencyRow, Accepted,
}
use signalyard.Platform.World.{Env, World, query, query_row, statement}

pub record AgentRecord : Type 0 where
  pub id : ℕ
  pub name : String
  pub slug : String
  pub description : String
  pub agent_type : String
  pub status : String
  pub contact_email : String
  pub capabilities : Option (List String)
  pub created_at : ℕ

pub record ApiKeyMeta : Type 0 where
  pub key_id : ℕ
  pub key_prefix : String
  pub label : String
  pub scopes : List String
  pub revoked : Bool
  pub created_at : ℕ

-- NULL is read as "" (COALESCE).
unfoldable pub scan_agent : Option (List String) → AgentRow → AgentRecord
scan_agent capabilities r = record {
  id = r.id;
  name = r.name;
  slug = r.slug;
  description = get_or r.description "";
  agent_type = r.agent_type;
  status = r.status;
  contact_email = get_or r.contact_email "";
  capabilities = capabilities;
  created_at = r.created_at;
}

unfoldable pub find_agent : ℕ → Db → Option AgentRow
find_agent id d = find (λ r. r.id == id) d.agents

unfoldable pub slug_taken : String → Db → Bool
slug_taken slug d = is_some (find (λ (r : AgentRow). r.slug == slug) d.agents)

abbrev newer : AgentRow → AgentRow → Bool
newer a b = leb b.created_at a.created_at

abbrev newer_key : KeyRow → KeyRow → Bool
newer_key a b = leb b.created_at a.created_at

found_agent : Option AgentRow → Option AgentRecord
unfolding scan_agent
found_agent none = none
found_agent (some r) = some (scan_agent r.capabilities r)

-- COALESCE(NULLIF($n, ''), column)
abbrev keep_if_empty : String → String → String
keep_if_empty new old = if new == "" then old else new

unfoldable pub updated_agent : (name status : String) → Option (List String) → AgentRow → AgentRow
updated_agent name status capabilities r = record r {
  name = keep_if_empty name r.name;
  status = keep_if_empty status r.status;
  capabilities = capabilities;
}

abbrev ne_agent : ℕ → ℕ → Bool
ne_agent id other = if other == id then false else true

abbrev pub forget_agent : ℕ → Option ℕ → Option ℕ
forget_agent id none = none
forget_agent id (some a) = if a == id then none else some a

-- The foreign keys: keys and idempotency keys CASCADE, quarantined and stored events SET NULL.
unfoldable pub drop_agent : ℕ → Db → Db
drop_agent id d = record d {
  agents = select (λ (r : AgentRow). ne_agent id r.id) d.agents;
  api_keys = select (λ (k : KeyRow). ne_agent id k.agent_id) d.api_keys;
  idempotency_keys =
      select (λ (k : IdempotencyRow Accepted). ne_agent id k.agent_id) d.idempotency_keys;
  quarantine_events =
      map (λ (q : QuarantineRow). record q { agent_id = forget_agent id q.agent_id })
        d.quarantine_events;
  events = map (λ (e : EventRow). record e { agent_id = forget_agent id e.agent_id }) d.events;
}

key_meta : KeyRow → ApiKeyMeta
key_meta k = record {
  key_id = k.id;
  key_prefix = k.key_prefix;
  label = k.label;
  scopes = k.scopes;
  revoked = is_some k.revoked_at;
  created_at = k.created_at;
}

module _ ⦃env : Env⦄ where
  unfoldable pub list_agents : Exec Error World (List AgentRecord)
  unfolding scan_agent
  list_agents = query (λ d. map (scan_agent none) (order_by newer d.agents))

  -- The contact email stays NULL. A slug that is taken violates the unique index.
  unfoldable pub create_agent :
      (name description : String) → List String → Exec Error World AgentRecord
  unfolding slug_taken scan_agent
  create_agent name description capabilities = statement λ n d.
      let r : AgentRow = record {
        id = env.new_uuid n;
        name = name;
        slug = cat name (cat "-" (env.short_uuid n));
        description = some description;
        agent_type = "custom";
        status = "active";
        contact_email = none;
        capabilities = some capabilities;
        created_at = env.now n;
      } in
      if slug_taken r.slug d
      then (err failed, d)
      else (ok (scan_agent (some capabilities) r), record d { agents = d.agents ++ r ∷ [] })

  unfoldable pub get_agent : ℕ → Exec Error World AgentRecord
  unfolding find_agent found_agent
  get_agent id = query_row (λ d. found_agent (find_agent id d))

  unfoldable pub update_agent :
      ℕ → (name status : String) → Option (List String) → Exec Error World (Unit {0})
  unfolding find_agent updated_agent
  update_agent id name status capabilities = statement λ n d. elim (find_agent id d) [
    | none ↦ (err not_found, d)
    | some r ↦ (
      ok tt,
      record d {
        agents = update (λ x. x.id == id) (updated_agent name status capabilities) d.agents;
      },
    )
  ]

  unfoldable pub delete_agent : ℕ → Exec Error World (Unit {0})
  unfolding find_agent drop_agent
  delete_agent id = statement λ n d. elim (find_agent id d) [
    | none ↦ (err not_found, d)
    | some r ↦ (ok tt, drop_agent id d)
  ]

  unfoldable pub list_api_keys_for_agent : ℕ → Exec Error World (List ApiKeyMeta)
  unfolding key_meta
  list_api_keys_for_agent id = query (λ d.
      map key_meta (order_by newer_key (select (λ (k : KeyRow). k.agent_id == id) d.api_keys)))
