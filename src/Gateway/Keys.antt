-- ===== src/Gateway/Keys.antt =====
-- internal/coreapi/store.go: agents and API keys.
use Prim.Native.String.{◌++◌ as cat}
use signalyard.Common.{
  ℕ, zero, suc, String, String_eq, ℕ_eq, Bool, true, false, ◌&&◌, Option, none, some, List, [], ◌∷◌,
  ◌++◌, is_some, codes, ◌==◌, if◌then◌else◌, find, update, count,
}
use signalyard.Platform.Exec.{Error, not_found, failed, Result, ok, err, Exec, ◌>>=◌, ignore}
use signalyard.Platform.Database.{Db, AgentRow, KeyRow}
use signalyard.Platform.World.{Env, World, query_row, statement}
use signalyard.Registry.Agents.{find_agent, slug_taken}
use signalyard.Gateway.Slug.{slug_stem}

pub record Agent : Type 0 where
  pub id : ℕ
  pub name : String
  pub slug : String
  pub description : String
  pub agent_type : String
  pub status : String
  pub contact_email : String
  pub created_at : ℕ

-- Scan into Go strings: NULL in the description or the email is an error.
abbrev pub scan_strings : AgentRow → Option String → Option String → Result Error Agent
scan_strings r none email = err failed
scan_strings r (some description) none = err failed
scan_strings r (some description) (some email) = ok (record {
  id = r.id;
  name = r.name;
  slug = r.slug;
  description = description;
  agent_type = r.agent_type;
  status = r.status;
  contact_email = email;
  created_at = r.created_at;
})

unfoldable pub scan_agent : AgentRow → Result Error Agent
scan_agent r = scan_strings r r.description r.contact_email

abbrev pub is_null : Option ℕ → Bool
is_null none = true
is_null (some t) = false

abbrev pub revocable : ℕ → KeyRow → Bool
revocable id k = (k.id == id) && is_null k.revoked_at

unfoldable pub find_key : ℕ → Db → Option KeyRow
find_key id d = find (λ k. k.id == id) d.api_keys

unfoldable pub key_by_hash : String → Db → Option KeyRow
key_by_hash hash d = find (λ k. k.key_hash == hash) d.api_keys

module _ ⦃env : Env⦄ where
  unfoldable pub scanned : AgentRow → Exec Error World Agent
  unfolding scan_agent
  scanned r w = (scan_agent r, w)

  unfoldable pub agent_type_of : String → String
  agent_type_of hint = if hint == "" then "custom" else hint

  -- CreateAgent: status pending; a slug that is taken violates the unique index.
  unfoldable pub create_agent :
      (string_of_runes : List ℕ → String) (name email category_hint description : String)
      → Exec Error World Agent
  unfolding scan_agent slug_taken agent_type_of
  create_agent string_of_runes name email category_hint description w =
      let slug =
        cat (string_of_runes (slug_stem (codes name))) (cat "-" (env.short_uuid w.calls)) in
      statement
        (λ n d.
          let r : AgentRow = record {
            id = env.new_uuid n;
            name = name;
            slug = slug;
            description = some description;
            agent_type = agent_type_of category_hint;
            status = "pending";
            contact_email = some email;
            capabilities = none;
            created_at = env.now n;
          } in
          if slug_taken slug d
          then (err failed, d)
          else (scan_agent r, record d { agents = d.agents ++ r ∷ [] }))
        (record w { calls = suc w.calls })

  unfoldable pub get_agent : ℕ → Exec Error World Agent
  unfolding find_agent scanned
  get_agent id = do r ← query_row (find_agent id); scanned r

  -- The foreign key to the agent and the unique hash are checked.
  unfoldable pub create_api_key :
      ℕ → (label : String) → List String → (key_hash key_prefix : String) → Exec Error World KeyRow
  unfolding find_agent key_by_hash
  create_api_key agent_id label scopes key_hash key_prefix = statement λ n d.
      let r : KeyRow = record {
        id = env.new_uuid n;
        agent_id = agent_id;
        key_hash = key_hash;
        key_prefix = key_prefix;
        label = label;
        scopes = scopes;
        revoked_at = none;
        last_used_at = none;
        expires_at = none;
        created_at = env.now n;
      } in
      if is_some (key_by_hash key_hash d)
      then (err failed, d)
      else if is_some (find_agent agent_id d)
      then (ok r, record d { api_keys = d.api_keys ++ r ∷ [] })
      else (err failed, d)

  unfoldable pub get_api_key_by_hash : String → Exec Error World KeyRow
  unfolding key_by_hash
  get_api_key_by_hash hash = query_row (key_by_hash hash)

  unfoldable pub get_api_key_by_id : ℕ → Exec Error World KeyRow
  unfolding find_key
  get_api_key_by_id id = query_row (find_key id)

  -- RevokeAPIKey: a key that is revoked already counts as missing.
  unfoldable pub revoke_api_key : ℕ → Exec Error World (Unit {0})
  revoke_api_key id = statement λ n d. elim (count (revocable id) d.api_keys) [
    | zero ↦ (err not_found, d)
    | suc k ↦ (
      ok tt,
      record d {
        api_keys =
            update (revocable id) (λ k. record k { revoked_at = some (env.now n) }) d.api_keys;
      },
    )
  ]

  unfoldable pub touch_api_key : ℕ → Exec Error World (Unit {0})
  touch_api_key id = ignore {E = Error} {F = Error} (
      statement λ n d. (
        ok tt,
        record d {
          api_keys =
              update (λ k. k.id == id) (λ k. record k { last_used_at = some (env.now n) })
                d.api_keys;
        },
      ))
