-- ===== src/Gateway/Store.antt =====
-- internal/coreapi/store.go: events, users and idempotency keys.
use signalyard.Common.{
  ℕ, String, String_eq, ℕ_eq, Bool, ◌&&◌, ◌||◌, Option, none, some, List, [], ◌∷◌, ◌++◌, map, take,
  leb, ltb, is_some, ℤ, pos, negsuc, ◌==◌, if◌then◌else◌, select, find, update, order_by,
}
use signalyard.Platform.Exec.{Error, failed, ok, err, Exec}
use signalyard.Platform.Json.{Object}
use signalyard.Platform.Database.{Db, EventRow, UserRow, IdempotencyRow, Accepted}
use signalyard.Platform.World.{Env, World, query, query_row, statement}
use signalyard.Registry.Agents.{find_agent}

pub record Event : Type 0 where
  pub id : ℕ
  pub agent_id : Option ℕ
  pub category : String
  pub source : String
  pub timestamp : ℕ
  pub payload : Object
  pub created_at : ℕ

-- `limit <= 0 || limit > 1000` gives the default.
unfoldable pub limit_of : ℤ → ℕ
limit_of (negsuc n) = 100
limit_of (pos n) = if (n == 0) || ltb 1000 n then 100 else n

-- JOIN categories: an event without a category is not returned.
unfoldable pub has_category : Db → EventRow → Bool
has_category d e = is_some (find (λ c. c.id == e.category_id) d.categories)

unfoldable pub event_category : Db → EventRow → String
event_category d e = elim (find (λ c. c.id == e.category_id) d.categories) [
  | none ↦ ""
  | some c ↦ c.name
]

-- The WHERE clause; an empty category and a zero time are no condition.
unfoldable pub in_query : Db → String → (start stop : ℕ) → EventRow → Bool
unfolding event_category
in_query d category start stop e =
    ((category == "") || (event_category d e == category))
    && ((start == 0) || leb start e.occurred_at)
    && ((stop == 0) || leb e.occurred_at stop)

unfoldable pub scan_event : Db → EventRow → Event
unfolding event_category
scan_event d e = record {
  id = e.id;
  agent_id = e.agent_id;
  category = event_category d e;
  source = e.source;
  timestamp = e.occurred_at;
  payload = e.normalized_payload;
  created_at = e.created_at;
}

abbrev pub later : EventRow → EventRow → Bool
later a b = leb b.occurred_at a.occurred_at

abbrev pub user_with : String → UserRow → Bool
user_with subject u = u.oidc_subject == subject

unfoldable pub idempotency_row : String → ℕ → Db → Option (IdempotencyRow Accepted)
idempotency_row key agent_id d =
    find (λ (r : IdempotencyRow Accepted). (r.key == key) && (r.agent_id == agent_id))
      d.idempotency_keys

unfoldable pub stored_response : Option (IdempotencyRow Accepted) → Option Accepted
stored_response none = none
stored_response (some r) = some r.response

module _ ⦃env : Env⦄ where
  unfoldable pub query_events : String → (start stop : ℕ) → ℤ → Exec Error World (List Event)
  unfolding has_category in_query scan_event limit_of
  query_events category start stop limit = query λ d. map (scan_event d) (
      take (limit_of limit) (
        order_by later
          (select (in_query d category start stop) (select (has_category d) d.events))))

  -- ON CONFLICT (oidc_subject); an email that is taken violates its own index.
  unfoldable pub upsert_user_by_oidc :
      (email subject display_name : String) → Exec Error World UserRow
  upsert_user_by_oidc email subject display_name = statement λ n d.
      let touched : UserRow → UserRow =
        λ u. record u { last_login_at = env.now n; display_name = display_name } in
      let new : UserRow = record {
        id = env.new_uuid n;
        email = email;
        display_name = display_name;
        oidc_subject = subject;
        role = "viewer";
        last_login_at = env.now n;
      } in
      elim (find (user_with subject) d.users) [
        | some u ↦ (ok (touched u), record d { users = update (user_with subject) touched d.users })
        | none ↦
            if is_some (find (λ u. u.email == email) d.users)
            then (err failed, d)
            else (ok new, record d { users = d.users ++ new ∷ [] })
      ]

  unfoldable pub get_idempotency_response : String → ℕ → Exec Error World Accepted
  unfolding idempotency_row stored_response
  get_idempotency_response key agent_id =
      query_row (λ d. stored_response (idempotency_row key agent_id d))

  -- ON CONFLICT (key, agent_id) DO NOTHING
  unfoldable pub save_idempotency_response :
      String → (agent_id event_id : ℕ) → Accepted → Exec Error World (Unit {0})
  unfolding idempotency_row find_agent
  save_idempotency_response key agent_id event_id response = statement λ n d.
      let r : IdempotencyRow Accepted = record {
        key = key;
        agent_id = agent_id;
        event_id = event_id;
        response = response;
      } in
      if is_some (idempotency_row key agent_id d)
      then (ok tt, d)
      else if is_some (find_agent agent_id d)
      then (ok tt, record d { idempotency_keys = d.idempotency_keys ++ r ∷ [] })
      else (err failed, d)
