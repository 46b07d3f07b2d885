-- ===== src/Webhook/Store.antt =====
-- internal/webhook/store.go: sources and deliveries.
use Prim.Native.String.{◌++◌ as cat}
use signalyard.Common.{
  ℕ, String, String_eq, ℕ_eq, Bool, ◌||◌, ◌&&◌, is_some, select, Option, none, some, List, [], ◌∷◌,
  ◌++◌, map, take, leb, ltb, get_or, ℤ, pos, negsuc, ◌==◌, if◌then◌else◌, find, update, order_by,
}
use signalyard.Platform.Exec.{Error, ok, Exec, ◌>>=◌, ◌>>◌, pure}
use signalyard.Platform.Json.{Object}
use signalyard.Platform.Messages.{Envelope}
use signalyard.Platform.Auth.{Crypto}
use signalyard.Platform.Database.{Db, SourceRow, DeliveryRow}
use signalyard.Platform.World.{Env, World, query, query_row, statement}

pub data Status : Type 0 where
  forwarded pending failed : Status

pub record Delivery : Type 0 where
  pub id : ℕ
  pub tool : String
  pub status : Status
  pub signature_valid : Bool
  pub raw_payload : Object
  pub normalized : Option Envelope
  pub error : String
  pub created_at : ℕ

-- COALESCE(d.http_status, 0)
unfoldable pub status_of : Option ℕ → Status
status_of none = pending
status_of (some code) = if code == 202 then forwarded else if code == 0 then pending else failed

unfoldable pub scan_delivery : Db → DeliveryRow → Delivery
unfolding status_of
scan_delivery d r = record {
  id = r.id;
  tool = elim (find (λ s. s.id == r.webhook_source_id) d.webhook_sources) [
    | none ↦ ""
    | some s ↦ s.name
  ];
  status = status_of r.http_status;
  signature_valid = r.signature_valid;
  raw_payload = r.raw;
  normalized = r.normalized;
  error = get_or r.error_message "";
  created_at = r.created_at;
}

-- JOIN webhook_sources
unfoldable pub has_source : Db → DeliveryRow → Bool
has_source d r = is_some (find (λ s. s.id == r.webhook_source_id) d.webhook_sources)

unfoldable pub find_delivery : ℕ → Db → Option DeliveryRow
unfolding has_source
find_delivery id d = find (λ r. (r.id == id) && has_source d r) d.webhook_deliveries

unfoldable pub scan_found : Db → Option DeliveryRow → Option Delivery
unfolding scan_delivery
scan_found d none = none
scan_found d (some r) = some (scan_delivery d r)

abbrev pub newer : DeliveryRow → DeliveryRow → Bool
newer a b = leb b.created_at a.created_at

unfoldable pub mark : ℕ → ℕ → Option String → Db → Db
mark id status message d = record d {
  webhook_deliveries =
      update (λ r. r.id == id)
        (λ r. record r { http_status = some status; error_message = message }) d.webhook_deliveries;
}

unfoldable pub limit_of : ℤ → ℕ
limit_of (negsuc n) = 100
limit_of (pos n) = if (n == 0) || ltb 500 n then 100 else n

module _ ⦃env : Env⦄ where
  unfoldable pub seed_source : ⦃crypto : Crypto⦄ → String → String → Exec Error World (Unit {0})
  seed_source ⦃crypto⦄ tool secret = statement λ n d.
      let path = cat "/webhooks/" tool in
      let hash = crypto.sha256 secret in
      let r : SourceRow = record {
        id = env.new_uuid n;
        name = tool;
        secret_hash = hash;
        endpoint_path = path;
      } in
      elim (find (λ s. s.endpoint_path == path) d.webhook_sources) [
        | some old ↦ (
          ok tt,
          record d {
            webhook_sources =
                update (λ s. s.endpoint_path == path) (λ s. record s { secret_hash = hash })
                  d.webhook_sources;
          },
        )
        | none ↦ (ok tt, record d { webhook_sources = d.webhook_sources ++ r ∷ [] })
      ]

  -- SeedSources: the tools with their secrets, in the order of Go's map.
  unfoldable pub seed_sources :
      ⦃crypto : Crypto⦄ → List (String × String) → Exec Error World (Unit {0})
  unfolding seed_source
  seed_sources [] = pure tt
  seed_sources ((tool, secret) ∷ rest) = do seed_source tool secret; seed_sources rest

  unfoldable pub source_id : String → Exec Error World SourceRow
  source_id tool = query_row (λ d. find (λ s. s.name == tool) d.webhook_sources)

  -- RecordDelivery: without a source nothing is recorded.
  unfoldable pub record_delivery :
      String
      → (signature_valid : Bool) → Object
      → Envelope
      → List (String × String)
      → Exec Error World ℕ
  unfolding source_id
  record_delivery tool signature_valid raw normalized headers = do
    source ← source_id tool
    statement λ n d.
        let r : DeliveryRow = record {
          id = env.new_uuid n;
          webhook_source_id = source.id;
          http_status = none;
          raw = raw;
          normalized = some normalized;
          headers = headers;
          signature_valid = signature_valid;
          error_message = none;
          created_at = env.now n;
        } in
        (ok r.id, record d { webhook_deliveries = d.webhook_deliveries ++ r ∷ [] })

  unfoldable pub mark_forwarded : ℕ → Exec Error World (Unit {0})
  unfolding mark
  mark_forwarded id = statement (λ n d. (ok tt, mark id 202 none d))

  unfoldable pub mark_failed : ℕ → String → Exec Error World (Unit {0})
  unfolding mark
  mark_failed id message = statement (λ n d. (ok tt, mark id 502 (some message) d))

  unfoldable pub list_deliveries : ℤ → Exec Error World (List Delivery)
  unfolding scan_delivery limit_of has_source
  list_deliveries limit = query λ d.
      map (scan_delivery d)
        (take (limit_of limit) (order_by newer (select (has_source d) d.webhook_deliveries)))

  unfoldable pub get_delivery : ℕ → Exec Error World Delivery
  unfolding find_delivery scan_found
  get_delivery id = query_row (λ d. scan_found d (find_delivery id d))
