-- ===== src/Webhook/Server.antt =====
-- internal/webhook/server.go: the receivers, and the API of deliveries behind the token middleware.
use Prim.Native.String.{◌++◌}
use signalyard.Common.{
  ℕ, String, String_eq, Bool, true, false, not, Option, none, some, List, [], ◌∷◌, pos, ◌==◌,
  if◌then◌else◌,
}
use signalyard.Platform.Exec.{
  or_fail, Error, not_found, Result, ok, err, Exec, ◌>>=◌, ◌>>◌, pure, raise, fail_if, ◌or_else◌,
  ignore, attempt, Response, write_json, write_error, Handler,
}
use signalyard.Platform.Json.{Object}
use signalyard.Platform.Messages.{Envelope, envelope, dead_letter}
use signalyard.Platform.Auth.{Crypto}
use signalyard.Platform.World.{Env, World, publish, fresh_uuid, time_now}
use signalyard.Webhook.Verify.{Tool, tool_name, Config, secret_for, Headers, verify_signature}
use signalyard.Webhook.Normalize.{normalize}
use signalyard.Webhook.Store.{
  Status, forwarded, Delivery, record_delivery, mark_forwarded, mark_failed, list_deliveries,
  get_delivery,
}

pub data Reply : Type 0 where
  healthy : Reply
  accepted : String → Reply  -- event_id
  deliveries : List Delivery → Reply
  delivery : Delivery → Reply
  retried : String → Reply  -- delivery_id

unfoldable pub decoded : {A : Type 0} → Option A → String → Exec (Response Reply) World A
decoded none msg = raise (write_error 400 msg)
decoded (some a) msg = pure a

abbrev pub lookup_error : Error → Response Reply
lookup_error not_found = write_error 404 "delivery not found"
lookup_error e = write_error 500 "lookup failed"

abbrev pub present : String → String → List (String × String) → List (String × String)
present header value rest = if value == "" then rest else (header, value) ∷ rest

-- The headers that are kept with a delivery.
unfoldable pub kept_headers : Headers → List (String × String)
kept_headers h = present "X-GitHub-Event" h.github_event (
    present "X-GitHub-Delivery" h.github_delivery
      (present "User-Agent" h.user_agent (present "Content-Type" h.content_type [])))

module _ ⦃env : Env⦄ where
  unfoldable pub forward : String → Envelope → Exec Error World (Unit {0})
  forward category e = publish ("events.ingest." ++ category) (envelope e)

  unfoldable pub send_dead_letter : Tool → ℕ → Envelope → Exec Error World (Unit {0})
  send_dead_letter tool id e = do
    now ← time_now
    publish "webhooks.deadletter" (
        dead_letter (record {
          tool = tool_name tool;
          delivery_id = env.uuid_string id;
          error = env.publish_error;
          normalized = e;
          failed_at = now;
        }))

  unfoldable pub after_forward : Tool → ℕ → Envelope → Result Error (Unit {0}) → Handler World Reply
  after_forward tool id e (ok u) = do
    ignore {E = Error} (mark_forwarded id)
    pure (write_json 202 (accepted e.event_id))
  after_forward tool id e (err failure) = do
    ignore {E = Error} (mark_failed id env.publish_error)
    ignore {E = Error} (send_dead_letter tool id e)
    raise (write_error 502 "failed to forward event")

  -- handleWebhook after the signature: `raw` is the decoded body, `encodable` is json.Marshal's verdict.
  unfoldable pub accept_webhook :
      (encodable : Envelope → Bool) → Tool → Headers → Option Object → Handler World Reply
  unfolding after_forward kept_headers
  accept_webhook encodable tool h decoded_body = do
    raw ← decoded decoded_body "payload must be a JSON object"
    now ← time_now
    id ← fresh_uuid
    let e = record (normalize now tool h raw) { event_id = env.uuid_string id }
    fail_if (not (encodable e)) (write_error 400 "failed to normalize payload")
    delivery_id ←
        record_delivery (tool_name tool) true raw e (kept_headers h)
        or_else (λ _. write_error 500 "failed to record delivery")
    sent ← attempt (forward e.category e)
    after_forward tool delivery_id e sent

  -- handleWebhook: the body as it is read, at most 10 MiB, `none` where reading fails; `parse` is
  -- json.Unmarshal.
  unfoldable pub handle_webhook :
      ⦃crypto : Crypto⦄
      → (encodable : Envelope → Bool) → (parse : String → Option Object) → Config
      → Tool
      → Headers
      → Option String
      → Handler World Reply
  unfolding accept_webhook
  handle_webhook encodable parse cfg tool h read = do
    body ← decoded read "empty or unreadable payload"
    fail_if (body == "") (write_error 400 "empty or unreadable payload")
    fail_if (not (verify_signature tool h body (secret_for cfg tool)))
        (write_error 401 "invalid webhook signature")
    accept_webhook encodable tool h (parse body)

  unfoldable pub handle_list_deliveries : Handler World Reply
  handle_list_deliveries = do
    out ← list_deliveries (pos 100) or_else (λ _. write_error 500 "list failed")
    pure (write_json 200 (deliveries out))

  unfoldable pub parse_id : String → Exec (Response Reply) World ℕ
  parse_id text = or_fail (env.uuid_parse text) (write_error 400 "invalid delivery_id")

  unfoldable pub handle_get_delivery : String → Handler World Reply
  unfolding parse_id
  handle_get_delivery text = do
    id ← parse_id text
    d ← get_delivery id or_else lookup_error
    pure (write_json 200 (delivery d))

  unfoldable pub after_retry : ℕ → Result Error (Unit {0}) → Handler World Reply
  after_retry id (ok u) = do
    ignore {E = Error} (mark_forwarded id)
    pure (write_json 200 (retried (env.uuid_string id)))
  after_retry id (err failure) = do
    ignore {E = Error} (mark_failed id env.publish_error)
    raise (write_error 502 "retry forward failed")

  abbrev pub is_forwarded : Status → Bool
  is_forwarded forwarded = true
  is_forwarded _ = false

  unfoldable pub handle_retry_delivery : String → Handler World Reply
  unfolding parse_id after_retry
  handle_retry_delivery text = do
    id ← parse_id text
    d ← get_delivery id or_else lookup_error
    fail_if (is_forwarded d.status) (write_error 400 "delivery already forwarded")
    e ← decoded d.normalized "stored delivery has no normalized event"
    sent ← attempt (forward e.category e)
    after_retry id sent
