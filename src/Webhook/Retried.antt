-- ===== src/Webhook/Retried.antt =====
-- A failed forward and a retry (internal/webhook/server.go and store.go).
use Prim.Native.String.{◌++◌}
use signalyard.Common as C
use signalyard.Common.{
  ℕ, suc, ◌+◌, ◌≡◌, refl, String, ℕ_eq, String_eq, ◌==◌, Bool, true, false, Option, none, some,
  List, [], ◌∷◌, find, update, Option-cases, inl, inr, ◌&&◌,
}
use signalyard.Common.ListLaws.{find-update_more}
use signalyard.Platform.Exec.{
  failed, err, ◌>>=◌, ◌or_else◌, ignore, pure, raise, attempt, fail_if, or_fail, serve, write_error,
  write_json,
}
use signalyard.Platform.Messages.{Envelope, envelope, dead_letter}
use signalyard.Platform.Database.{Db, DeliveryRow}
use signalyard.Platform.World.{Env, World, statement, publish, next, query_row, query, time_now}
use signalyard.Webhook.Verify.{Tool, tool_name}
use signalyard.Webhook.Store.{
  find_delivery, mark_failed, mark_forwarded, mark, get_delivery, scan_found, scan_delivery,
  status_of,
}
use signalyard.Webhook.Server.{
  retried, decoded, parse_id, forward, send_dead_letter, after_forward, after_retry,
  handle_retry_delivery, is_forwarded,
}

left_true : (a b : Bool) → (a && b) ≡ true → a ≡ true
left_true true b h = refl
left_true false b h = h

-- The row of a delivery that was marked.
find_delivery-mark :
    (id status : ℕ) (message : Option String) (d : Db) (r : DeliveryRow)
    → find_delivery id d ≡ some r
    → find_delivery id (mark id status message d)
      ≡ some (record r { http_status = some status; error_message = message })
unfolding find_delivery mark
find_delivery-mark id status message d r h =
    find-update_more _ _ _ r d.webhook_deliveries (λ y. refl) (λ y g. left_true _ _ g) h

module _ ⦃env : Env⦄ where
  -- A delivery that cannot be forwarded answers 502. Where the database works and JetStream takes the dead
  -- letter, the delivery is stored as failed (502) with JetStream's error, and the event is the content of a
  -- message on the subject webhooks.deadletter, the last one.
  pub after_forward-failed :
      (tool : Tool) (id : ℕ) (e : Envelope) (w : World) (r : DeliveryRow)
      → ((n : ℕ) → env.db_fails n ≡ false)
      → env.nats_fails (suc (suc w.calls)) ≡ false
      → find_delivery id w.db ≡ some r
      → let (answer, w') = after_forward tool id e (err failed) w in
        (answer ≡ err (write_error 502 "failed to forward event"))
        × (find_delivery id w'.db
            ≡ some (record r { http_status = some 502; error_message = some env.publish_error }))
        × (w'.published
            ≡ C.◌++◌ w.published (
                record {
                  subject = "webhooks.deadletter";
                  content = dead_letter (record {
                    tool = tool_name tool;
                    delivery_id = env.uuid_string id;
                    error = env.publish_error;
                    normalized = e;
                    failed_at = env.now (suc w.calls);
                  });
                }
                ∷ []))
  unfolding after_forward ◌>>=◌ ignore mark_failed mark statement send_dead_letter time_now publish
      raise find_delivery
  after_forward-failed tool id e w r f m h = (
    refl,
    rw (f w.calls, m) (find_delivery-mark id 502 (some env.publish_error) w.db r h),
    rw (f w.calls, m) refl,
  )

  -- The row of a delivery that was forwarded.
  abbrev sent : DeliveryRow → DeliveryRow
  sent r = record r { http_status = some 202; error_message = none }

  retry-sent :
      (text : String) (id : ℕ) (e : Envelope) (w : World) (r : DeliveryRow)
      → env.uuid_parse text ≡ some id
      → ((n : ℕ) → env.db_fails n ≡ false)
      → ((n : ℕ) → env.nats_fails n ≡ false)
      → find_delivery id w.db ≡ some r
      → r.normalized ≡ some e
      → is_forwarded (status_of r.http_status) ≡ false
      → let (answer, w') = serve (handle_retry_delivery text) w in
        (answer ≡ write_json 200 (retried (env.uuid_string id)))
        × (w'.published
            ≡ C.◌++◌ w.published
                (record { subject = "events.ingest." ++ e.category; content = envelope e } ∷ []))
        × (find_delivery id w'.db ≡ some (sent r))
  unfolding handle_retry_delivery parse_id ◌>>=◌ or_fail ◌or_else◌ get_delivery query_row query
      scan_found scan_delivery fail_if decoded attempt forward publish after_retry ignore
      mark_forwarded mark statement pure find_delivery
  retry-sent text id e w r i f m h k t = (
    rw (i, f, h, t, k, m) refl,
    rw (i, f, h, t, k, m) (rw (f (suc (suc w.calls))) refl),
    rw (i, f, h, t, k, m)
        (rw (f (suc (suc w.calls))) (rw k at (find_delivery-mark id 202 none w.db r h))),
  )

  retry-refused :
      (text : String) (id : ℕ) (w : World) (r : DeliveryRow)
      → env.uuid_parse text ≡ some id
      → ((n : ℕ) → env.db_fails n ≡ false)
      → find_delivery id w.db ≡ some r
      → is_forwarded (status_of r.http_status) ≡ true
      → serve (handle_retry_delivery text) w
        ≡ (write_error 400 "delivery already forwarded", next w)
  unfolding handle_retry_delivery parse_id ◌>>=◌ or_fail ◌or_else◌ get_delivery query_row query
      scan_found scan_delivery fail_if
  retry-refused text id w r i f h t = rw (i, f, h, t) refl

  -- Where nothing fails, a first retry of a delivery that is not forwarded sends its event once, as the last
  -- message, and answers 200; a second retry answers 400 and only reads.
  pub handle_retry_delivery-once :
      (text : String) (id : ℕ) (e : Envelope) (w : World) (r : DeliveryRow)
      → env.uuid_parse text ≡ some id
      → ((n : ℕ) → env.db_fails n ≡ false)
      → ((n : ℕ) → env.nats_fails n ≡ false)
      → find_delivery id w.db ≡ some r
      → r.normalized ≡ some e
      → is_forwarded (status_of r.http_status) ≡ false
      → let (answer, w') = serve (handle_retry_delivery text) w in
        (answer ≡ write_json 200 (retried (env.uuid_string id)))
        × (w'.published
            ≡ C.◌++◌ w.published
                (record { subject = "events.ingest." ++ e.category; content = envelope e } ∷ []))
        × (serve (handle_retry_delivery text) w'
            ≡ (write_error 400 "delivery already forwarded", next w'))
  unfolding status_of
  handle_retry_delivery-once text id e w r i f m h k t =
      let (a, p, g) = retry-sent text id e w r i f m h k t in
      (a, p, retry-refused text id _ (sent r) i f g refl)
