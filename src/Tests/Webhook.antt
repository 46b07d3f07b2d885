-- ===== src/Tests/Webhook.antt =====
-- The webhook adapter's forwarding and signatures at concrete inputs.
use signalyard.Common.{
  String, ◌≡◌, ◌↔◌, refl, true, false, none, some, [], ◌∷◌, find, ◌==◌, String_eq,
}
use signalyard.Platform.Exec.{err, failed, serve, write_error, write_json}
use signalyard.Platform.Json.{end}
use signalyard.Platform.Messages.{envelope, dead_letter}
use signalyard.Platform.Database.{empty, DeliveryRow}
use signalyard.Platform.World.{World, start, next}
use signalyard.Webhook.Verify.{github, verify_signature}
use signalyard.Webhook.Store.{find_delivery, status_of}
use signalyard.Webhook.Server.{retried, after_forward, handle_retry_delivery, is_forwarded}
use signalyard.Webhook.Retried.{after_forward-failed, handle_retry_delivery-once}
use signalyard.Webhook.Signed.{Carries, verify_signature_iff}
use signalyard.Tests.Setup.{test_env, test_crypto}
use signalyard.Tests.Services.{forged}
use signalyard.Tests.Worker.{login}

abbrev delivery : DeliveryRow
delivery = record {
  id = 7;
  webhook_source_id = 1;
  http_status = none;
  raw = end;
  normalized = some login;
  headers = [];
  signature_valid = true;
  error_message = none;
  created_at = 1;
}

abbrev recorded : World
recorded = start (record empty {
  webhook_sources =
      record { id = 1; name = "github"; secret_hash = "s"; endpoint_path = "/webhooks/github" }
      ∷ [];
  webhook_deliveries = delivery ∷ [];
})

found : find_delivery 7 recorded.db ≡ some delivery
unfolding find_delivery find
found = refl

after_forward-failed_example :
    let (answer, w') = after_forward github 7 login (err failed) recorded in
    (answer ≡ err (write_error 502 "failed to forward event"))
    × (find_delivery 7 w'.db
        ≡ some (record delivery { http_status = some 502; error_message = some "nats: timeout" }))
    × (w'.published
        ≡ record {
          subject = "webhooks.deadletter";
          content = dead_letter (record {
            tool = "github";
            delivery_id = "id";
            error = "nats: timeout";
            normalized = login;
            failed_at = 101;
          });
        }
          ∷ [])
after_forward-failed_example =
    after_forward-failed github 7 login recorded delivery (λ n. refl) refl found

not_sent : is_forwarded (status_of delivery.http_status) ≡ false
unfolding status_of
not_sent = refl

abbrev secret : String
secret = "s"

handle_retry_delivery-once_example :
    let (answer, w') = serve (handle_retry_delivery "id") recorded in
    (answer ≡ write_json 200 (retried "id"))
    × (w'.published ≡ record { subject = "events.ingest.auth"; content = envelope login } ∷ [])
    × (serve (handle_retry_delivery "id") w'
        ≡ (write_error 400 "delivery already forwarded", next w'))
handle_retry_delivery-once_example =
    handle_retry_delivery-once "id" 7 login recorded delivery refl (λ n. refl) (λ n. refl) found
      refl not_sent

verify_signature_iff_example :
    (verify_signature github forged "{}" secret ≡ true)
    ↔ (((secret == "") ≡ false) × Carries github forged "{}" secret)
verify_signature_iff_example = verify_signature_iff github forged "{}" secret
