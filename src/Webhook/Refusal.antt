-- ===== src/Webhook/Refusal.antt =====
-- What internal/webhook/server.go does with a delivery whose signature does not verify.
use signalyard.Common.{
  ◌≡◌, refl, inl, inr, String, String_eq, Bool, false, Option, some, ◌==◌, if◌then◌else◌,
  Bool-cases,
}
use signalyard.Platform.Exec.{◌>>=◌, serve, write_error}
use signalyard.Platform.Json.{Object}
use signalyard.Platform.Messages.{Envelope}
use signalyard.Platform.Auth.{Crypto}
use signalyard.Platform.World.{Env, World}
use signalyard.Webhook.Verify.{Tool, Config, Headers, secret_for, verify_signature}
use signalyard.Webhook.Server.{handle_webhook, decoded}

-- A delivery whose signature does not verify is refused, and leaves no trace: no row, no message, not
-- even a call to the database. The status is 400 for an empty body and 401 for any other.
pub handle_webhook-unsigned :
    ⦃env : Env⦄ ⦃crypto : Crypto⦄ (encodable : Envelope → Bool) (parse : String → Option Object)
    (cfg : Config) (tool : Tool) (h : Headers) (body : String) (w : World)
    → verify_signature tool h body (secret_for cfg tool) ≡ false
    → serve (handle_webhook encodable parse cfg tool h (some body)) w ≡ (
      if body == ""
          then write_error 400 "empty or unreadable payload"
          else write_error 401 "invalid webhook signature",
      w,
    )
unfolding handle_webhook ◌>>=◌ decoded
handle_webhook-unsigned encodable parse cfg tool h body w e = elim (Bool-cases (body == "")) [
  | inl b ↦ rw b refl
  | inr b ↦ rw (b, e) refl
]
