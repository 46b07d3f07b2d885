-- ===== src/Webhook/Dispatch.antt =====
-- What every request to the webhook adapter keeps of the tables, given that each of its writes keeps it.
pub mod Frame
use signalyard.Common.{ℕ, String, Bool, true, false, Option, none, some, List}
use signalyard.Platform.Exec.{Error, Result, ok, err}
use signalyard.Platform.Json.{Object}
use signalyard.Platform.Database.{Db}
use signalyard.Platform.Messages.{Envelope}
use signalyard.Platform.Auth.{Crypto, TokenAuth, Request}
use signalyard.Platform.Auth.Tables.{Keeps-middleware}
use signalyard.Platform.World.{Env}
use signalyard.Platform.Keeps.{Preorder, Keeps}
use signalyard.Platform.KeepsDb.{tables, tables_rules}
use signalyard.Webhook.Verify.{Tool, Config, Headers}
use signalyard.Webhook.Store.{
  record_delivery, mark_forwarded, mark_failed, list_deliveries, get_delivery,
}
use signalyard.Webhook.Server.{
  decoded, parse_id, forward, send_dead_letter, after_forward, accept_webhook, handle_webhook,
  handle_list_deliveries, handle_get_delivery, after_retry, handle_retry_delivery,
}
use signalyard.Webhook.Router
use signalyard.Webhook.Router.{DeliveryRoute, Route, Codec, delivery_route, dispatch}

pub record WritesKeep ⦃env : Env⦄ (R : Db → Db → Type 0) : Type 0 where
  pub insert :
      (t : String) (b : Bool) (o : Object) (e : Envelope) (h : List (String × String))
      → Keeps tables R (record_delivery t b o e h)
  pub forwarded : (id : ℕ) → Keeps tables R (mark_forwarded id)
  pub failed : (id : ℕ) (m : String) → Keeps tables R (mark_failed id m)

module _ ⦃env : Env⦄ {R : Db → Db → Type 0} (o : Preorder R) (k : WritesKeep R) where
  Keeps-decoded : {A : Type 0} (body : Option A) (msg : String) → Keeps tables R (decoded body msg)
  unfolding decoded
  Keeps-decoded none msg = search (tables_rules, o)
  Keeps-decoded (some a) msg = search (tables_rules, o)

  Keeps-parse_id : (text : String) → Keeps tables R (parse_id text)
  unfolding parse_id
  Keeps-parse_id text = search (tables_rules, o)

  ruleset webhook_rules = (tables_rules, Keeps-decoded, Keeps-parse_id)

  Keeps-forward : (category : String) (e : Envelope) → Keeps tables R (forward category e)
  unfolding forward
  Keeps-forward category e = search (tables_rules, o)

  Keeps-dead_letter : (t : Tool) (id : ℕ) (e : Envelope) → Keeps tables R (send_dead_letter t id e)
  unfolding send_dead_letter
  Keeps-dead_letter t id e = search (tables_rules, o)

  after_forward-Keeps :
      (t : Tool) (id : ℕ) (e : Envelope) (r : Result Error (Unit {0}))
      → Keeps tables R (after_forward t id e r)
  unfolding after_forward
  after_forward-Keeps t id e (ok u) = search (tables_rules, o, k.forwarded)
  after_forward-Keeps t id e (err f) = search (tables_rules, o, k.failed, Keeps-dead_letter) depth 9

  accept-Keeps :
      (encodable : Envelope → Bool) (t : Tool) (h : Headers) (body : Option Object)
      → Keeps tables R (accept_webhook encodable t h body)
  unfolding accept_webhook
  accept-Keeps encodable t h body =
      search (webhook_rules, o, k.insert, Keeps-forward, after_forward-Keeps) depth 15

  module _ ⦃crypto : Crypto⦄ where
    pub webhook-Keeps :
        (encodable : Envelope → Bool) (parse : String → Option Object) (cfg : Config) (t : Tool)
        (h : Headers) (read : Option String)
        → Keeps tables R (handle_webhook encodable parse cfg t h read)
    unfolding handle_webhook
    webhook-Keeps encodable parse cfg t h read = search (webhook_rules, o, accept-Keeps) depth 9

  after_retry-Keeps : (id : ℕ) (r : Result Error (Unit {0})) → Keeps tables R (after_retry id r)
  unfolding after_retry
  after_retry-Keeps id (ok u) = search (tables_rules, o, k.forwarded)
  after_retry-Keeps id (err f) = search (tables_rules, o, k.failed) depth 9

  delivery_route-Keeps : (route : DeliveryRoute) → Keeps tables R (delivery_route route)
  unfolding delivery_route handle_list_deliveries handle_get_delivery handle_retry_delivery
      list_deliveries get_delivery
  delivery_route-Keeps Router.list_deliveries = search (webhook_rules, o)
  delivery_route-Keeps (Router.get_delivery id) = search (webhook_rules, o) depth 9
  delivery_route-Keeps (Router.retry_delivery id) =
      search (webhook_rules, o, Keeps-forward, after_retry-Keeps) depth 15

  module _ ⦃crypto : Crypto⦄ where
    pub dispatch-Keeps :
        (codec : Codec) (cfg : Config) (a : TokenAuth) (r : Request) (route : Route)
        → Keeps tables R (dispatch codec cfg a r route)
    unfolding dispatch
    dispatch-Keeps codec cfg a r Router.health = search (tables_rules, o)
    dispatch-Keeps codec cfg a r (Router.webhook t h b) =
        webhook-Keeps codec.encodable codec.parse cfg t h b
    dispatch-Keeps codec cfg a r (Router.deliveries route) =
        Keeps-middleware o a r _ λ id. delivery_route-Keeps route
