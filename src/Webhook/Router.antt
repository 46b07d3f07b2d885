-- ===== src/Webhook/Router.antt =====
-- internal/webhook/server.go: the routes. Receivers are open to any sender with a valid signature, the API of
-- deliveries is behind the token middleware.
use signalyard.Common.{String, Bool, Option}
use signalyard.Platform.Exec.{pure, Handler, write_json}
use signalyard.Platform.Json.{Object}
use signalyard.Platform.Messages.{Envelope}
use signalyard.Platform.Auth.{Crypto, TokenAuth, Request, middleware}
use signalyard.Platform.World.{Env, World}
use signalyard.Webhook.Verify.{Tool, Config, Headers}
use signalyard.Webhook.Server.{
  Reply, healthy, handle_webhook, handle_list_deliveries, handle_get_delivery,
  handle_retry_delivery,
}

pub data DeliveryRoute : Type 0 where
  list_deliveries : DeliveryRoute
  get_delivery retry_delivery : String → DeliveryRoute

pub data Route : Type 0 where
  health : Route
  webhook : Tool → Headers → Option String → Route
  deliveries : DeliveryRoute → Route

-- What encoding/json is to the receivers.
pub record Codec : Type 0 where
  pub encodable : Envelope → Bool
  pub parse : String → Option Object

module _ ⦃env : Env⦄ where
  unfoldable pub delivery_route : DeliveryRoute → Handler World Reply
  delivery_route list_deliveries = handle_list_deliveries
  delivery_route (get_delivery id) = handle_get_delivery id
  delivery_route (retry_delivery id) = handle_retry_delivery id

  unfoldable pub dispatch :
      ⦃crypto : Crypto⦄ → Codec → Config → TokenAuth → Request → Route → Handler World Reply
  dispatch codec cfg a r health = pure (write_json 200 healthy)
  dispatch codec cfg a r (webhook tool h body) =
      handle_webhook codec.encodable codec.parse cfg tool h body
  dispatch codec cfg a r (deliveries route) = middleware a r (λ id. delivery_route route)
