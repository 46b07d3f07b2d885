-- ===== src/Tests/Services.antt =====
-- The gateway and the webhook adapter at concrete inputs.
use signalyard.Common.{
  ℕ, ◌≡◌, refl, ap, String, true, false, none, some, List, [], ◌∷◌, nat_eq, length, find, update,
  count, String_eq, cut_prefix, trim_space,
}
use signalyard.Platform.Exec.{Error, Result, ok, err, failed, serve, write_error}
use signalyard.Platform.Json.{end}
use signalyard.Platform.Database.{empty, KeyRow}
use signalyard.Platform.World.{World, start, statement}
use signalyard.Platform.Auth.{Request, extract_token}
use signalyard.Gateway.Auth.{Config, hash_api_key, authenticate}
use signalyard.Gateway.Keys.{key_by_hash, revoke_api_key, get_agent}
use signalyard.Gateway.Unseen.{get_agent-create_agent}
use signalyard.Registry.Agents.{AgentRecord, create_agent, scan_agent, find_agent, slug_taken}
use signalyard.Gateway.Revoked.{is_ok, authenticate-revoke_api_key}
use signalyard.Gateway.Slug.{slug_stem}
use signalyard.Gateway.Slugs.{is_slug, slug_stem-is_slug}
use signalyard.Tests.Setup.{test_env, test_crypto}
use signalyard.Webhook.Refusal.{handle_webhook-unsigned}
use signalyard.Webhook.Server.{handle_webhook}
use signalyard.Webhook.Verify
use signalyard.Webhook.Verify.{Tool, github, jira, Headers, verify_signature, secret_for}

abbrev spaced_name : List ℕ
spaced_name = b'M' ∷ b'y' ∷ b' ' ∷ b'!' ∷ b'A' ∷ b'I' ∷ []

slug_stem-is_slug_example :
    (is_slug true (slug_stem spaced_name) ≡ true)
    × (nat_eq (length (slug_stem spaced_name)) 0 ≡ false)
slug_stem-is_slug_example = slug_stem-is_slug spaced_name

abbrev key : KeyRow
key = record {
  id = 7;
  agent_id = 3;
  key_hash = "sy_1";
  key_prefix = "1";
  label = "";
  scopes = [];
  revoked_at = none;
  last_used_at = none;
  expires_at = none;
  created_at = 1;
}

abbrev pub gateway_config : Config
gateway_config = record {
  hec_token_salt = "salt";
  jwt_signing_secret = "secret";
  dev_admin_token = "";
  oidc_issuer_url = "";
  otel_collector_endpoint = "";
  schema_registry_url = "";
}

abbrev with_key : World
with_key = start (record empty { api_keys = key ∷ [] })

abbrev revocation : Result Error (Unit {0}) × World
revocation = revoke_api_key 7 with_key

revocation_result : revocation.0 ≡ ok tt
unfolding revoke_api_key statement count update
revocation_result = refl

abbrev key_request : Request
key_request = record { authorization = "SignalYard sy_1"; token_header = "" }

revoked_found :
    key_by_hash
      (hash_api_key gateway_config.hec_token_salt (extract_token key_request))
      revocation.1.db
    ≡ some (record key { revoked_at = some 100 })
unfolding key_by_hash hash_api_key extract_token revoke_api_key statement find count update
    cut_prefix trim_space
revoked_found = refl

authenticate-revoke_api_key_example :
    is_ok (authenticate {B = String} gateway_config key_request revocation.1).0 ≡ false
authenticate-revoke_api_key_example =
    authenticate-revoke_api_key String 7 with_key revocation.1 tt gateway_config key_request
      (record key { revoked_at = some 100 }) (ap (λ r. (r, revocation.1)) revocation_result)
      revoked_found refl

abbrev pub secrets : Verify.Config
secrets = record {
  github_webhook_secret = "s";
  jira_webhook_secret = "";
  pager_duty_webhook_secret = "";
  marble_jar_webhook_secret = "";
}

-- The digest of a body is the body itself.
abbrev pub forged : Headers
forged = record {
  hub_signature_256 = "sha256=other";
  hub_signature = "";
  pager_duty_parts = [];
  signalyard_signature = "";
  github_event = "push";
  github_delivery = "";
  user_agent = "";
  content_type = "";
}

forged_result : verify_signature github forged "{}" (secret_for secrets github) ≡ false
unfolding verify_signature secret_for cut_prefix
forged_result = refl

handle_webhook-unsigned_example :
    serve
      (handle_webhook (λ e. true) (λ b. some end) secrets github forged (some "{}"))
      (start empty)
    ≡ (write_error 401 "invalid webhook signature", start empty)
handle_webhook-unsigned_example =
    handle_webhook-unsigned (λ e. true) (λ b. some end) secrets github forged "{}" (start empty)
      forged_result

abbrev pub bot : AgentRecord
bot = scan_agent (some []) (record {
  id = 10;
  name = "bot";
  slug = "bot-ab12cd34";
  description = some "";
  agent_type = "custom";
  status = "active";
  contact_email = none;
  capabilities = some [];
  created_at = 100;
})

abbrev creation : Result Error AgentRecord × World
creation = create_agent "bot" "" [] (start empty)

bot_created : creation.0 ≡ ok bot
unfolding create_agent statement scan_agent slug_taken find count
bot_created = refl

bot_unknown : find_agent bot.id (start empty).db ≡ none
unfolding find_agent scan_agent find
bot_unknown = refl

get_agent-create_agent_example : (get_agent bot.id creation.1).0 ≡ err failed
get_agent-create_agent_example =
    get_agent-create_agent "bot" "" [] (start empty) creation.1 bot
      (ap (λ r. (r, creation.1)) bot_created) bot_unknown
