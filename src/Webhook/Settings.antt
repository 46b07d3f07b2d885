-- ===== src/Webhook/Settings.antt =====
-- internal/webhook/config.go
use signalyard.Common.{String, [], ◌∷◌, ℤ, pos}
use signalyard.Platform.Auth.{TokenAuth}
use signalyard.Platform.Environ.{Environ, Loaded, loaded, ◌>>=◌, ◌>>◌, atoi, parsed, require}
use signalyard.Webhook.Verify.{Config}

-- The tools' secrets are in `config`, the three values of the token authentication in `auth`.
pub record Settings : Type 0 where
  pub port : ℤ
  pub nats_url : String
  pub postgres_dsn : String
  pub config : Config
  pub auth : TokenAuth

-- LoadConfig
unfoldable pub load_config : Environ → Loaded Settings
load_config env = do
  port ← parsed atoi "PORT" (env "PORT") (pos 8084)
  require (
      ("NATS_URL", env "NATS_URL")
      ∷ ("POSTGRES_DSN", env "POSTGRES_DSN")
      ∷ ("HEC_TOKEN_SALT", env "HEC_TOKEN_SALT")
      ∷ [])
  loaded (record {
    port = port;
    nats_url = env "NATS_URL";
    postgres_dsn = env "POSTGRES_DSN";
    config = record {
      github_webhook_secret = env "GITHUB_WEBHOOK_SECRET";
      jira_webhook_secret = env "JIRA_WEBHOOK_SECRET";
      pager_duty_webhook_secret = env "PAGERDUTY_WEBHOOK_SECRET";
      marble_jar_webhook_secret = env "MARBLE_JAR_WEBHOOK_SECRET";
    };
    auth = record {
      hec_salt = env "HEC_TOKEN_SALT";
      jwt_secret = env "JWT_SIGNING_SECRET";
      dev_admin_token = env "DEV_ADMIN_TOKEN";
    };
  })
