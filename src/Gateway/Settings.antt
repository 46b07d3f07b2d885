-- ===== src/Gateway/Settings.antt =====
-- internal/coreapi/config.go
use signalyard.Common.{String, String_eq, ◌==◌, Bool, Option, [], ◌∷◌, ℤ, pos, ℕ}
use signalyard.Platform.Environ.{Environ, Loaded, loaded, ◌>>=◌, ◌>>◌, atoi, parsed, require}
use signalyard.Gateway.Auth.{Config}

-- `F` stands for float64. What the handlers read is in `config`.
pub record Settings (F : Type 0) : Type 0 where
  pub port : ℤ
  pub postgres_dsn : String
  pub nats_url : String
  pub oidc_client_id : String
  pub oidc_client_secret : String
  pub run_migrations : Bool
  pub rate_limit_rps : F
  pub rate_limit_burst : F
  pub config : Config

-- LoadConfig; `parse_float` is strconv.ParseFloat, `float` a whole number as float64.
unfoldable pub load_config :
    {F : Type 0}
    → (parse_float : String → Option F) → (float : ℕ → F) → Environ
    → Loaded (Settings F)
load_config parse_float float env = do
  rps ← parsed parse_float "RATE_LIMIT_RPS" (env "RATE_LIMIT_RPS") (float 50)
  burst ← parsed parse_float "RATE_LIMIT_BURST" (env "RATE_LIMIT_BURST") (float 100)
  port ← parsed atoi "PORT" (env "PORT") (pos 8080)
  require (
      ("POSTGRES_DSN", env "POSTGRES_DSN")
      ∷ ("NATS_URL", env "NATS_URL")
      ∷ ("JWT_SIGNING_SECRET", env "JWT_SIGNING_SECRET")
      ∷ ("HEC_TOKEN_SALT", env "HEC_TOKEN_SALT")
      ∷ [])
  loaded (record {
    port = port;
    postgres_dsn = env "POSTGRES_DSN";
    nats_url = env "NATS_URL";
    oidc_client_id = env "OIDC_CLIENT_ID";
    oidc_client_secret = env "OIDC_CLIENT_SECRET";
    run_migrations = env "RUN_MIGRATIONS" == "true";
    rate_limit_rps = rps;
    rate_limit_burst = burst;
    config = record {
      hec_token_salt = env "HEC_TOKEN_SALT";
      jwt_signing_secret = env "JWT_SIGNING_SECRET";
      dev_admin_token = env "DEV_ADMIN_TOKEN";
      oidc_issuer_url = env "OIDC_ISSUER_URL";
      otel_collector_endpoint = env "OTEL_COLLECTOR_ENDPOINT";
      schema_registry_url = env "SCHEMA_REGISTRY_URL";
    };
  })
