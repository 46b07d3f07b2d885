-- ===== src/Normalizer/Settings.antt =====
-- internal/normalizer/config.go
use signalyard.Common.{String, [], ◌∷◌, ℤ, pos}
use signalyard.Platform.Auth.{TokenAuth}
use signalyard.Platform.Environ.{
  Environ, Loaded, loaded, ◌>>=◌, ◌>>◌, atoi, parsed, require, env_or,
}

-- The three values of the token authentication are in `auth`.
pub record Settings : Type 0 where
  pub port : ℤ
  pub nats_url : String
  pub postgres_dsn : String
  pub loki_push_url : String
  pub tempo_otlp_endpoint : String
  pub mimir_remote_write_url : String
  pub schema_registry_url : String
  pub schema_registry_token : String
  pub quarantine_stream : String
  pub auth : TokenAuth

-- LoadConfig
unfoldable pub load_config : Environ → Loaded Settings
unfolding env_or
load_config env = do
  port ← parsed atoi "PORT" (env "PORT") (pos 8081)
  require (
      ("NATS_URL", env "NATS_URL")
      ∷ ("POSTGRES_DSN", env "POSTGRES_DSN")
      ∷ ("SCHEMA_REGISTRY_URL", env "SCHEMA_REGISTRY_URL")
      ∷ ("HEC_TOKEN_SALT", env "HEC_TOKEN_SALT")
      ∷ [])
  loaded (record {
    port = port;
    nats_url = env "NATS_URL";
    postgres_dsn = env "POSTGRES_DSN";
    loki_push_url = env "LOKI_PUSH_URL";
    tempo_otlp_endpoint = env "TEMPO_OTLP_ENDPOINT";
    mimir_remote_write_url = env "MIMIR_REMOTE_WRITE_URL";
    schema_registry_url = env "SCHEMA_REGISTRY_URL";
    schema_registry_token = env "SCHEMA_REGISTRY_TOKEN";
    quarantine_stream = env_or env "QUARANTINE_STREAM_NAME" "quarantine";
    auth = record {
      hec_salt = env "HEC_TOKEN_SALT";
      jwt_secret = env "JWT_SIGNING_SECRET";
      dev_admin_token = env "DEV_ADMIN_TOKEN";
    };
  })
