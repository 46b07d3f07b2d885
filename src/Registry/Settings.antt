-- ===== src/Registry/Settings.antt =====
-- internal/registry/config.go
use signalyard.Common.{String, [], ◌∷◌, ℤ, pos}
use signalyard.Platform.Auth.{TokenAuth}
use signalyard.Platform.Environ.{Environ, Loaded, loaded, ◌>>=◌, ◌>>◌, atoi, parsed, require}

-- The three values of the token authentication are in `auth`.
pub record Settings : Type 0 where
  pub port : ℤ
  pub postgres_dsn : String
  pub nats_url : String
  pub git_repo_url : String
  pub git_ssh_key_path : String
  pub git_work_dir : String
  pub auth : TokenAuth

-- LoadConfig
unfoldable pub load_config : Environ → Loaded Settings
load_config env = do
  port ← parsed atoi "PORT" (env "PORT") (pos 8082)
  require (
      ("POSTGRES_DSN", env "POSTGRES_DSN")
      ∷ ("NATS_URL", env "NATS_URL")
      ∷ ("HEC_TOKEN_SALT", env "HEC_TOKEN_SALT")
      ∷ [])
  loaded (record {
    port = port;
    postgres_dsn = env "POSTGRES_DSN";
    nats_url = env "NATS_URL";
    git_repo_url = env "GIT_REPO_URL";
    git_ssh_key_path = env "GIT_SSH_KEY_PATH";
    git_work_dir = env "GIT_WORK_DIR";
    auth = record {
      hec_salt = env "HEC_TOKEN_SALT";
      jwt_secret = env "JWT_SIGNING_SECRET";
      dev_admin_token = env "DEV_ADMIN_TOKEN";
    };
  })
