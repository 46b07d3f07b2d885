-- ===== src/Gateway/Handlers/Sessions.antt =====
-- Registration, login and the life of API keys in internal/coreapi/handlers.go.
use signalyard.Common.{ℕ, String, String_eq, ◌||◌, Option, none, some, List, ◌==◌}
use signalyard.Platform.Exec.{
  Error, not_found, ◌>>=◌, ◌>>◌, pure, fail_if, ◌or_else◌, Response, write_json, write_error,
  Handler,
}
use signalyard.Platform.World.{Env, World}
use signalyard.Platform.Auth.{Crypto}
use signalyard.Gateway.Keys.{
  create_agent, get_agent, create_api_key, get_api_key_by_id, revoke_api_key,
}
use signalyard.Gateway.Store.{upsert_user_by_oidc}
use signalyard.Gateway.Auth.{
  Config, Identities, generate_api_key, verify_oidc_token, issue_session_token,
}
use signalyard.Gateway.Handlers.{
  RegisterRequest, CreateApiKeyRequest, Reply, registered, session, issued_key, key_meta, revoked,
  decoded, parse_id,
}

abbrev pub missing_or : (status : ℕ) (missing other : String) → Error → Response Reply
missing_or status missing other not_found = write_error status missing
missing_or status missing other e = write_error 500 other

module _ ⦃env : Env⦄ where
  unfoldable pub handle_register :
      (string_of_runes : List ℕ → String) → Option RegisterRequest → Handler World Reply
  handle_register string_of_runes body = do
    req ← decoded body "invalid JSON body"
    fail_if (req.agent_name == "" || req.contact_email == "")
        (write_error 400 "agent_name and contact_email are required")
    agent ←
        create_agent string_of_runes req.agent_name req.contact_email req.category_hint
          req.description
        or_else (λ _. write_error 500 "failed to register agent")
    pure (write_json 201 (registered (env.uuid_string agent.id) agent.status))

  unfoldable pub handle_get_api_key : String → Handler World Reply
  handle_get_api_key text = do
    key_id ← parse_id text "invalid key_id"
    key ← get_api_key_by_id key_id or_else missing_or 404 "key not found" "lookup failed"
    pure (write_json 200 (key_meta key))

  unfoldable pub handle_delete_api_key : String → Handler World Reply
  handle_delete_api_key text = do
    key_id ← parse_id text "invalid key_id"
    revoke_api_key key_id or_else missing_or 404 "key not found" "revoke failed"
    pure (write_json 200 (revoked (env.uuid_string key_id)))

module _ ⦃env : Env⦄ ⦃crypto : Crypto⦄ ⦃ids : Identities⦄ where
  -- The token of the body, "" where the body does not decode.
  unfoldable pub token_of : Option String → String
  token_of none = ""
  token_of (some t) = t

  unfoldable pub handle_login : Config → Option String → Handler World Reply
  unfolding token_of
  handle_login cfg body = do
    let raw = token_of body
    fail_if (raw == "") (write_error 400 "oidc_token is required")
    claims ← verify_oidc_token cfg raw or_else (λ _. write_error 401 "invalid OIDC token")
    user ←
        upsert_user_by_oidc claims.0 claims.1 claims.2
        or_else (λ _. write_error 500 "failed to create session")
    token ←
        issue_session_token cfg.jwt_signing_secret
          (record { id = user.id; email = user.email; role = user.role })
        or_else (λ _. write_error 500 "failed to issue session")
    pure (write_json 200 (session token.0 token.1))

  unfoldable pub handle_create_api_key : Config → Option CreateApiKeyRequest → Handler World Reply
  handle_create_api_key cfg body = do
    req ← decoded body "invalid JSON body"
    agent_id ← parse_id req.agent_id "valid agent_id is required"
    get_agent agent_id or_else missing_or 400 "agent not found" "agent lookup failed"
    generated ←
        generate_api_key cfg.hec_token_salt or_else (λ _. write_error 500 "failed to generate key")
    key ←
        create_api_key agent_id req.label req.scopes generated.1 generated.2
        or_else (λ _. write_error 500 "failed to store key")
    pure (
        write_json 201 (
          issued_key generated.0 (env.uuid_string key.id) (env.uuid_string agent_id)
            key.created_at))
