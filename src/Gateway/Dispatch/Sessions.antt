-- ===== src/Gateway/Dispatch/Sessions.antt =====
-- Registration, login and keys at the gateway keep what its writes keep.
use signalyard.Common.{ℕ, String, Option, List, inl, inr, Option-cases}
use signalyard.Platform.Database.{Db}
use signalyard.Platform.Auth.{Crypto}
use signalyard.Platform.World.{Env}
use signalyard.Platform.Keeps.{Preorder, Keeps}
use signalyard.Platform.KeepsDb.{tables}
use signalyard.Gateway.Keys.{get_api_key_by_id}
use signalyard.Gateway.Auth.{
  Config, Identities, User, generate_api_key, issue_session_token, verify_oidc_token,
}
use signalyard.Gateway.Handlers.{Gateway, Reply}
use signalyard.Gateway.Handlers
use signalyard.Gateway.Handlers.Sessions.{
  handle_register, handle_login, handle_get_api_key, handle_create_api_key, handle_delete_api_key,
}
use signalyard.Gateway.Dispatch.{WritesKeep, gateway_rules, Keeps-get_agent}

module _ ⦃env : Env⦄ ⦃crypto : Crypto⦄ {R : Db → Db → Type 0} (o : Preorder R)
    (k : WritesKeep R) where
  module _ ⦃ids : Identities⦄ where
    pub register-Keeps :
        (f : List ℕ → String) (body : Option Handlers.RegisterRequest)
        → Keeps tables R (handle_register f body)
    unfolding handle_register
    register-Keeps f body = search (gateway_rules, o, k.add_agent) depth 9

    generate-Keeps : (salt : String) → Keeps tables R (generate_api_key salt)
    unfolding generate_api_key
    generate-Keeps salt = record {
      at = λ w. elim (Option-cases (ids.random_hex w.calls)) [
        | inl e ↦ rw (e, tables) (o.reflexive w.db)
        | inr (p, e) ↦ rw (e, tables) (o.reflexive w.db)
      ];
    }

    session_token-Keeps :
        (secret : String) (u : User) → Keeps tables R (issue_session_token secret u)
    unfolding issue_session_token
    session_token-Keeps secret u = search (gateway_rules, o)

    verify-Keeps : (cfg : Config) (raw : String) → Keeps tables R (verify_oidc_token cfg raw)
    unfolding verify_oidc_token
    verify-Keeps cfg raw = search (gateway_rules, o)

    pub login-Keeps : (cfg : Config) (body : Option String) → Keeps tables R (handle_login cfg body)
    unfolding handle_login
    login-Keeps cfg body =
        search (gateway_rules, o, k.login, session_token-Keeps, verify-Keeps) depth 12

    pub get_key-Keeps : (text : String) → Keeps tables R (handle_get_api_key text)
    unfolding handle_get_api_key get_api_key_by_id
    get_key-Keeps text = search (gateway_rules, o) depth 9

    pub delete_key-Keeps : (text : String) → Keeps tables R (handle_delete_api_key text)
    unfolding handle_delete_api_key
    delete_key-Keeps text = search (gateway_rules, o, k.revoke) depth 9

    pub create_key-Keeps :
        (cfg : Config) (body : Option Handlers.CreateApiKeyRequest)
        → Keeps tables R (handle_create_api_key cfg body)
    unfolding handle_create_api_key
    create_key-Keeps cfg body =
        search (gateway_rules, o, Keeps-get_agent, generate-Keeps, k.add_key) depth 12
