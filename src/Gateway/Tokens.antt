-- ===== src/Gateway/Tokens.antt =====
-- Agent tokens and session tokens (internal/coreapi/auth.go).
use signalyard.Common.{
  ℕ, ◌*◌, ◌≡◌, refl, String, String_eq, ◌==◌, Bool, true, false, not, ◌&&◌, none, some, ltb, arith,
}
use signalyard.Platform.Exec.{ok, ◌>>=◌, pure, raise, fail_if, or_fail, serve, write_error}
use signalyard.Platform.World.{Env, World, time_now, next}
use signalyard.Platform.Auth.{Claims, Crypto, Request, extract_token, parse_with_claims}
use signalyard.Gateway.Auth.{
  Config, Identities, second, unix, parse_agent_token, agent_of_claims, issue_agent_token,
  session_of, claimed_user, session_user, require_role,
}
use signalyard.Gateway.Handlers.Tools.{RegistryProxy}
use signalyard.Gateway.Router.{KeyRoute, Codec, for_reviewer}

and_false : (b : Bool) → (b && false) ≡ false
and_false true = refl
and_false false = refl

module _ ⦃env : Env⦄ ⦃crypto : Crypto⦄ where
  agent_claims : ℕ → Claims
  agent_claims id = record {
    sub = some (env.uuid_string id);
    email = none;
    role = none;
    kind = some "agent";
  }

  issued :
      (secret token : String) (id ttl expires : ℕ) (w w' : World)
      → issue_agent_token secret id ttl w ≡ (ok (token, expires), w')
      → crypto.jwt_sign secret (agent_claims id) (unix expires) ≡ some token
  unfolding issue_agent_token agent_claims ◌>>=◌ time_now or_fail pure
  issued secret token id ttl expires w w' h = ground arith

-- What golang-jwt does with a token that it signed, while it is before the claim exp, and uuid.Parse with the text
-- of a UUID.
module _ ⦃env : Env⦄ ⦃crypto : Crypto⦄
    (verified : (secret token : String) (c : Claims) (exp now : ℕ)
      → crypto.jwt_sign secret c exp ≡ some token
      → ltb now (exp * second) ≡ true
      → (crypto.jwt_is_hmac token ≡ true) × (crypto.jwt_verify secret token now ≡ some c))
    (parsed : (id : ℕ) → env.uuid_parse (env.uuid_string id) ≡ some id) where
  claims_of :
      (secret token : String) (id ttl expires now : ℕ) (w w' : World)
      → issue_agent_token secret id ttl w ≡ (ok (token, expires), w')
      → ltb now (unix expires * second) ≡ true
      → parse_with_claims secret token now ≡ some (agent_claims id)
  unfolding parse_with_claims
  claims_of secret token id ttl expires now w w' h t =
      let (p, q) =
        verified secret token (agent_claims id) (unix expires) now
          (issued secret token id ttl expires w w' h) t in
      rw (p, q) refl

  -- A token that was issued to an agent is read as that agent's before the last whole second at or before its
  -- expiry, which is the expiry that is signed.
  pub parse_agent_token-issue_agent_token :
      (secret token : String) (id ttl expires now : ℕ) (w w' : World)
      → issue_agent_token secret id ttl w ≡ (ok (token, expires), w')
      → ltb now (unix expires * second) ≡ true
      → parse_agent_token secret token now ≡ some id
  unfolding parse_agent_token agent_of_claims agent_claims
  parse_agent_token-issue_agent_token secret token id ttl expires now w w' h t =
      rw (claims_of secret token id ttl expires now w w' h t, parsed id) refl

  module _ ⦃ids : Identities⦄ ⦃proxy : RegistryProxy⦄ where
    -- An agent that presents its token as a session, before the expiry in whole seconds that is signed, may not
    -- issue or revoke keys: the answer is 403 and nothing is changed, since RequireSession, which takes any
    -- valid token, finds no role in it. The token is not empty and not the administrator's for development.
    pub for_reviewer-issue_agent_token :
        (codec : Codec) (cfg : Config) (r : Request) (route : KeyRoute) (id ttl expires : ℕ)
        (w w' v : World)
        → issue_agent_token cfg.jwt_signing_secret id ttl w ≡ (ok (extract_token r, expires), w')
        → ltb (env.now v.calls) (unix expires * second) ≡ true
        → (extract_token r == "") ≡ false
        → (extract_token r == cfg.dev_admin_token) ≡ false
        → serve (for_reviewer codec cfg r route) v ≡ (write_error 403 "forbidden", next v)
    unfolding for_reviewer session_of claimed_user session_user require_role ◌>>=◌ fail_if time_now
        or_fail pure raise agent_claims
    for_reviewer-issue_agent_token codec cfg r route id ttl expires w w' v h t n d =
        rw
          (
            n,
            d,
            and_false (not (cfg.dev_admin_token == "")),
            claims_of cfg.jwt_signing_secret (extract_token r) id ttl expires (env.now v.calls) w w'
                h t,
          )
          refl
