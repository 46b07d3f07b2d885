-- ===== src/Gateway/Auth.antt =====
-- internal/coreapi/auth.go: API keys, agent tokens and sessions at the gateway.
use Prim.Native.Nat.{◌/◌}
use Prim.Native.String.{◌++◌}
use signalyard.Common.{
  ℕ, ◌+◌, String, String_eq, ℕ_eq, Bool, true, false, ◌&&◌, not, Option, none, some, List, ltb,
  get_or, ◌==◌, if◌then◌else◌,
}
use signalyard.Platform.Exec.{
  Error, not_found, failed, Result, ok, err, Exec, ◌>>=◌, ◌>>◌, pure, raise, fail_if, or_fail,
  ◌or_else◌, attempt, Response, write_error, Handler,
}
use signalyard.Platform.Database.{KeyRow}
use signalyard.Platform.World.{Env, World, time_now, next}
use signalyard.Platform.Auth.{Claims, Crypto, Request, extract_token, parse_with_claims, has_role}
use signalyard.Gateway.Keys.{Agent, get_agent, get_api_key_by_hash, touch_api_key}

pub record Config : Type 0 where
  pub hec_token_salt : String
  pub jwt_signing_secret : String
  pub dev_admin_token : String
  pub oidc_issuer_url : String
  pub otel_collector_endpoint : String
  pub schema_registry_url : String

pub record User : Type 0 where
  pub id : ℕ
  pub email : String
  pub role : String

-- crypto/rand with hex.EncodeToString (8 and 40 digits, `none` where rand.Read fails), and go-oidc,
-- which gives the email, the subject and the name of a verified token.
pub record Identities : Type 0 where
  pub random_hex : ℕ → Option (String × String)
  pub oidc_verify : String → Option (String × String × String)

-- 8 hours and one second, in nanoseconds.
abbrev pub session_ttl : ℕ
session_ttl = 28800000000000

abbrev pub second : ℕ
second = 1000000000

-- Time.Unix: whole seconds, which are counted from the zero time here.
abbrev pub unix : ℕ → ℕ
unix t = t / second

unfoldable pub revoked_or_expired : ℕ → Option ℕ → Option ℕ → Bool
revoked_or_expired now (some t) expires = true
revoked_or_expired now none none = false
revoked_or_expired now none (some t) = ltb t now

module _ ⦃env : Env⦄ ⦃crypto : Crypto⦄ where
  unfoldable pub hash_api_key : String → String → String
  hash_api_key salt token = crypto.hmac_sha256 salt token

  -- The token, its hash and its prefix.
  unfoldable pub generate_api_key :
      ⦃ids : Identities⦄ → String → Exec Error World (String × String × String)
  unfolding hash_api_key
  generate_api_key ⦃ids⦄ salt w = elim (ids.random_hex w.calls) [
    | none ↦ (err failed, next w)
    | some (prefix, secret) ↦
        let token = "sy_" ++ prefix ++ "_" ++ secret in
        (ok (token, hash_api_key salt token, prefix), next w)
  ]

  -- A token without the claim kind = "agent" is refused.
  unfoldable pub agent_of_claims : Option Claims → Option ℕ
  agent_of_claims none = none
  agent_of_claims (some c) =
      if not (get_or c.kind "" == "agent") then none else env.uuid_parse (get_or c.sub "")

  unfoldable pub parse_agent_token : String → String → ℕ → Option ℕ
  unfolding agent_of_claims parse_with_claims
  parse_agent_token secret token now = agent_of_claims (parse_with_claims secret token now)

  unfoldable pub issue_agent_token : String → ℕ → ℕ → Exec Error World (String × ℕ)
  issue_agent_token secret agent_id ttl = do
    now ← time_now
    let expires = now + ttl
    token ←
        or_fail
          (crypto.jwt_sign secret
            (record {
              sub = some (env.uuid_string agent_id);
              email = none;
              role = none;
              kind = some "agent";
            })
            (unix expires))
          failed
    pure (token, expires)

  unfoldable pub issue_session_token : String → User → Exec Error World (String × ℕ)
  issue_session_token secret u = do
    now ← time_now
    let expires = now + session_ttl
    token ←
        or_fail
          (crypto.jwt_sign secret
            (record {
              sub = some (env.uuid_string u.id);
              email = some u.email;
              role = some u.role;
              kind = none;
            })
            (unix expires))
          failed
    pure (token, expires)

  unfoldable pub verify_oidc_token :
      ⦃ids : Identities⦄ → Config → String → Exec Error World (String × String × String)
  verify_oidc_token ⦃ids⦄ cfg raw =
      if cfg.oidc_issuer_url == "" then raise failed else or_fail (ids.oidc_verify raw) failed

  unfoldable pub session_user : Claims → User
  session_user c = record {
    id = get_or (env.uuid_parse (get_or c.sub "")) 0;
    email = get_or c.email "";
    role = get_or c.role "";
  }

  module _ {B : Type 0} where
    abbrev pub unauthorized : {A E : Type 0} → Exec E World A → String → Exec (Response B) World A
    unauthorized {A} {E} m msg = m or_else λ _. write_error {B = B} 401 msg

    -- Not an API key: a short-lived agent token.
    unfoldable pub agent_by_token : Config → String → Exec (Response B) World Agent
    unfolding parse_agent_token
    agent_by_token cfg token = do
      now ← time_now
      agent_id ←
          or_fail (parse_agent_token cfg.jwt_signing_secret token now)
            (write_error {B = B} 401 "invalid token")
      unauthorized (get_agent agent_id) "agent not found for token"

    -- TouchAPIKey runs beside the request; here it comes first.
    unfoldable pub agent_by_key : KeyRow → Exec (Response B) World Agent
    unfolding revoked_or_expired
    agent_by_key k = do
      now ← time_now
      fail_if (revoked_or_expired now k.revoked_at k.expires_at)
          (write_error {B = B} 401 "token revoked or expired")
      agent ← unauthorized (get_agent k.agent_id) "agent not found for token"
      unauthorized (touch_api_key k.id) ""
      pure agent

    unfoldable pub after_key_lookup :
        Config → String → Result Error KeyRow → Exec (Response B) World Agent
    unfolding agent_by_token agent_by_key
    after_key_lookup cfg token (ok k) = agent_by_key k
    after_key_lookup cfg token (err not_found) = agent_by_token cfg token
    after_key_lookup cfg token (err e) = raise (write_error {B = B} 500 "auth lookup failed")

    -- The agent that RequireAPIKey puts into the context, or its refusal.
    unfoldable pub authenticate : Config → Request → Exec (Response B) World Agent
    unfolding extract_token hash_api_key after_key_lookup
    authenticate cfg r = do
      let token = extract_token r
      fail_if (token == "") (write_error {B = B} 401 "missing token")
      found ← attempt (get_api_key_by_hash (hash_api_key cfg.hec_token_salt token))
      after_key_lookup cfg token found

    unfoldable pub claimed_user : Config → String → Exec (Response B) World User
    unfolding parse_with_claims session_user
    claimed_user cfg token =
        if not (cfg.dev_admin_token == "") && (token == cfg.dev_admin_token)
        then pure (record { id = 0; email = "dev-admin@local"; role = "admin" })
        else do
          now ← time_now
          claims ←
              or_fail (parse_with_claims cfg.jwt_signing_secret token now)
                (write_error {B = B} 401 "invalid session token")
          pure (session_user claims)

    -- The user that RequireSession puts into the context, or its refusal. The claim kind is not read.
    unfoldable pub session_of : Config → Request → Exec (Response B) World User
    unfolding extract_token claimed_user
    session_of cfg r = do
      let token = extract_token r
      fail_if (token == "") (write_error {B = B} 401 "missing session token")
      claimed_user cfg token

    -- RequireRole
    unfoldable pub require_role : List String → (User → Handler World B) → User → Handler World B
    require_role roles next u =
        if not (has_role roles u.role) then raise (write_error 403 "forbidden") else next u
