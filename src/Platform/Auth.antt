-- ===== src/Platform/Auth.antt =====
-- internal/platform/auth.go and cors.go: who a token resolves to, and the middleware of the registry,
-- the normalizer and the webhook adapter. Hashes and JWTs are the libraries'.
pub mod Tables
use Prim.Native.String.{◌++◌}
use signalyard.Common.{
  ℕ, String, String_eq, ℕ_eq, Bool, true, false, ◌&&◌, ◌||◌, not, Option, none, some, List, [], ◌∷◌,
  ltb, get_or, inr, ◌==◌, if◌then◌else◌, cut_prefix, trim_space, find,
}
use signalyard.Platform.Exec.{
  Error, not_found, failed, Result, ok, err, Exec, ◌>>=◌, ◌>>◌, pure, raise, attempt, write_error,
  Handler, fail_if, ◌or_else◌,
}
use signalyard.Platform.Database.{Db, KeyRow}
use signalyard.Platform.World.{Env, World, query_row_at, time_now}

-- The claims of a JWT; a claim that is missing or no string is `none`.
pub record Claims : Type 0 where
  pub sub : Option String
  pub email : Option String
  pub role : Option String
  pub kind : Option String

-- crypto/hmac, crypto/sha256, crypto/sha1 (in hexadecimal) and golang-jwt.
pub record Crypto : Type 0 where
  pub hmac_sha256 : String → String → String
  pub hmac_sha1 : String → String → String
  pub sha256 : String → String
  pub jwt_sign : String → Claims → ℕ → Option String  -- secret, claims and expiry
  pub jwt_is_hmac : String → Bool
  pub jwt_verify : String → String → ℕ → Option Claims  -- secret, token and time

pub data Kind : Type 0 where
  anonymous agent user dev_admin : Kind

pub record Identity : Type 0 where
  pub kind : Kind
  pub agent_id : ℕ
  pub user_id : ℕ
  pub email : String
  pub role : String

-- The zero value, which IdentityFrom returns where no middleware ran.
abbrev pub no_identity : Identity
no_identity = record { kind = anonymous; agent_id = 0; user_id = 0; email = ""; role = "" }

abbrev pub kind_string : Kind → String
kind_string anonymous = ""
kind_string agent = "agent"
kind_string user = "user"
kind_string dev_admin = "dev-admin"

module _ ⦃env : Env⦄ where
  unfoldable pub name_of : Kind → Identity → String
  name_of agent i = "agent:" ++ env.uuid_string i.agent_id
  name_of k i = if not (i.email == "") then i.email else kind_string k

  -- Identity.Name
  unfoldable pub name : Identity → String
  unfolding name_of
  name i = name_of i.kind i

pub record TokenAuth : Type 0 where
  pub hec_salt : String
  pub jwt_secret : String
  pub dev_admin_token : String

pub record Request : Type 0 where
  pub authorization : String  -- the header Authorization, "" if absent
  pub token_header : String  -- the header X-SignalYard-Token

unfoldable pub cut_schemes : List String → Request → String
cut_schemes [] r = r.token_header
cut_schemes (scheme ∷ rest) r = elim (cut_prefix (scheme ++ " ") r.authorization) [
  | some token ↦ trim_space token
  | none ↦ cut_schemes rest r
]

unfoldable pub extract_token : Request → String
unfolding cut_schemes
extract_token r = cut_schemes ("SignalYard" ∷ "Splunk" ∷ "Bearer" ∷ []) r

-- jwt.ParseWithClaims with the callback that accepts HMAC methods only.
unfoldable pub parse_with_claims : ⦃crypto : Crypto⦄ → String → String → ℕ → Option Claims
parse_with_claims ⦃crypto⦄ secret token now =
    if crypto.jwt_is_hmac token then crypto.jwt_verify secret token now else none

-- `expires_at IS NULL OR expires_at > NOW()`
abbrev pub unexpired : ℕ → Option ℕ → Bool
unexpired now none = true
unexpired now (some t) = ltb now t

abbrev pub is_null : Option ℕ → Bool
is_null none = true
is_null (some t) = false

unfoldable pub is_usable : ℕ → KeyRow → Bool
is_usable now k = is_null k.revoked_at && unexpired now k.expires_at

abbrev pub dev_identity : Identity
dev_identity = record {
  kind = dev_admin;
  agent_id = 0;
  user_id = 0;
  email = "dev-admin@local";
  role = "admin";
}

module _ ⦃env : Env⦄ ⦃crypto : Crypto⦄ where
  unfoldable pub usable_key : TokenAuth → String → ℕ → Db → Option KeyRow
  unfolding is_usable
  usable_key a token now d =
      find (λ k. (k.key_hash == crypto.hmac_sha256 a.hec_salt token) && is_usable now k) d.api_keys

  unfoldable pub key_lookup : TokenAuth → String → Exec Error World KeyRow
  unfolding usable_key
  key_lookup a token = query_row_at (λ n d. usable_key a token (env.now n) d)

  -- A `sub` that is no UUID leaves the zero value.
  abbrev pub session_identity : Claims → Identity
  session_identity c = record {
    kind = user;
    agent_id = 0;
    user_id = get_or (env.uuid_parse (get_or c.sub "")) 0;
    email = get_or c.email "";
    role = get_or c.role "";
  }

  unfoldable pub session_or_fail : Option Claims → Exec Error World Identity
  session_or_fail none = raise failed
  session_or_fail (some c) = pure (session_identity c)

  unfoldable pub resolve_session : TokenAuth → String → Exec Error World Identity
  unfolding parse_with_claims session_or_fail
  resolve_session a token =
      if not (a.jwt_secret == "")
      then (do now ← time_now; session_or_fail (parse_with_claims a.jwt_secret token now))
      else raise failed

  unfoldable pub after_lookup : TokenAuth → String → Result Error KeyRow → Exec Error World Identity
  unfolding resolve_session
  after_lookup a token (ok k) =
      pure (record { kind = agent; agent_id = k.agent_id; user_id = 0; email = ""; role = "" })
  after_lookup a token (err not_found) = resolve_session a token
  after_lookup a token (err e) = raise e

  -- TokenAuth.Resolve
  unfoldable pub resolve : TokenAuth → String → Exec Error World Identity
  unfolding key_lookup after_lookup
  resolve a token =
      if not (a.dev_admin_token == "") && (token == a.dev_admin_token)
      then pure dev_identity
      else (do found ← attempt (key_lookup a token); after_lookup a token found)

  module _ {B : Type 0} where
    -- TokenAuth.Middleware
    unfoldable pub middleware : TokenAuth → Request → (Identity → Handler World B) → Handler World B
    unfolding extract_token resolve
    middleware a r next = do
      let token = extract_token r
      fail_if (token == "") (write_error 401 "missing token")
      id ← resolve a token or_else (λ _. write_error 401 "invalid token")
      next id

abbrev pub has_role : List String → String → Bool
has_role [] role = false
has_role (r ∷ rs) role = (r == role) || has_role rs role

abbrev pub is_dev_admin : Kind → Bool
is_dev_admin dev_admin = true
is_dev_admin _ = false

-- RequireRole
unfoldable pub require_role :
    {B : Type 0} → List String → (Identity → Handler World B) → Identity → Handler World B
require_role roles next id =
    if is_dev_admin id.kind || has_role roles id.role
    then next id
    else raise (write_error 403 "forbidden")

-- CORS: a preflight request is answered at once, whatever the route.
pub data Method : Type 0 where
  get post put delete options : Method

abbrev pub cors : {S B : Type 0} → B → Method → Handler S B → Handler S B
cors no_content options next = pure (record { status = 204; body = inr no_content })
cors no_content _ next = next
