-- ===== src/Tests/Gateway.antt =====
-- Idempotency keys, tokens and waiting at the gateway, at concrete inputs.
use signalyard.Common.{
  ℕ, zero, suc, ◌*◌, ◌≡◌, refl, ap, sym, ◌∙◌, String, String_eq, ℕ_eq, ◌==◌, true, Option, none,
  some, [], ◌∷◌, arith, false, find, if◌then◌else◌, get_or, ltb, eq_iff, Bool-cases, inl, inr,
  cut_prefix, trim_space,
}
use mathlib.Core.Option.{some-injective}
use signalyard.Platform.Exec.{
  Result, Error, ok, serve, write_json, write_error, ◌>>=◌, pure, or_fail,
}
use signalyard.Platform.Database.{empty, AgentRow, Accepted}
use signalyard.Platform.World.{Env, World, start, next, statement, time_now}
use signalyard.Platform.Auth.{Claims, Crypto, Request, extract_token}
use signalyard.Registry.Agents.{find_agent}
use signalyard.Gateway.Auth.{second, issue_agent_token, parse_agent_token}
use signalyard.Gateway.Handlers.{Gateway, accepted}
use signalyard.Gateway.Handlers.Ingest.{handle_collect}
use signalyard.Gateway.Idempotent.{
  response_to, response_to-save_idempotency_response, handle_collect-replayed,
}
use signalyard.Gateway.Keys.{Agent}
use signalyard.Gateway.Rate.{new_rate_limiter, allow, refill, take_token}
use signalyard.Gateway.Rate.Isolated.{
  answers, bucket_answers, times_of, Requests, answers-bucket_answers,
}
use signalyard.Gateway.Router.{Codec, for_reviewer, delete_api_key}
use signalyard.Gateway.Store.{save_idempotency_response, idempotency_row, stored_response}
use signalyard.Gateway.Tokens.{parse_agent_token-issue_agent_token, for_reviewer-issue_agent_token}
use signalyard.Tests.Setup.{test_env, test_crypto}
use signalyard.Tests.Services.{gateway_config}
use signalyard.Tests.System.{test_identities, test_proxy}

abbrev pub agent_row : AgentRow
agent_row = record {
  id = 7;
  name = "bot";
  slug = "bot";
  description = some "";
  agent_type = "custom";
  status = "active";
  contact_email = some "";
  capabilities = none;
  created_at = 1;
}

abbrev with_agent : World
with_agent = start (record empty { agents = agent_row ∷ [] })

abbrev first_answer : Accepted
first_answer = record { event_id = "id"; status = "accepted" }

abbrev saved : Result Error (Unit {0}) × World
saved = save_idempotency_response "k" 7 7 first_answer with_agent

saved_ok : saved.0 ≡ ok tt
unfolding save_idempotency_response statement idempotency_row find_agent find
saved_ok = refl

response_to-save_idempotency_response_example :
    response_to saved.1.db "k" 7 ≡ some (get_or (response_to with_agent.db "k" 7) first_answer)
response_to-save_idempotency_response_example =
    response_to-save_idempotency_response "k" 7 7 first_answer with_agent saved.1 tt
      (ap (λ r. (r, saved.1)) saved_ok) "k" 7

abbrev caller : Agent
caller = record {
  id = 7;
  name = "bot";
  slug = "bot";
  description = "";
  agent_type = "custom";
  status = "active";
  contact_email = "";
  created_at = 1;
}

abbrev answered : Gateway
answered = record {
  world = start (record empty {
    idempotency_keys =
        record { key = "k"; agent_id = 7; event_id = 7; response = first_answer } ∷ [];
  });
  limiter = new_rate_limiter 50 100;
  ingested = [];
}

answered_before : response_to answered.world.db "k" 7 ≡ some first_answer
unfolding stored_response idempotency_row find
answered_before = refl

handle_collect-replayed_example :
    serve (handle_collect (λ e. true) caller "k" none) answered
    ≡ (write_json 200 (accepted first_answer), record answered { world = next answered.world })
handle_collect-replayed_example =
    handle_collect-replayed (λ e. true) caller "k" none answered first_answer refl refl
      answered_before

-- Two agents in turns.
abbrev busy : Requests
busy = (100, 1) ∷ (100, 2) ∷ (105, 1) ∷ (2000000000, 1) ∷ []

answers-bucket_answers_example :
    answers 1 busy (new_rate_limiter 1 1)
    ≡ bucket_answers (new_rate_limiter 1 1).rps (new_rate_limiter 1 1).burst none (times_of 1 busy)
unfolding new_rate_limiter
answers-bucket_answers_example = answers-bucket_answers 1 busy (new_rate_limiter 1 1)

-- The second request comes too early.
answers-busy : answers 1 busy (new_rate_limiter 1 1) ≡ true ∷ false ∷ true ∷ []
unfolding answers allow refill take_token new_rate_limiter
answers-busy = refl

-- A UUID is written as so many letters, and the token of an agent is its UUID.
unfoldable letters : ℕ → String
letters zero = String.[]
letters (suc n) = String.◌∷◌ "x" (letters n)

unfoldable letter_count : String → ℕ
letter_count String.[] = 0
letter_count (String.◌∷◌ c s) = suc (letter_count s)

letter_count-letters : (n : ℕ) → letter_count (letters n) ≡ n
unfolding letters letter_count
letter_count-letters zero = refl
letter_count-letters (suc n) = ap suc (letter_count-letters n)

abbrev letters_env : Env
letters_env = record test_env { uuid_parse = λ s. some (letter_count s); uuid_string = letters }

unfoldable sign : (sub email role kind : Option String) → Option String
sign (some sub) none none (some kind) = if kind == "agent" then some sub else none
sign sub email role kind = none

abbrev plain_crypto : Crypto
plain_crypto = record test_crypto {
  jwt_sign = λ secret c expires. sign c.sub c.email c.role c.kind;
  jwt_is_hmac = λ token. true;
  jwt_verify = λ secret token now.
      some (record { sub = some token; email = none; role = none; kind = some "agent" });
}

abbrev claims_of : (token : String) → Claims
claims_of token = record { sub = some token; email = none; role = none; kind = some "agent" }

signed :
    (token : String) (sub email role kind : Option String)
    → sign sub email role kind ≡ some token
    → claims_of token ≡ record { sub = sub; email = email; role = role; kind = kind }
unfolding sign
signed token none email role kind h = ground arith
signed token (some s) (some e) role kind h = ground arith
signed token (some s) none (some r) kind h = ground arith
signed token (some s) none none none h = ground arith
signed token (some s) none none (some k) h = elim (Bool-cases (k == "agent")) [
  | inl e ↦ rw ((eq_iff k "agent").0 e, some-injective s token (rw e at h)) refl
  | inr e ↦ let g = rw e at h in ground arith
]

verified :
    (secret token : String) (c : Claims) (exp now : ℕ)
    → plain_crypto.jwt_sign secret c exp ≡ some token
    → ltb now (exp * second) ≡ true
    → (plain_crypto.jwt_is_hmac token ≡ true) × (plain_crypto.jwt_verify secret token now ≡ some c)
verified secret token c exp now h t = (refl, ap some (signed token c.sub c.email c.role c.kind h))

parsed : (id : ℕ) → letters_env.uuid_parse (letters_env.uuid_string id) ≡ some id
parsed id = ap some (letter_count-letters id)

abbrev issue : Result Error (String × ℕ) × World
issue =
    issue_agent_token ⦃env = letters_env⦄ ⦃crypto = plain_crypto⦄ "secret" 2 2000000000
      (start empty)

issue_ok : issue.0 ≡ ok ("xx", 2000000100)
unfolding issue_agent_token ◌>>=◌ time_now or_fail pure sign letters
issue_ok = refl

parse_agent_token-issue_agent_token_example :
    parse_agent_token ⦃env = letters_env⦄ ⦃crypto = plain_crypto⦄ "secret" "xx" 120 ≡ some 2
parse_agent_token-issue_agent_token_example =
    parse_agent_token-issue_agent_token ⦃env = letters_env⦄ ⦃crypto = plain_crypto⦄ verified parsed
      "secret" "xx" 2 2000000000 2000000100 120 (start empty) issue.1
      (ap (λ r. (r, issue.1)) issue_ok) refl

abbrev agent_request : Request
agent_request = record { authorization = "Bearer xx"; token_header = "" }

token_extracted : extract_token agent_request ≡ "xx"
unfolding extract_token cut_prefix trim_space
token_extracted = refl

abbrev codec : Codec
codec = record { encodable = λ e. true; string_of_runes = λ cs. "bot" }

for_reviewer-issue_agent_token_example :
    serve
      (for_reviewer ⦃env = letters_env⦄ ⦃crypto = plain_crypto⦄ codec gateway_config agent_request
        (delete_api_key "x"))
      (start empty)
    ≡ (write_error 403 "forbidden", next (start empty))
for_reviewer-issue_agent_token_example =
    for_reviewer-issue_agent_token ⦃env = letters_env⦄ ⦃crypto = plain_crypto⦄ verified parsed codec
      gateway_config agent_request (delete_api_key "x") 2 2000000000 2000000100 (start empty)
      issue.1 (start empty)
      (ap (λ r. (r, issue.1)) issue_ok
        ∙ ap (λ t. (ok (t, 2000000100), issue.1)) (sym token_extracted))
      refl (rw token_extracted refl) (rw token_extracted refl)
