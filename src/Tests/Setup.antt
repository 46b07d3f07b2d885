-- ===== src/Tests/Setup.antt =====
-- An environment in which nothing fails, and the callers and requests of the tests.
use Prim.Native.Nat.{◌/◌}
use signalyard.Common.{◌+◌, ◌-◌, ◌*◌, ltb, leb, String, true, false, none, some, [], ◌∷◌}
use signalyard.Gateway.Auth.{second}
use signalyard.Platform.Float64.{Float64}
use signalyard.Platform.Json.{end}
use signalyard.Platform.Database.{empty, ProposalRow}
use signalyard.Platform.World.{Env, World, start}
use signalyard.Platform.Auth.{Crypto, Identity, Request, user}
use signalyard.Registry.Git.{noop}
use signalyard.Registry.Handlers.{Server, UpsertSchemaRequest}

-- Whole numbers, which are exact.
abbrev whole_floats : Float64
whole_floats = record {
  of_nat = λ n. n;
  add = λ a b. a + b;
  sub = λ a b. a - b;
  mul = λ a b. a * b;
  lt = ltb;
  le = leb;
  seconds = λ n. n / second;
}

-- Every UUID's text is "id", which is UUID 7; call n makes UUID n + 10 at time n + 100.
instance abbrev pub test_env : Env
test_env = record {
  db_fails = λ n. false;
  nats_fails = λ n. false;
  publish_error = "nats: timeout";
  http_status = λ n. some 204;
  git_fails = λ n. false;
  now = λ n. n + 100;
  new_uuid = λ n. n + 10;
  uuid_parse = λ s. some 7;
  uuid_string = λ n. "id";
  short_uuid = λ n. "ab12cd34";
  commit_lost = λ n. false;
  float64 = whole_floats;
}

-- Every digest is the message, and no token is a JWT.
instance abbrev pub test_crypto : Crypto
test_crypto = record {
  hmac_sha256 = λ key message. message;
  hmac_sha1 = λ key message. message;
  sha256 = λ message. message;
  jwt_sign = λ secret claims expires. some "token";
  jwt_is_hmac = λ token. false;
  jwt_verify = λ secret token now. none;
}

abbrev pub server : Server
server = record {
  git = noop;
  auth = record { hec_salt = "salt"; jwt_secret = "secret"; dev_admin_token = "dev" };
  before = λ a b. true;
}

abbrev pub admin_request : Request
admin_request = record { authorization = "Bearer dev"; token_header = "" }

abbrev pub new_auth_schema : UpsertSchemaRequest
new_auth_schema = record {
  category = "auth";
  json_schema = some end;
  routing_yaml = "target: loki";
}

abbrev pub approver : Identity
approver = record {
  kind = user;
  agent_id = 0;
  user_id = 3;
  email = "ann@example.org";
  role = "approver";
}

abbrev pub proposal_with : String → ProposalRow
proposal_with status = record {
  id = 7;
  quarantine_event_id = none;
  proposed_category_name = "auth";
  proposed_json_schema = end;
  proposed_routing_yaml = "target: loki";
  diff = none;
  classifier_agent_name = "classifier";
  confidence = none;
  status = status;
  reviewed_by = none;
  resulting_schema_id = none;
  created_at = 1;
}

-- One proposal, with the status given.
abbrev pub with_proposal : String → World
with_proposal status = start (record empty { schema_proposals = proposal_with status ∷ [] })
