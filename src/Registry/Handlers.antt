-- ===== src/Registry/Handlers.antt =====
-- internal/registry/handlers.go and server.go: the server, the requests as they decode, the replies.
-- A request body is an `Option`: `none` where json.Decode fails. An absent map or list is `none`.
pub mod SchemaRoutes
pub mod Review
pub mod AgentRoutes
use signalyard.Common.{ℕ, String, Bool, true, false, Option, none, some, List}
use signalyard.Platform.Exec.{
  or_fail, Error, Result, Response, Exec, Handler, ok, err, write_error, raise, pure,
}
use signalyard.Platform.Json.{Object}
use signalyard.Platform.Auth.{TokenAuth}
use signalyard.Platform.World.{Env, World}
use signalyard.Registry.Schemas.{Category, Schema}
use signalyard.Registry.Proposals.{Proposal, AuditEntry}
use signalyard.Registry.Agents.{AgentRecord, ApiKeyMeta}
use signalyard.Registry.Git.{Git}

pub record Server : Type 0 where
  pub git : Git
  pub auth : TokenAuth
  pub before : String → String → Bool  -- the database's collation

pub record UpsertSchemaRequest : Type 0 where
  pub category : String
  pub json_schema : Option Object
  pub routing_yaml : String

pub record CreateProposalRequest : Type 0 where
  pub category : String
  pub generated_by : String
  pub json_schema_patch : Option Object
  pub routing_yaml_diff : String
  pub sample_event_ids : List String
  pub confidence : Option String

pub record CreateAgentRequest : Type 0 where
  pub agent_name : String
  pub description : String
  pub capabilities : Option (List String)

pub record UpdateAgentRequest : Type 0 where
  pub agent_name : String
  pub status : String
  pub capabilities : Option (List String)

pub data Reply : Type 0 where
  healthy : Reply
  schemas : List Schema → Reply
  versioned : String → ℕ → Reply  -- category and version
  schema : Schema → Reply
  deleted : String → Reply
  versions : List Schema → Reply
  categories : List Category → Reply
  proposals : List Proposal → Reply
  proposed : String → String → Reply  -- proposal_id and status
  proposal : Proposal → Reply
  approved : String → ℕ → Reply  -- proposal_id and new_version
  agents : List AgentRecord → Reply
  agent_id : String → Reply
  agent : AgentRecord → List ApiKeyMeta → Reply
  agent_deleted : String → Reply
  entries : List AuditEntry → Reply

-- `if errors.Is(err, ErrNotFound) { 404 } else if err != nil { 500 }`
abbrev pub missing_or : (missing other : String) → Error → Response Reply
missing_or missing other Error.not_found = write_error 404 missing
missing_or missing other e = write_error 500 other

module _ ⦃env : Env⦄ where
  -- uuid.Parse of a URL parameter
  unfoldable pub parse_id : String → String → Exec (Response Reply) World ℕ
  parse_id text msg = or_fail (env.uuid_parse text) (write_error 400 msg)

unfoldable pub decoded : {A : Type 0} → Option A → String → Exec (Response Reply) World A
decoded none msg = raise (write_error 400 msg)
decoded (some a) msg = pure a

-- `if x == "" || y == nil { 400 }`: the field that must be there, and whether another one is empty.
unfoldable pub required : {A : Type 0} → Option A → Bool → String → Exec (Response Reply) World A
required none missing msg = raise (write_error 400 msg)
required (some a) true msg = raise (write_error 400 msg)
required (some a) false msg = pure a
