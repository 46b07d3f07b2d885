-- ===== src/Platform/Database.antt =====
-- The tables of migrations/0001_init.sql to 0003_idempotency.sql, with the columns that the Go
-- services read or write. A nullable column is an `Option` where NULL can occur.
use signalyard.Common.{none, ℕ, String, Bool, Option, List, []}
use signalyard.Platform.Json.{Object}
use signalyard.Platform.Messages.{Envelope}

pub record AgentRow : Type 0 where
  pub id : ℕ
  pub name : String
  pub slug : String
  pub description : Option String
  pub agent_type : String
  pub status : String
  pub contact_email : Option String
  pub capabilities : Option (List String)  -- of the JSON column metadata
  pub created_at : ℕ

pub record KeyRow : Type 0 where
  pub id : ℕ
  pub agent_id : ℕ
  pub key_hash : String
  pub key_prefix : String
  pub label : String
  pub scopes : List String
  pub revoked_at : Option ℕ
  pub last_used_at : Option ℕ
  pub expires_at : Option ℕ
  pub created_at : ℕ

pub record UserRow : Type 0 where
  pub id : ℕ
  pub email : String
  pub display_name : String
  pub oidc_subject : String
  pub role : String
  pub last_login_at : ℕ

pub record CategoryRow : Type 0 where
  pub id : ℕ
  pub name : String
  pub description : Option String
  pub created_at : ℕ

pub record SchemaRow : Type 0 where
  pub id : ℕ
  pub category_id : ℕ
  pub version : ℕ
  pub json_schema : Object
  pub routing_yaml : String
  pub git_commit_sha : Option String
  pub is_active : Bool
  pub created_by : String
  pub created_at : ℕ

-- `raw_payload` is what the JSON column decodes to as an envelope, `none` where it does not decode.
pub record QuarantineRow : Type 0 where
  pub id : ℕ
  pub agent_id : Option ℕ
  pub source : String
  pub raw_payload : Option Envelope
  pub reason : String
  pub status : String
  pub attempts : ℕ
  pub created_at : ℕ

pub record EventRow : Type 0 where
  pub id : ℕ
  pub agent_id : Option ℕ
  pub category_id : ℕ
  pub schema_id : ℕ
  pub source : String
  pub normalized_payload : Object
  pub occurred_at : ℕ
  pub created_at : ℕ

pub record ProposalRow : Type 0 where
  pub id : ℕ
  pub quarantine_event_id : Option ℕ
  pub proposed_category_name : String
  pub proposed_json_schema : Object
  pub proposed_routing_yaml : String
  pub diff : Option String
  pub classifier_agent_name : String
  pub confidence : Option String
  pub status : String
  pub reviewed_by : Option String
  pub resulting_schema_id : Option ℕ
  pub created_at : ℕ

pub record AuditRow : Type 0 where
  pub id : ℕ
  pub proposal_id : ℕ
  pub user_id : Option ℕ
  pub action : String
  pub notes : String
  pub created_at : ℕ

pub record SourceRow : Type 0 where
  pub id : ℕ
  pub name : String
  pub secret_hash : String
  pub endpoint_path : String

pub record DeliveryRow : Type 0 where
  pub id : ℕ
  pub webhook_source_id : ℕ
  pub http_status : Option ℕ
  pub raw : Object  -- the two parts of raw_body
  pub normalized : Option Envelope
  pub headers : List (String × String)
  pub signature_valid : Bool
  pub error_message : Option String
  pub created_at : ℕ

pub record IdempotencyRow (R : Type 0) : Type 0 where
  pub key : String
  pub agent_id : ℕ
  pub event_id : ℕ
  pub response : R

-- The response of POST /v1/collect, as it is stored for a replayed request.
pub record Accepted : Type 0 where
  pub event_id : String
  pub status : String

pub record Db : Type 0 where
  pub agents : List AgentRow
  pub api_keys : List KeyRow
  pub users : List UserRow
  pub categories : List CategoryRow
  pub schemas : List SchemaRow
  pub quarantine_events : List QuarantineRow
  pub events : List EventRow
  pub schema_proposals : List ProposalRow
  pub approval_audit_log : List AuditRow
  pub webhook_sources : List SourceRow
  pub webhook_deliveries : List DeliveryRow
  pub idempotency_keys : List (IdempotencyRow Accepted)
  pub schema_migrations : Option (List String)  -- the names of the applied migrations, once the table is there

abbrev pub empty : Db
empty = record {
  agents = [];
  api_keys = [];
  users = [];
  categories = [];
  schemas = [];
  quarantine_events = [];
  events = [];
  schema_proposals = [];
  approval_audit_log = [];
  webhook_sources = [];
  webhook_deliveries = [];
  idempotency_keys = [];
  schema_migrations = none;
}
