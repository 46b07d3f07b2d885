-- ===== src/Platform/Messages.antt =====
-- The messages that the services exchange over JetStream, as the receiver decodes them.
use signalyard.Common.{ℕ, String}
use signalyard.Platform.Json.{Object}

-- The message shape on events.ingest.*. Times are nanoseconds since the zero time.
pub record Envelope : Type 0 where
  pub event_id : String
  pub agent_id : String
  pub agent_slug : String
  pub category : String
  pub source : String
  pub timestamp : ℕ
  pub payload : Object
  pub received_at : ℕ

pub record SchemaApprovedEvent : Type 0 where
  pub category : String
  pub version : ℕ
  pub schema_id : ℕ
  pub proposal_id : ℕ
  pub approved_by : String
  pub emitted_at : ℕ

pub record DeadLetter : Type 0 where
  pub tool : String
  pub delivery_id : String
  pub error : String
  pub normalized : Envelope
  pub failed_at : ℕ

pub data Body : Type 0 where
  envelope : Envelope → Body
  schema_approved : SchemaApprovedEvent → Body
  dead_letter : DeadLetter → Body
  bytes : String → Body

pub record Message : Type 0 where
  pub subject : String
  pub content : Body
