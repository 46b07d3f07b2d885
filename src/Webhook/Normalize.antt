-- ===== src/Webhook/Normalize.antt =====
-- internal/webhook/normalize.go: a tool's payload in the common envelope.
use signalyard.Common.{ℕ, String}
use signalyard.Platform.Json.{text, Object, end, field, get}
use signalyard.Platform.Messages.{Envelope}
use signalyard.Webhook.Verify.{Tool, github, jira, pagerduty, marble_jar, tool_name, Headers}

unfoldable pub category_of : Tool → String
category_of github = "github_event"
category_of jira = "pm_ticket_update"
category_of pagerduty = "soar_alert"
category_of marble_jar = "marble_jar_event"

unfoldable pub payload_of : Tool → Headers → Object → Object
unfolding get
payload_of github h raw = field "event" (text h.github_event) (
    field "delivery" (text h.github_delivery) (
      field "action" (get raw "action")
        (field "repository" (get raw "repository") (field "sender" (get raw "sender") end))))
payload_of jira h raw = field "webhook_event" (get raw "webhookEvent") (
    field "issue" (get raw "issue")
      (field "user" (get raw "user") (field "changelog" (get raw "changelog") end)))
payload_of pagerduty h raw =
    field "event" (get raw "event") (field "messages" (get raw "messages") end)
payload_of marble_jar h raw = raw

-- The agent is left out, and so is the time of receipt.
unfoldable pub normalize : (now : ℕ) → Tool → Headers → Object → Envelope
unfolding category_of payload_of
normalize now tool h raw = record {
  event_id = "";
  agent_id = "";
  agent_slug = "";
  category = category_of tool;
  source = tool_name tool;
  timestamp = now;
  payload = payload_of tool h raw;
  received_at = 0;
}
