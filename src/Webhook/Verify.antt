-- ===== src/Webhook/Verify.antt =====
-- internal/webhook/verify.go, and the tools with their secrets (config.go, server.go).
use signalyard.Common.{
  String, String_eq, Bool, true, false, ◌||◌, Option, none, some, List, [], ◌∷◌, cut_prefix,
  trim_space, ◌==◌, if◌then◌else◌,
}
use signalyard.Platform.Auth.{Crypto}

-- The routes are registered for these tools only.
pub data Tool : Type 0 where
  github jira pagerduty marble_jar : Tool

abbrev pub tool_name : Tool → String
tool_name github = "github"
tool_name jira = "jira"
tool_name pagerduty = "pagerduty"
tool_name marble_jar = "marble-jar"

pub record Config : Type 0 where
  pub github_webhook_secret : String
  pub jira_webhook_secret : String
  pub pager_duty_webhook_secret : String
  pub marble_jar_webhook_secret : String

unfoldable pub secret_for : Config → Tool → String
secret_for c github = c.github_webhook_secret
secret_for c jira = c.jira_webhook_secret
secret_for c pagerduty = c.pager_duty_webhook_secret
secret_for c marble_jar = c.marble_jar_webhook_secret

-- The headers that the adapter reads, "" where absent; `pager_duty_parts` is the header
-- X-PagerDuty-Signature after strings.Split at the commas.
pub record Headers : Type 0 where
  pub hub_signature_256 : String
  pub hub_signature : String
  pub pager_duty_parts : List String
  pub signalyard_signature : String
  pub github_event : String
  pub github_delivery : String
  pub user_agent : String
  pub content_type : String

-- hmac.Equal
abbrev pub cut_equals : Option String → String → Bool
cut_equals none want = false
cut_equals (some got) want = got == want

unfoldable pub check_hmac_header : (header prefix want : String) → Bool
check_hmac_header header prefix want = cut_equals (cut_prefix prefix header) want

unfoldable pub any_part : String → List String → Bool
any_part want [] = false
any_part want (part ∷ rest) =
    let later = any_part want rest in
    if cut_equals (cut_prefix "v1=" (trim_space part)) want then true else later

module _ ⦃crypto : Crypto⦄ where
  unfoldable pub tool_signature : Tool → Headers → (body secret : String) → Bool
  unfolding check_hmac_header any_part
  tool_signature github h body secret =
      check_hmac_header h.hub_signature_256 "sha256=" (crypto.hmac_sha256 secret body)
      || check_hmac_header h.hub_signature "sha1=" (crypto.hmac_sha1 secret body)
  tool_signature pagerduty h body secret =
      any_part (crypto.hmac_sha256 secret body) h.pager_duty_parts
  tool_signature jira h body secret =
      check_hmac_header h.signalyard_signature "sha256=" (crypto.hmac_sha256 secret body)
  tool_signature marble_jar h body secret =
      check_hmac_header h.signalyard_signature "sha256=" (crypto.hmac_sha256 secret body)

  -- verifySignature: without a secret the tool's traffic is refused.
  unfoldable pub verify_signature : Tool → Headers → (body secret : String) → Bool
  unfolding tool_signature
  verify_signature tool h body secret =
      if secret == "" then false else tool_signature tool h body secret
