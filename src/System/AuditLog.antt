-- ===== src/System/AuditLog.antt =====
-- The audit log in the writes of all services: only AuditLog of internal/registry/store.go writes to it.
use signalyard.Common.{
  ℕ, ◌≡◌, refl, sym, ap, ◌∙◌, String, String_eq, ℕ_eq, ◌&&◌, Bool-cases, inl, inr, is_some, Option,
  List, [], ◌++◌, arith,
}
use mathlib.Core.List.{append-nil, append_assoc}
use signalyard.Platform.Exec.{Error, Result}
use signalyard.Platform.Database.{Db, AuditRow}
use signalyard.Platform.Auth.{Crypto}
use signalyard.Platform.World.{Env, statement}
use signalyard.Platform.Keeps.{Preorder, Keeps}
use signalyard.Platform.KeepsDb.{tables, Keeps-statement}
use signalyard.Registry.Proposals.{
  create_proposal, finalize_proposal, audit_log, find_proposal, refers_to_user,
}
use signalyard.Registry.Agents.{create_agent, update_agent, delete_agent, drop_agent}
use signalyard.Registry.Schemas.{delete_category, delete_row, drop_category}
use signalyard.Registry.CommitTables.{commit-Keeps}
use signalyard.Gateway.Auth.{Identities}
use signalyard.Gateway.Handlers.Tools.{RegistryProxy}
use signalyard.Gateway.Dispatch.Frame as GatewayFrame
use signalyard.Normalizer.State.{Upstream}
use signalyard.Normalizer.Dispatch.Frame as NormalizerFrame
use signalyard.Webhook.Dispatch.Frame as WebhookFrame
use signalyard.System.{System, Deployment, Run}
use signalyard.System.Kept.{WritesKeep, run-Keeps}

-- The second log goes on where the first ends.
abbrev pub Extends : Db → Db → Type 0
Extends d e = (new : List AuditRow) × (e.approval_audit_log ≡ d.approval_audit_log ++ new)

unchanged : (l l' : List AuditRow) → l' ≡ l → (new : List AuditRow) × (l' ≡ l ++ new)
unchanged l l' h = ([], h ∙ sym (append-nil l))

extending : Preorder Extends
extending = record {
  reflexive = λ d. unchanged _ _ refl;
  transitive = λ a b c (x, p) (y, q).
      (x ++ y, q ∙ ap (λ l. l ++ y) p ∙ append_assoc a.approval_audit_log x y);
}

module _ ⦃env : Env⦄ where
  other_table :
      {A : Type 0} (f : ℕ → Db → Result Error A × Db)
      → ((n : ℕ) (d : Db) → (f n d).1.approval_audit_log ≡ d.approval_audit_log)
      → Keeps tables Extends (statement f)
  other_table f h = Keeps-statement extending f (λ n d. unchanged _ _ (h n d))

  audit_log-Extends :
      (id : ℕ) (u : Option ℕ) (a n : String) → Keeps tables Extends (audit_log id u a n)
  unfolding audit_log
  audit_log-Extends id u a n = Keeps-statement extending _ λ k d.
      elim (Bool-cases (is_some (find_proposal id d) && refers_to_user u d)) [
        | inl e ↦ rw e (_, refl)
        | inr e ↦ rw e (extending.reflexive d)
      ]

  writes : WritesKeep Extends
  unfolding create_proposal finalize_proposal create_agent update_agent delete_agent drop_agent
      delete_category delete_row drop_category
  writes = record {
    of_registry = record {
      commit = commit-Keeps extending (λ d c s. unchanged _ _ refl);
      delete_schemas = λ c. other_table _ (λ n d. ground arith);
      propose = λ c g o r s n. other_table _ (λ k d. ground arith);
      finalize = λ id s r n o. other_table _ (λ k d. ground arith);
      audit = audit_log-Extends;
      add_agent = λ n d c. other_table _ (λ k d. ground arith);
      change_agent = λ id n s c. other_table _ (λ k d. ground arith);
      remove_agent = λ id. other_table _ (λ k d. ground arith);
    };
    of_gateway = GatewayFrame.writes extending (λ d a k u i. unchanged _ _ refl);
    of_normalizer = NormalizerFrame.writes extending (λ d e q. unchanged _ _ refl);
    of_webhook = WebhookFrame.writes extending (λ d w. unchanged _ _ refl);
  }

-- In any run of the four services, the audit log at the end is the one at the start with entries added
-- behind it: no entry is changed or removed.
pub run-Extends :
    ⦃env : Env⦄ ⦃crypto : Crypto⦄ ⦃ids : Identities⦄ ⦃proxy : RegistryProxy⦄ ⦃up : Upstream⦄
    (c : Deployment) (s t : System)
    → Run c s t
    → Extends s.world.db t.world.db
run-Extends c s t r = run-Keeps extending writes c s t r
