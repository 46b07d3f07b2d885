-- ===== src/System/Quarantine.antt =====
-- The quarantine table in the writes of all services: rows are appended under new ids, and changed in place.
pub mod Rows
use signalyard.Common.{
  ℕ, ◌≡◌, ◌≤◌, refl, sym, subst, String, String_eq, ℕ_eq, Bool, true, Option, none, some, List, [],
  ◌∷◌, ◌++◌, map, arith, ◌==◌, find, update, Bool-cases, Option-cases, inl, inr, is_some,
}
use signalyard.Platform.Exec.{Error, Result}
use signalyard.Platform.Messages.{Envelope}
use signalyard.Platform.Database.{Db, QuarantineRow, SchemaRow}
use signalyard.Platform.World.{Env, statement}
use signalyard.Platform.Keeps.{Preorder, Keeps}
use signalyard.Platform.KeepsDb.{tables, Keeps-statement}
use signalyard.Registry.Proposals.{create_proposal, finalize_proposal, audit_log}
use signalyard.Registry.Agents.{
  create_agent, update_agent, delete_agent, drop_agent, find_agent, forget_agent,
}
use signalyard.Registry.Schemas.{delete_category, delete_row, drop_category, find_category}
use signalyard.Registry.CommitTables.{commit-Keeps}
use signalyard.Registry.Dispatch as RegistryDispatch
use signalyard.Gateway.Dispatch.Frame as GatewayFrame
use signalyard.Webhook.Dispatch.Frame as WebhookFrame
use signalyard.Normalizer.Dispatch as NormalizerDispatch
use signalyard.Normalizer.Store.{
  insert_row, upsert_quarantine, mark_replayed, bump_attempts, requarantined, find_quarantined,
  refers_to_agent,
}
use signalyard.System.Kept.{WritesKeep}

-- What no write changes in a row, or changes one way only.
pub record SameEvent (p q : QuarantineRow) : Type 0 where
  pub id : q.id ≡ p.id
  pub payload : q.raw_payload ≡ p.raw_payload
  pub source : q.source ≡ p.source
  pub created_at : q.created_at ≡ p.created_at
  pub attempts : p.attempts ≤ q.attempts
  pub replayed : p.status ≡ "replayed" → q.status ≡ "replayed"

abbrev pub has_id : ℕ → QuarantineRow → Bool
has_id id r = r.id == id

pub record TableRules (R : List QuarantineRow → List QuarantineRow → Type 0) : Type 0 where
  pub order : Preorder R
  pub append :
      (rows : List QuarantineRow) (r : QuarantineRow)
      → find (has_id r.id) rows ≡ none
      → R rows (rows ++ r ∷ [])
  pub change :
      (rows : List QuarantineRow) (t : QuarantineRow → Bool) (f : QuarantineRow → QuarantineRow)
      → ((r : QuarantineRow) → SameEvent r (f r))
      → R rows (update t f rows)

update_all :
    (f : QuarantineRow → QuarantineRow) (rows : List QuarantineRow)
    → update (λ r. true) f rows ≡ map f rows
unfolding update
update_all f [] = refl
update_all f (r ∷ rows) = rw (update_all f rows)

-- On the whole database.
abbrev pub OnDb : (List QuarantineRow → List QuarantineRow → Type 0) → Db → Db → Type 0
OnDb R d e = R d.quarantine_events e.quarantine_events

module _ ⦃env : Env⦄ {R : List QuarantineRow → List QuarantineRow → Type 0} (t : TableRules R) where
  pub on_db : Preorder (OnDb R)
  on_db = record {
    reflexive = λ d. t.order.reflexive d.quarantine_events;
    transitive = λ a b c p q. t.order.transitive _ _ _ p q;
  }

  other_table :
      {A : Type 0} (f : ℕ → Db → Result Error A × Db)
      → ((n : ℕ) (d : Db) → (f n d).1.quarantine_events ≡ d.quarantine_events)
      → Keeps tables (OnDb R) (statement f)
  other_table f h =
      Keeps-statement on_db f
        λ n d. subst (R d.quarantine_events) (sym (h n d)) (t.order.reflexive d.quarantine_events)

  drop_agent-R : (id : ℕ) (d : Db) → OnDb R d (drop_agent id d)
  unfolding drop_agent
  drop_agent-R id d = subst (R d.quarantine_events) (update_all _ d.quarantine_events) (
      t.change d.quarantine_events (λ r. true)
        (λ q. record q { agent_id = forget_agent id q.agent_id })
        λ r. record {
          id = refl;
          payload = refl;
          source = refl;
          created_at = refl;
          attempts = omega arith;
          replayed = λ h. h;
        })

  delete_agent-R : (id : ℕ) → Keeps tables (OnDb R) (delete_agent id)
  unfolding delete_agent
  delete_agent-R id = Keeps-statement on_db _ λ n d. elim (Option-cases (find_agent id d)) [
    | inl e ↦ rw e (on_db.reflexive d)
    | inr (r, e) ↦ rw e (drop_agent-R id d)
  ]

  registry_writes : RegistryDispatch.WritesKeep (OnDb R)
  unfolding create_proposal finalize_proposal audit_log create_agent update_agent delete_category
      delete_row drop_category
  registry_writes = record {
    commit = commit-Keeps on_db (λ d c s. t.order.reflexive d.quarantine_events);
    delete_schemas = λ c. other_table _ (λ n d. ground arith);
    propose = λ c g o r s n. other_table _ (λ k d. ground arith);
    finalize = λ id s r n o. other_table _ (λ k d. ground arith);
    audit = λ id u a n. other_table _ (λ k d. ground arith);
    add_agent = λ n d c. other_table _ (λ k d. ground arith);
    change_agent = λ id n s c. other_table _ (λ k d. ground arith);
    remove_agent = delete_agent-R;
  }

  requarantined-R :
      (id : ℕ) (reason : String) (rows : List QuarantineRow)
      → R rows (update (has_id id) (requarantined reason) rows)
  unfolding requarantined
  requarantined-R id reason rows = t.change rows (has_id id) _ λ r. record {
    id = refl;
    payload = refl;
    source = refl;
    created_at = refl;
    attempts = omega arith;
    replayed = λ h. h;
  }

  replayed-R :
      (id : ℕ) (rows : List QuarantineRow)
      → R rows (update (has_id id) (λ r. record r { status = "replayed" }) rows)
  replayed-R id rows = t.change rows (has_id id) _ λ r. record {
    id = refl;
    payload = refl;
    source = refl;
    created_at = refl;
    attempts = omega arith;
    replayed = λ h. refl;
  }

  upsert-R : (id : ℕ) (e : Envelope) (r : String) → Keeps tables (OnDb R) (upsert_quarantine id e r)
  unfolding upsert_quarantine find_quarantined
  upsert-R id e r = Keeps-statement on_db _ λ n d.
      elim (Option-cases (find (has_id id) d.quarantine_events)) [
        | inl h ↦ elim (Bool-cases (refers_to_agent (env.uuid_parse e.agent_id) d)) [
          | inl g ↦ rw (h, g) (t.append d.quarantine_events _ h)
          | inr g ↦ rw (h, g) (on_db.reflexive d)
        ]
        | inr (old, h) ↦ rw h (requarantined-R id r d.quarantine_events)
      ]

  normalizer_writes : NormalizerDispatch.WritesKeep (OnDb R)
  unfolding insert_row mark_replayed bump_attempts
  normalizer_writes = record {
    event = λ e s. other_table _ (λ n d. ground arith);
    quarantined = upsert-R;
    replayed = λ id. Keeps-statement on_db _ (λ n d. replayed-R id d.quarantine_events);
    bumped = λ id r. Keeps-statement on_db _ (λ n d. requarantined-R id r d.quarantine_events);
  }

  pub writes : WritesKeep (OnDb R)
  writes = record {
    of_registry = registry_writes;
    of_gateway = GatewayFrame.writes on_db (λ d a k u i. t.order.reflexive d.quarantine_events);
    of_normalizer = normalizer_writes;
    of_webhook = WebhookFrame.writes on_db (λ d w. t.order.reflexive d.quarantine_events);
  }
