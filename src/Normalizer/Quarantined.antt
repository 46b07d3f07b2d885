-- ===== src/Normalizer/Quarantined.antt =====
-- Where nothing fails, an event of an unknown category is quarantined (internal/normalizer/worker.go).
use signalyard.Common.{
  ℕ, ◌+◌, ◌≡◌, refl, String, ℕ_eq, String_eq, ◌==◌, true, false, Option, none, some, Option-cases,
  inl, inr, find, nat_eq_iff,
}
use signalyard.Common.ListLaws.{find-append_new, find-update}
use signalyard.Platform.Exec.{ok, ◌>>=◌, pure, attempt}
use signalyard.Platform.Messages.{Envelope}
use signalyard.Platform.Database.{Db, QuarantineRow}
use signalyard.Platform.World.{Env, World, statement, publish}
use signalyard.Normalizer.State.{Worker, Upstream, replied}
use signalyard.Normalizer.RegistryClient.{tick}
use signalyard.Normalizer.Store.{
  quarantine_row, upsert_quarantine, find_quarantined, refers_to_agent, requarantined,
}
use signalyard.Normalizer.Worker.{
  quarantine, process, after_schema, handle_ingest, answer, ack, bump_processed,
}
use signalyard.Normalizer.Redelivered.{get_schema-missing}

-- The row that an event leaves in the quarantine table when statement `n` stores it.
abbrev pub new_quarantined : ⦃env : Env⦄ → ℕ → ℕ → Envelope → String → QuarantineRow
new_quarantined ⦃env⦄ n id e reason = record {
  id = id;
  agent_id = env.uuid_parse e.agent_id;
  source = e.source;
  raw_payload = some e;
  reason = reason;
  status = "pending";
  attempts = 0;
  created_at = env.now n;
}

-- The row of the event: a new one where there was none, or the one that was there, with an attempt more.
abbrev pub IsQuarantined : ⦃env : Env⦄ → ℕ → Envelope → String → Option QuarantineRow → Db → Type 0
IsQuarantined id e reason none d =
    (n : ℕ) × (find_quarantined id d ≡ some (new_quarantined n id e reason))
IsQuarantined id e reason (some old) d =
    find_quarantined id d ≡ some (record old { attempts = old.attempts + 1; reason = reason })

module _ ⦃env : Env⦄ where
  upsert-works :
      (id : ℕ) (e : Envelope) (reason : String) (w : World)
      → ((n : ℕ) → env.db_fails n ≡ false)
      → refers_to_agent (env.uuid_parse e.agent_id) w.db ≡ true
      → ((upsert_quarantine id e reason w).0 ≡ ok tt)
        × IsQuarantined id e reason
            (find_quarantined id w.db)
            (upsert_quarantine id e reason w).1.db
  unfolding upsert_quarantine statement find_quarantined requarantined
  upsert-works id e reason w f g =
      elim (Option-cases (find (λ (x : QuarantineRow). x.id == id) w.db.quarantine_events)) [
        | inl h ↦ (
          rw (f w.calls, h, g) refl,
          rw (f w.calls, h, g)
              (w.calls, find-append_new _ _ w.db.quarantine_events ((nat_eq_iff id id).1 refl) h),
        )
        | inr (r, h) ↦ (
          rw (f w.calls, h) refl,
          rw (f w.calls, h) (find-update _ _ r w.db.quarantine_events (λ x. refl) h),
        )
      ]

module _ ⦃env : Env⦄ ⦃up : Upstream⦄ where
  quarantine-works :
      (id : ℕ) (e : Envelope) (reason : String) (s : Worker)
      → ((n : ℕ) → env.db_fails n ≡ false)
      → ((n : ℕ) → env.nats_fails n ≡ false)
      → env.uuid_parse e.event_id ≡ some id
      → refers_to_agent (env.uuid_parse e.agent_id) s.world.db ≡ true
      → ((quarantine e reason s).0 ≡ ok tt)
        × IsQuarantined id e reason
            (find_quarantined id s.world.db)
            (quarantine e reason s).1.world.db
  unfolding quarantine quarantine_row ◌>>=◌ pure publish
  quarantine-works id e reason s f m i g =
      let (r, k) = upsert-works id e reason s.world f g in
      (
        rw (i, r, m (upsert_quarantine id e reason s.world).1.calls) refl,
        rw (i, r, m (upsert_quarantine id e reason s.world).1.calls) k,
      )

  -- Where the database and JetStream work, a delivered event whose category has no schema (the registry
  -- answers 404 and nothing is cached), and whose agent is known or not given, is acknowledged. Where no
  -- row of its id was in the quarantine table, there is one now, with the event as its payload, its agent and
  -- its source, the status pending, no attempts and the reason unknown_category; where there was one, it has
  -- an attempt more and this reason, and is else as it was.
  pub handle_ingest-IsQuarantined :
      (id : ℕ) (e : Envelope) (s : Worker)
      → ((n : ℕ) → env.db_fails n ≡ false)
      → ((n : ℕ) → env.nats_fails n ≡ false)
      → env.uuid_parse e.event_id ≡ some id
      → refers_to_agent (env.uuid_parse e.agent_id) s.world.db ≡ true
      → s.cache e.category ≡ none
      → ((w : World) → up.fetch w e.category ≡ replied 404 none)
      → ((handle_ingest (some e) s).0 ≡ ack)
        × IsQuarantined id e "unknown_category"
            (find_quarantined id s.world.db)
            (handle_ingest (some e) s).1.world.db
  unfolding handle_ingest answer process ◌>>=◌ attempt after_schema pure
  handle_ingest-IsQuarantined id e s f m i g c h =
      let s1 = record s { counts = bump_processed s.counts } in
      let (r, k) = quarantine-works id e "unknown_category" (tick s1) f m i g in
      let q = get_schema-missing e.category s1 c h in (rw (q, r) refl, rw (q, r) k)
