-- ===== src/Gateway/Migrations/Again.antt =====
-- Migrations that ran before.
use signalyard.Common.{
  ◌≡◌, refl, sym, ap, subst, ◌∙◌, String, String_eq, true, Option, none, some, List, [], ◌∷◌, ◌++◌,
  is_some, find, ◌==◌, Bool-cases, Option-cases, inl, inr, arith, eq_iff,
}
use signalyard.Common.ListLaws.{find-append_new}
use signalyard.Platform.Exec.{
  Error, failed, Result, ok, err, Exec, ◌>>=◌, ◌>>◌, pure, or_fail, continue,
}
use signalyard.Platform.Database.{Db}
use signalyard.Platform.Inversion.{>>=-eq-ok, transaction-eq-ok, statement-eq-ok, db-statement}
use signalyard.Platform.World.{Env, World, query, statement, next}
use signalyard.Platform.Keeps.{Preorder, Keeps, Keeps-bind, Keeps-if, Keeps-pure, Keeps-or_fail}
use signalyard.Platform.KeepsDb.{tables, Keeps-statement, Keeps-query, Keeps-transaction}
use signalyard.Gateway.Migrations.{
  DirEntry, is_migration, is_applied, is_listed, created, with_table, with_name, ensure_table,
  run_sql, record_migration, apply_migration, migrate, run_migrations,
}

module _ {A B : Type 0} where
  after_same :
      (r : Result Error A) (f : A → Exec Error World B) (w t : World)
      → t.db ≡ w.db
      → ((a : A) → (f a t).1.db ≡ t.db)
      → (continue r f t).1.db ≡ w.db
  after_same (ok a) f w t p k = k a ∙ p
  after_same (err e) f w t p k = p

  -- A chain changes no table if neither part does.
  then_same :
      (m : Exec Error World A) (f : A → Exec Error World B) (w : World)
      → (m w).1.db ≡ w.db
      → ((a : A) → (f a (m w).1).1.db ≡ (m w).1.db)
      → ((m >>= f) w).1.db ≡ w.db
  unfolding ◌>>=◌
  then_same m f w p k = after_same (m w).0 f w (m w).1 p k

content_same : (c : Option String) (w : World) → (or_fail {E = Error} c failed w).1.db ≡ w.db
unfolding or_fail
content_same none w = refl
content_same (some sql) w = refl

module _ ⦃env : Env⦄ (execute : String → Db → Option Db) where
  same_names : (name : String) (o : Option (List String)) → is_listed name o ≡ true → created o ≡ o
  same_names name none a = ground arith
  same_names name (some names) a = refl

  same_table : (name : String) (d : Db) → is_applied name d ≡ true → with_table d ≡ d
  unfolding is_applied
  same_table name d a =
      ap (λ o. record d { schema_migrations = o }) (same_names name d.schema_migrations a)

  still_applied :
      (name : String) (d : Db) → is_applied name d ≡ true → is_applied name (with_table d) ≡ true
  still_applied name d a = subst (λ e. is_applied name e ≡ true) (sym (same_table name d a)) a

  -- One that ran before only reads.
  migrate-applied :
      (name sql : String) (w : World)
      → is_applied name w.db ≡ true
      → (migrate execute name sql w).1.db ≡ w.db
  unfolding migrate ensure_table query statement ◌>>=◌ pure
  migrate-applied name sql w a = elim (Bool-cases (env.db_fails w.calls)) [
    | inl f ↦ rw f refl
    | inr f ↦ elim (Bool-cases (env.db_fails (next w).calls)) [
      | inl g ↦ rw (f, g) (same_table name w.db a)
      | inr g ↦ rw (f, g, still_applied name w.db a) (same_table name w.db a)
    ]
  ]

  with_name-recorded :
      (name : String) (d : Db) (o : Option (List String))
      → (with_name name d o).0 ≡ ok tt
      → is_applied name (with_name name d o).1 ≡ true
  unfolding is_applied
  with_name-recorded name d none h = ground arith
  with_name-recorded name d (some names) h = elim (Option-cases (find (λ n. n == name) names)) [
    | inl e ↦ rw e (rw (find-append_new _ name names ((eq_iff name name).1 refl) e) refl)
    | inr (n, e) ↦ let g = rw e at h in ground arith
  ]

  recorded :
      (name : String) (w w' : World) (u : Unit {0})
      → record_migration execute name w ≡ (ok u, w')
      → is_applied name w'.db ≡ true
  unfolding record_migration
  recorded name w w' u h =
      rw (db-statement _ w w' u h)
        (with_name-recorded name w.db w.db.schema_migrations (statement-eq-ok _ w w' u h))

  applied :
      (name sql : String) (w w' : World) (u : Unit {0})
      → apply_migration execute name sql w ≡ (ok u, w')
      → is_applied name w'.db ≡ true
  unfolding apply_migration
  applied name sql w w' u h =
      let m = run_sql execute sql >> record_migration execute name in
      let (p, q) = transaction-eq-ok m w w' u h in
      let (x, y, z) =
        >>=-eq-ok (run_sql execute sql) (λ t. record_migration execute name) (next w) (m (next w)).1
          u (ap (λ r. (r, (m (next w)).1)) p) in
      rw q (recorded name (run_sql execute sql (next w)).1 (m (next w)).1 u z)

  migrate-IsApplied :
      (name sql : String) (w w' : World) (u : Unit {0})
      → migrate execute name sql w ≡ (ok u, w')
      → is_applied name w'.db ≡ true
  unfolding migrate ensure_table query statement ◌>>=◌ pure
  migrate-IsApplied name sql w w' u h = elim (Bool-cases (env.db_fails w.calls)) [
    | inl f ↦ let g = rw f at h in ground arith
    | inr f ↦ elim (Bool-cases (env.db_fails (next w).calls)) [
      | inl g ↦ let k = rw (f, g) at h in ground arith
      | inr g ↦ elim (Bool-cases (is_applied name (with_table w.db))) [
        | inl a ↦ rw (sym (ap (λ x. x.1.db) (rw (f, g, a) at h))) a
        | inr a ↦ applied name sql _ w' u (rw (f, g, a) at h)
      ]
    ]
  ]

-- What was applied stays so.
Recorded : Db → Db → Type 0
Recorded d e = (name : String) → is_applied name d ≡ true → is_applied name e ≡ true

Recorded-order : Preorder Recorded
unfolding Recorded
Recorded-order = record { reflexive = λ d n a. a; transitive = λ a b c p q n x. q n (p n x) }

-- Each migration among the files is recorded.
abbrev AreApplied : List DirEntry → Db → Type 0
AreApplied [] d = Unit {0}
AreApplied (e ∷ rest) d = (is_migration e ≡ true → is_applied e.name d ≡ true) × AreApplied rest d

-- `own` says of the files that none of them writes to the table schema_migrations.
module _ ⦃env : Env⦄ (execute : String → Db → Option Db)
    (own : (sql : String) (d d' : Db)
      → execute sql d ≡ some d'
      → d'.schema_migrations ≡ d.schema_migrations) where
  run_sql-Recorded : (sql : String) → Keeps tables Recorded (run_sql execute sql)
  unfolding run_sql Recorded is_applied
  run_sql-Recorded sql = Keeps-statement Recorded-order _ λ n d.
      elim (Option-cases (execute sql d)) [
        | inl e ↦ rw e (Recorded-order.reflexive d)
        | inr (d', e) ↦ rw e (λ name a. rw (own sql d d' e) a)
      ]

  kept_names :
      (name other : String) (names : List String)
      → is_some (find (λ n. n == name) names) ≡ true
      → is_some (find (λ n. n == name) (names ++ other ∷ [])) ≡ true
  unfolding find
  kept_names name other [] a = ground arith
  kept_names name other (n ∷ names) a = ground (arith, kept_names name other names)

  with_name-Recorded :
      (name : String) (d : Db) (o : Option (List String))
      → d.schema_migrations ≡ o
      → Recorded d (with_name name d o).1
  unfolding Recorded is_applied
  with_name-Recorded name d none e other a = a
  with_name-Recorded name d (some names) e other a =
      elim (Bool-cases (is_listed name (some names))) [
        | inl h ↦ rw h a
        | inr h ↦ rw h (kept_names other name names (rw e at a))
      ]

  record-Recorded : (name : String) → Keeps tables Recorded (record_migration execute name)
  unfolding record_migration
  record-Recorded name =
      Keeps-statement Recorded-order _ λ n d. with_name-Recorded name d d.schema_migrations refl

  apply-Recorded : (name sql : String) → Keeps tables Recorded (apply_migration execute name sql)
  unfolding apply_migration
  apply-Recorded name sql =
      Keeps-transaction Recorded-order _
        (Keeps-bind Recorded-order _ _ (run_sql-Recorded sql) (λ u. record-Recorded name))

  ensure-Recorded : Keeps tables Recorded (ensure_table execute)
  unfolding ensure_table Recorded
  ensure-Recorded = Keeps-statement Recorded-order _ (λ n d name a. still_applied execute name d a)

  migrate-Recorded : (name sql : String) → Keeps tables Recorded (migrate execute name sql)
  unfolding migrate
  migrate-Recorded name sql = Keeps-bind Recorded-order _ _ ensure-Recorded λ u.
      Keeps-bind Recorded-order _ _ (Keeps-query Recorded-order _)
        λ b. Keeps-if Recorded-order b _ _ (Keeps-pure Recorded-order _) (apply-Recorded name sql)

  content-Recorded : (e : DirEntry) → Keeps tables Recorded (or_fail e.content failed)
  content-Recorded e = Keeps-or_fail Recorded-order e.content failed

  run-Recorded : (files : List DirEntry) → Keeps tables Recorded (run_migrations execute files)
  unfolding run_migrations
  run-Recorded [] = Keeps-pure Recorded-order _
  run-Recorded (e ∷ rest) =
      Keeps-if Recorded-order (is_migration e) _ _
        (Keeps-bind Recorded-order _ _ (content-Recorded e)
          λ sql. Keeps-bind Recorded-order _ _ (migrate-Recorded e.name sql) λ u. run-Recorded rest)
        (run-Recorded rest)

  -- After a run that succeeds, each migration is recorded.
  run-AreApplied :
      (files : List DirEntry) (w w' : World) (u : Unit {0})
      → run_migrations execute files w ≡ (ok u, w')
      → AreApplied files w'.db
  unfolding run_migrations Recorded
  run-AreApplied [] w w' u h = tt
  run-AreApplied (e ∷ rest) w w' u h = elim (Bool-cases (is_migration e)) [
    | inl b ↦
        let (sql, p, q) = >>=-eq-ok (or_fail e.content failed) _ w w' u (rw b at h) in
        let w1 = (or_fail {E = Error} e.content failed w).1 in
        let (t, r, k) = >>=-eq-ok (migrate execute e.name sql) _ w1 w' u q in
        let w2 = (migrate execute e.name sql w1).1 in
        (
          λ x.
              rw (sym (ap (λ y. y.1.db) k))
                ((run-Recorded rest).at w2 e.name (migrate-IsApplied execute e.name sql w1 w2 t r)),
          run-AreApplied rest w2 w' u k,
        )
    | inr b ↦ (λ x. ground arith, run-AreApplied rest w w' u (rw b at h))
  ]

  -- A run over files that are recorded changes no table.
  run-unchanged :
      (files : List DirEntry) (w : World)
      → AreApplied files w.db
      → (run_migrations execute files w).1.db ≡ w.db
  unfolding run_migrations pure
  run-unchanged [] w a = refl
  run-unchanged (e ∷ rest) w (a, b) = elim (Bool-cases (is_migration e)) [
    | inr m ↦ rw m (run-unchanged rest w b)
    | inl m ↦ rw m (
        then_same (or_fail e.content failed) _ w (content_same e.content w) λ sql.
          let w1 = (or_fail {E = Error} e.content failed w).1 in
          let p = content_same e.content w in
          let q = migrate-applied execute e.name sql w1 (rw p (a m)) in
          then_same (migrate execute e.name sql) _ w1 q
            λ u. run-unchanged rest (migrate execute e.name sql w1).1 (rw (q, p) b))
  ]

  -- Starting again after a start that ran the migrations changes no table, whatever fails the second time:
  -- each file is applied once. The files are not to write to the table schema_migrations.
  pub run_migrations-twice :
      (files : List DirEntry) (w w' : World) (u : Unit {0})
      → run_migrations execute files w ≡ (ok u, w')
      → (run_migrations execute files w').1.db ≡ w'.db
  run_migrations-twice files w w' u h = run-unchanged files w' (run-AreApplied files w w' u h)
