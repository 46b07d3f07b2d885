-- ===== src/Registry/NewVersion.antt =====
-- What CreateSchemaVersion of internal/registry/store.go leaves behind.
use text.Mathlib.TextPositions.{eq_refl}
use signalyard.Common.{
  ℕ, suc, ◌≡◌, refl, sym, ap, ◌∙◌, inl, inr, String, Bool, true, ◌&&◌, Option, none, some, List, [],
  ◌∷◌, ◌++◌, ◌==◌, String_eq, ℕ_eq, arith, select, find, update, order_by, get_or, eq_iff,
  Option-cases, Bool-cases,
}
use signalyard.Common.ListLaws.{max_of-update}
use signalyard.Platform.Exec.{Error, ok, Exec, ◌>>=◌, pure}
use signalyard.Platform.Json.{Object}
use signalyard.Platform.Database.{Db, SchemaRow, CategoryRow}
use signalyard.Platform.World.{Env, World, next, statement, transaction}
use signalyard.Platform.Inversion.{>>=-eq-ok, transaction-eq-ok}
use signalyard.Registry.Schemas.{
  Schema, find_category, of_category, upsert_row, deactivate, new_row, add_schema, null_str,
  scan_schema, versions_of, active_schema, upsert_category, deactivate_versions, insert_version,
  version_statements, create_schema_version,
}
use signalyard.Registry.Versions.{newest}
use signalyard.Registry.Versions.Rows.{off, schemas-upsert}

find-append_none :
    {A : Type 0} (p : A → Bool) (xs : List A) (x : A)
    → find p xs ≡ none
    → p x ≡ true
    → find p (xs ++ x ∷ []) ≡ some x
unfolding find
find-append_none p [] x h k = ground arith
find-append_none p (y ∷ ys) x h k = ground (arith, find-append_none p ys x)

-- The upserted category is there, under the id that was returned.
upsert_found :
    (now id : ℕ) (name : String) (d : Db)
    → (c : CategoryRow) × (find_category name (upsert_row now id name d).1 ≡ some c)
      × (c.id ≡ (upsert_row now id name d).0)
unfolding find_category upsert_row
upsert_found now id name d = elim (Option-cases (find_category name d)) [
  | inl e ↦ (
    record { id = id; name = name; description = none; created_at = now },
    rw (e, upsert_row) (find-append_none _ d.categories _ e (eq_refl name)),
    rw (e, upsert_row) refl,
  )
  | inr (c, e) ↦ (c, rw (e, upsert_row) e, rw (e, upsert_row) refl)
]

-- Of a category only the new version is active.
only_active :
    (c : ℕ) (rows : List SchemaRow) (r : SchemaRow)
    → r.category_id ≡ c
    → r.is_active ≡ true
    → select (λ x. of_category c x && x.is_active) (update (of_category c) off rows ++ r ∷ [])
      ≡ r ∷ []
unfolding select update
only_active c [] r own active = ground arith
only_active c (x ∷ rows) r own active = ground (arith, only_active c rows r own active)

module _ ⦃env : Env⦄ (category : String) (schema : Object) (yaml by sha : String) where
  -- The tables and the row after the three statements on the tables `d`, the first of which is call `n`.
  abbrev upserted : ℕ → Db → ℕ × Db
  upserted n d = upsert_row (env.now n) (env.new_uuid n) category d

  abbrev cleared : ℕ → Db → Db
  cleared n d = deactivate (upserted n d).0 (upserted n d).1

  abbrev inserted : ℕ → Db → SchemaRow
  inserted n d =
      new_row (env.now (suc (suc n))) (env.new_uuid (suc (suc n))) (upserted n d).0 schema yaml by
        sha (cleared n d)

  version_statements-eq-ok :
      (w w' : World) (r : SchemaRow)
      → version_statements category schema yaml by sha w ≡ (ok r, w')
      → (r ≡ inserted w.calls w.db)
        × (w'.db ≡ add_schema (inserted w.calls w.db) (cleared w.calls w.db))
  unfolding version_statements upsert_category deactivate_versions insert_version statement ◌>>=◌
  version_statements-eq-ok w w' r h = (ground arith, ground arith)

  create-eq-ok :
      (w w' : World) (sc : Schema)
      → create_schema_version category schema yaml by sha w ≡ (ok sc, w')
      → (sc ≡ record (scan_schema category (inserted (suc w.calls) w.db)) { git_commit = sha })
        × (w'.db ≡ add_schema (inserted (suc w.calls) w.db) (cleared (suc w.calls) w.db))
  unfolding create_schema_version pure
  create-eq-ok w w' sc h =
      let m : Exec Error World SchemaRow = version_statements category schema yaml by sha in
      let (r, p, q) = >>=-eq-ok (transaction m) _ w w' sc h in
      let (a, b) = transaction-eq-ok m w _ r p in
      let (c, d) = version_statements-eq-ok (next w) _ r (ap (λ x. (x, (m (next w)).1)) a) in
      (ground (arith, q, c), ground (arith, q, b, d))

  -- Seen through `find_category`, the later statements change nothing.
  same_category :
      (n : ℕ) (d : Db)
      → find_category category (add_schema (inserted n d) (cleared n d))
        ≡ find_category category (upserted n d).1
  unfolding find_category deactivate
  same_category n d = refl

  of_found :
      (n : ℕ) (d : Db) (o : Option CategoryRow) (c : CategoryRow)
      → o ≡ some c
      → c.id ≡ (upserted n d).0
      → versions_of (λ r. r.is_active) o (add_schema (inserted n d) (cleared n d))
        ≡ inserted n d ∷ []
  unfolding versions_of order_by deactivate new_row
  of_found n d o c f g =
      rw (f, g, only_active (upserted n d).0 (upserted n d).1.schemas (inserted n d) refl refl) refl

  inserted-active :
      (n : ℕ) (d : Db)
      → active_schema category (add_schema (inserted n d) (cleared n d))
        ≡ some (scan_schema category (inserted n d))
  unfolding active_schema
  inserted-active n d =
      let (c, f, g) = upsert_found (env.now n) (env.new_uuid n) category d in
      rw (active_schema, of_found n d _ c (same_category n d ∙ f) g) refl

get_or-null_str : (sha : String) → get_or (null_str sha) "" ≡ sha
get_or-null_str sha = elim (Bool-cases (sha == "")) [
  | inl e ↦ rw e (sym ((eq_iff sha "").0 e))
  | inr e ↦ rw e
]

-- When a schema version has been created, it is the active schema of its category: a lookup in the
-- tables that are left returns the very schema that was returned.
pub active_schema-create_schema_version :
    ⦃env : Env⦄ (category : String) (schema : Object) (yaml by sha : String) (w w' : World)
    (sc : Schema)
    → create_schema_version category schema yaml by sha w ≡ (ok sc, w')
    → active_schema category w'.db ≡ some sc
unfolding scan_schema new_row
active_schema-create_schema_version category schema yaml by sha w w' sc h =
    let (p, q) = create-eq-ok category schema yaml by sha w w' sc h in
    rw (q, inserted-active category schema yaml by sha (suc w.calls) w.db, p, get_or-null_str sha)
      refl

-- The schema that is returned is the one that was asked for.
pub created-create_schema_version :
    ⦃env : Env⦄ (category : String) (schema : Object) (yaml by sha : String) (w w' : World)
    (sc : Schema)
    → create_schema_version category schema yaml by sha w ≡ (ok sc, w')
    → (sc.json_schema ≡ schema) × (sc.routing_yaml ≡ yaml) × (sc.created_by ≡ by)
unfolding scan_schema new_row
created-create_schema_version category schema yaml by sha w w' sc h =
    let (p, q) = create-eq-ok category schema yaml by sha w w' sc h in
    (ap (λ x. x.json_schema) p, ap (λ x. x.routing_yaml) p, ap (λ x. x.created_by) p)

-- The id that is returned for a known category is its own.
upserted_id :
    (now id : ℕ) (name : String) (d : Db) (c : CategoryRow)
    → find_category name d ≡ some c
    → (upsert_row now id name d).0 ≡ c.id
unfolding upsert_row
upserted_id now id name d c e = rw (e, upsert_row) refl

new_row-version :
    (now id c : ℕ) (schema : Object) (yaml by sha : String) (d e : Db)
    → e.schemas ≡ d.schemas
    → (new_row now id c schema yaml by sha (deactivate c e)).version
      ≡ suc (newest (of_category c) d.schemas)
unfolding new_row deactivate
new_row-version now id c schema yaml by sha d e h =
    ap suc (
      max_of-update (λ x. x.version) (of_category c) (of_category c) off e.schemas (λ x. refl)
        (λ x. refl))
    ∙ ap (λ rows. suc (newest (of_category c) rows)) h

-- A new version of a category that is known is one more than the greatest version that it had.
pub version-create_schema_version :
    ⦃env : Env⦄ (category : String) (schema : Object) (yaml by sha : String) (w w' : World)
    (sc : Schema) (c : CategoryRow)
    → create_schema_version category schema yaml by sha w ≡ (ok sc, w')
    → find_category category w.db ≡ some c
    → sc.version ≡ suc (newest (of_category c.id) w.db.schemas)
unfolding scan_schema
version-create_schema_version ⦃env = env⦄ category schema yaml by sha w w' sc c h e =
    let (p, q) = create-eq-ok category schema yaml by sha w w' sc h in
    let n = suc w.calls in
    ap (λ (x : Schema). x.version) p
    ∙ new_row-version _ _ _ schema yaml by sha w.db _ (schemas-upsert _ _ category w.db)
    ∙ ap (λ i. suc (newest (of_category i) w.db.schemas))
        (upserted_id (env.now n) (env.new_uuid n) category w.db c e)
