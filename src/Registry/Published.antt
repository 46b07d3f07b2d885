-- ===== src/Registry/Published.antt =====
-- commitNewSchemaVersion of internal/registry/handlers.go: the tables after the git commit and the storing
-- of its SHA.
use signalyard.Common.{
  ℕ, ◌≡◌, refl, sym, ap, subst, ◌∙◌, inl, inr, String, Bool, true, false, ◌&&◌, Option, none, some,
  List, [], ◌∷◌, ◌==◌, String_eq, ℕ_eq, arith, if◌then◌else◌, select, update, order_by, insert_by,
  Bool-cases,
}
use signalyard.Platform.Exec.{Error, Result, ok, err, ◌>>=◌, attempt}
use signalyard.Platform.Json.{Object}
use signalyard.Platform.Database.{Db, SchemaRow, CategoryRow}
use signalyard.Platform.World.{Env, World, statement}
use signalyard.Platform.Keeps.{Preorder}
use signalyard.Platform.Inversion.{>>=-eq-ok}
use signalyard.Registry.Git.{commit_schema}
use signalyard.Registry.Git.Tables.{commit_schema-Keeps}
use signalyard.Registry.Handlers.{Server}
use signalyard.Registry.Handlers.SchemaRoutes.{commit_new_schema_version, after_commit}
use signalyard.Registry.NewVersion.{
  active_schema-create_schema_version, created-create_schema_version,
}
use signalyard.Registry.Schemas.{
  Schema, find_category, scan_schema, of_category, newer, versions_of, head_row, active_schema,
  create_schema_version, set_schema_git_sha,
}
use signalyard.Registry.Versions.Rows.{with_sha}

-- The tables have `schema` and `yaml` as the active version of a category, made by `actor`.
pub record IsPublished (category : String) (schema : Object) (yaml actor : String) (version : ℕ)
    (d : Db) : Type 0 where
  pub row : Schema
  pub active : active_schema category d ≡ some row
  pub json : row.json_schema ≡ schema
  pub routing : row.routing_yaml ≡ yaml
  pub author : row.created_by ≡ actor
  pub number : row.version ≡ version

-- The tables after a SHA was stored, or not.
abbrev sha_rows : (SchemaRow → Bool) → String → Db → Db
sha_rows p sha d = record d { schemas = update p (with_sha (some sha)) d.schemas }

module _ (p : SchemaRow → Bool) (sha : String) where
  abbrev marked : List SchemaRow → List SchemaRow
  marked rows = update p (with_sha (some sha)) rows

  select-marked :
      (q : SchemaRow → Bool) (rows : List SchemaRow)
      → ((r : SchemaRow) → q (with_sha (some sha) r) ≡ q r)
      → select q (marked rows) ≡ marked (select q rows)
  unfolding select update
  select-marked q [] h = refl
  select-marked q (r ∷ rows) h = ground (arith, select-marked q rows h, h r)

  insert-marked :
      (r : SchemaRow) (rows : List SchemaRow)
      → insert_by newer (if p r then with_sha (some sha) r else r) (marked rows)
        ≡ marked (insert_by newer r rows)
  unfolding insert_by update
  insert-marked r [] = refl
  insert-marked r (x ∷ rows) = ground (arith, insert-marked r rows)

  order-marked :
      (rows : List SchemaRow) → order_by newer (marked rows) ≡ marked (order_by newer rows)
  unfolding order_by update
  order-marked [] = refl
  order-marked (r ∷ rows) = rw (order-marked rows) (insert-marked r (order_by newer rows))

  head-marked :
      (rows : List SchemaRow) (r : SchemaRow)
      → head_row rows ≡ some r
      → head_row (marked rows) ≡ some (if p r then with_sha (some sha) r else r)
  unfolding update
  head-marked [] r h = ground arith
  head-marked (x ∷ rows) r h = ground arith

  versions-marked :
      (o : Option CategoryRow) (d : Db)
      → versions_of (λ r. r.is_active) o (sha_rows p sha d)
        ≡ marked (versions_of (λ r. r.is_active) o d)
  unfolding versions_of update
  versions-marked none d = refl
  versions-marked (some c) d =
      ap (order_by newer)
        (select-marked (λ r. of_category c.id r && r.is_active) d.schemas (λ r. refl))
      ∙ order-marked (select (λ r. of_category c.id r && r.is_active) d.schemas)

-- The active row of a category, before it is scanned.
abbrev active_row : String → Db → Option SchemaRow
active_row category d = head_row (versions_of (λ r. r.is_active) (find_category category d) d)

scanned :
    (category : String) (d : Db) (r : SchemaRow)
    → active_row category d ≡ some r
    → active_schema category d ≡ some (scan_schema category r)
unfolding active_schema
scanned category d r h = rw (active_schema, h) refl

head_of :
    (category : String) (o : Option SchemaRow) (sc : Schema)
    → elim o as (λ _. Option Schema) [ none ↦ none | some r ↦ some (scan_schema category r) ]
      ≡ some sc
    → (r : SchemaRow) × (o ≡ some r) × (scan_schema category r ≡ sc)
head_of category none sc h = cc
head_of category (some r) sc h = (r, refl, cc)

active_row_of :
    (category : String) (d : Db) (sc : Schema)
    → active_schema category d ≡ some sc
    → (r : SchemaRow) × (active_row category d ≡ some r) × (scan_schema category r ≡ sc)
unfolding active_schema
active_row_of category d sc h = head_of category (active_row category d) sc h

-- A stored SHA shows in no other field.
scan-with_sha :
    (category sha : String) (b : Bool) (r : SchemaRow)
    → let x = scan_schema category (if b then with_sha (some sha) r else r) in
      let y = scan_schema category r in
      (x.json_schema ≡ y.json_schema)
      × (x.routing_yaml ≡ y.routing_yaml)
      × (x.created_by ≡ y.created_by)
      × (x.version ≡ y.version)
unfolding scan_schema
scan-with_sha category sha true r = (refl, refl, refl, refl)
scan-with_sha category sha false r = (refl, refl, refl, refl)

module _ (category : String) (schema : Object) (yaml actor : String) (v : ℕ) where
  abbrev Published : Db → Type 0
  Published d = IsPublished category schema yaml actor v d

  sha_rows-IsPublished :
      (p : SchemaRow → Bool) (sha : String) (d : Db) → Published d → Published (sha_rows p sha d)
  unfolding find_category
  sha_rows-IsPublished p sha d k =
      let (r, e, f) = active_row_of category d k.row k.active in
      let r' : SchemaRow = if p r then with_sha (some sha) r else r in
      let (j, y, a, n) = scan-with_sha category sha (p r) r in
      record {
        row = scan_schema category r';
        active = scanned category (sha_rows p sha d) r' (
            ap head_row (versions-marked p sha (find_category category d) d)
            ∙ head-marked p sha (versions_of (λ r. r.is_active) (find_category category d) d) r e);
        json = j ∙ ap (λ q. q.json_schema) f ∙ k.json;
        routing = y ∙ ap (λ q. q.routing_yaml) f ∙ k.routing;
        author = a ∙ ap (λ q. q.created_by) f ∙ k.author;
        number = n ∙ ap (λ q. q.version) f ∙ k.number;
      }

  module _ ⦃env : Env⦄ where
    stored :
        (id : ℕ) (sha : String) (w : World)
        → Published w.db
        → Published ((set_schema_git_sha id sha) w).1.db
    unfolding set_schema_git_sha statement
    stored id sha w k = elim (Bool-cases (env.db_fails w.calls)) [
      | inl e ↦ rw e k
      | inr e ↦ rw e (sha_rows-IsPublished (λ r. r.id == id) sha w.db k)
    ]

    after_commit-IsPublished :
        (sc : Schema) (r : Result Error String) (w : World)
        → Published w.db
        → ((x : Schema) × ((after_commit sc r w).0 ≡ ok x)
            × (x.version ≡ sc.version)
            × (x.id ≡ sc.id)
            × (x.category ≡ sc.category))
          × Published (after_commit sc r w).1.db
    unfolding after_commit ◌>>=◌
    after_commit-IsPublished sc (err e) w k = ((sc, refl, refl, refl, refl), k)
    after_commit-IsPublished sc (ok sha) w k = elim (Bool-cases (sha == "")) [
      | inl e ↦ rw e ((sc, refl, refl, refl, refl), k)
      | inr e ↦
          rw e ((record sc { git_commit = sha }, refl, refl, refl, refl), stored sc.id sha w k)
    ]

same_version : (x y : Schema) → ◌≡◌ {A = Result Error Schema} (ok x) (ok y) → x.version ≡ y.version
same_version x y h = cc

same_tables : Preorder {X = Db} ◌≡◌
same_tables = record { reflexive = λ d. refl; transitive = λ a b c p q. p ∙ q }

-- When an administrator's schema or an approved proposal has been committed, the active version of the
-- category is the one that was asked for, under the version number that was returned, whether or not
-- the git commit and the storing of its SHA worked.
pub commit_new_schema_version-IsPublished :
    ⦃env : Env⦄ (s : Server) (category : String) (schema : Object) (yaml actor : String)
    (w w' : World) (sc : Schema)
    → commit_new_schema_version s category schema yaml actor w ≡ (ok sc, w')
    → IsPublished category schema yaml actor sc.version w'.db
unfolding commit_new_schema_version attempt
commit_new_schema_version-IsPublished s category schema yaml actor w w' sc h =
    let (a, p, q) = >>=-eq-ok (create_schema_version category schema yaml actor "") _ w w' sc h in
    let w1 = (create_schema_version category schema yaml actor "" w).1 in
    let (j, y, b) = created-create_schema_version category schema yaml actor "" w w1 a p in
    let (r, p', q') =
      >>=-eq-ok (attempt (commit_schema s.git category a.version schema yaml)) _ w1 w' sc q in
    let w2 = (commit_schema s.git category a.version schema yaml w1).1 in
    let same = (commit_schema-Keeps same_tables s.git category a.version schema yaml).at w1 in
    let k : IsPublished category schema yaml actor a.version w2.db = record {
      row = a;
      active =
          ap (active_schema category) (sym same)
          ∙ active_schema-create_schema_version category schema yaml actor "" w w1 a p;
      json = j;
      routing = y;
      author = b;
      number = refl;
    } in
    let ((x, e, v, i, c), k') =
      after_commit-IsPublished category schema yaml actor a.version a r w2 k in
    subst (λ n. IsPublished category schema yaml actor n w'.db)
      (sym v ∙ same_version x sc (sym e ∙ ap (λ z. z.0) q'))
      (subst (λ (z : World). IsPublished category schema yaml actor a.version z.db)
        (ap (λ z. z.1) q') k')
