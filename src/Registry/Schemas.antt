-- ===== src/Registry/Schemas.antt =====
-- internal/registry/store.go: categories and schema versions.
use signalyard.Common.{
  ℕ, zero, suc, String, ℕ_eq, String_eq, Bool, true, false, ◌&&◌, Option, none, some, List, [], ◌∷◌,
  ◌++◌, map, leb, get_or, ◌==◌, if◌then◌else◌, select, find, update, count, max_of, order_by,
}
use signalyard.Platform.Exec.{
  Error, not_found, failed, Result, ok, err, Exec, ◌>>=◌, ◌>>◌, pure, raise,
}
use signalyard.Platform.Json.{Object}
use signalyard.Platform.Database.{Db, CategoryRow, SchemaRow, ProposalRow}
use signalyard.Platform.World.{Env, World, query, query_row, statement, transaction}

pub record Category : Type 0 where
  pub id : ℕ
  pub name : String
  pub description : String
  pub version : ℕ
  pub created_at : ℕ

pub record Schema : Type 0 where
  pub id : ℕ
  pub category : String
  pub version : ℕ
  pub json_schema : Object
  pub routing_yaml : String
  pub git_commit : String
  pub is_active : Bool
  pub created_by : String
  pub created_at : ℕ

-- The unique index on the name makes this the row that `WHERE c.name = $1` reads.
unfoldable pub find_category : String → Db → Option CategoryRow
find_category name d = find (λ c. c.name == name) d.categories

abbrev pub of_category : ℕ → SchemaRow → Bool
of_category c r = r.category_id == c

abbrev is_active_of : ℕ → SchemaRow → Bool
is_active_of c r = of_category c r && r.is_active

category_view : Db → CategoryRow → Category
category_view d c = record {
  id = c.id;
  name = c.name;
  description = get_or c.description "";
  version = max_of (λ r. r.version) (is_active_of c.id) d.schemas;
  created_at = c.created_at;
}

abbrev pub null_str : String → Option String
null_str s = if s == "" then none else some s

unfoldable pub scan_schema : String → SchemaRow → Schema
scan_schema category r = record {
  id = r.id;
  category = category;
  version = r.version;
  json_schema = r.json_schema;
  routing_yaml = r.routing_yaml;
  git_commit = get_or r.git_commit_sha "";
  is_active = r.is_active;
  created_by = r.created_by;
  created_at = r.created_at;
}

abbrev pub newer : SchemaRow → SchemaRow → Bool
newer a b = leb b.version a.version

-- The rows of a category, ORDER BY version DESC.
unfoldable pub versions_of : (SchemaRow → Bool) → Option CategoryRow → Db → List SchemaRow
versions_of p none d = []
versions_of p (some c) d = order_by newer (select (λ r. of_category c.id r && p r) d.schemas)

abbrev pub head_row : List SchemaRow → Option SchemaRow
head_row [] = none
head_row (r ∷ rs) = some r

unfoldable pub active_schema : String → Db → Option Schema
unfolding find_category scan_schema versions_of
active_schema category d =
    elim (head_row (versions_of (λ r. r.is_active) (find_category category d) d)) [
      | none ↦ none
      | some r ↦ some (scan_schema category r)
    ]

-- INSERT INTO categories ... ON CONFLICT (name) DO UPDATE ... RETURNING id
unfoldable pub upsert_row : (now id : ℕ) → String → Db → ℕ × Db
unfolding find_category
upsert_row now id name d = elim (find_category name d) [
  | some c ↦ (c.id, d)
  | none ↦ (
    id,
    record d {
      categories =
          d.categories
          ++ record { id = id; name = name; description = none; created_at = now } ∷ [];
    },
  )
]

unfoldable pub deactivate : ℕ → Db → Db
deactivate category d = record d {
  schemas = update (of_category category) (λ r. record r { is_active = false }) d.schemas;
}

-- The version is one more than the greatest of the category.
unfoldable pub new_row : (now id category : ℕ) → Object → String → String → String → Db → SchemaRow
new_row now id category json_schema routing_yaml created_by git_sha d = record {
  id = id;
  category_id = category;
  version = suc (max_of (λ r. r.version) (of_category category) d.schemas);
  json_schema = json_schema;
  routing_yaml = routing_yaml;
  git_commit_sha = null_str git_sha;
  is_active = true;
  created_by = created_by;
  created_at = now;
}

abbrev pub add_schema : SchemaRow → Db → Db
add_schema r d = record d { schemas = d.schemas ++ r ∷ [] }

category_name : Db → SchemaRow → String
category_name d r = elim (find (λ c. c.id == r.category_id) d.categories) [
  | none ↦ ""
  | some c ↦ c.name
]

by_name : {A : Type 0} → (A → String) → (String → String → Bool) → A → A → Bool
by_name f before a b = before (f a) (f b)

module _ ⦃env : Env⦄ where
  -- `ORDER BY c.name` is by the database's collation, `before`.
  unfoldable pub list_categories : (String → String → Bool) → Exec Error World (List Category)
  unfolding category_view by_name
  list_categories before =
      query (λ d. map (category_view d) (order_by (by_name (λ c. c.name) before) d.categories))

  unfoldable pub upsert_category : String → Exec Error World ℕ
  unfolding upsert_row
  upsert_category name =
      statement
        (λ n d. let (id, d') = upsert_row (env.now n) (env.new_uuid n) name d in (ok id, d'))

  unfoldable pub deactivate_versions : ℕ → Exec Error World (Unit {0})
  unfolding deactivate
  deactivate_versions category = statement (λ n d. (ok tt, deactivate category d))

  unfoldable pub insert_version : ℕ → Object → String → String → String → Exec Error World SchemaRow
  unfolding new_row
  insert_version category json_schema routing_yaml created_by git_sha = statement λ n d.
      let r =
        new_row (env.now n) (env.new_uuid n) category json_schema routing_yaml created_by git_sha
          d in
      (ok r, add_schema r d)

  unfoldable pub version_statements :
      String → Object → String → String → String → Exec Error World SchemaRow
  unfolding upsert_category deactivate_versions insert_version
  version_statements category json_schema routing_yaml created_by git_sha = do
    id ← upsert_category category
    deactivate_versions id
    insert_version id json_schema routing_yaml created_by git_sha

  -- The returned schema has the category and the SHA that were passed in.
  unfoldable pub create_schema_version :
      String → Object → String → String → String → Exec Error World Schema
  unfolding version_statements scan_schema
  create_schema_version category json_schema routing_yaml created_by git_sha = do
    r ← transaction (version_statements category json_schema routing_yaml created_by git_sha)
    pure (record (scan_schema category r) { git_commit = git_sha })

  unfoldable pub set_schema_git_sha : ℕ → String → Exec Error World (Unit {0})
  set_schema_git_sha id sha = statement λ n d. (
    ok tt,
    record d {
      schemas = update (λ r. r.id == id) (λ r. record r { git_commit_sha = some sha }) d.schemas;
    },
  )

  unfoldable pub get_active_schema : String → Exec Error World Schema
  unfolding active_schema
  get_active_schema category = query_row (active_schema category)

  unfoldable pub list_active_schemas : (String → String → Bool) → Exec Error World (List Schema)
  unfolding scan_schema category_name by_name
  list_active_schemas before = query λ d.
      map (λ r. scan_schema (category_name d r) r)
        (order_by (by_name (category_name d) before) (select (λ r. r.is_active) d.schemas))

  unfoldable pub some_versions : List Schema → Exec Error World (List Schema)
  some_versions [] = raise not_found
  some_versions (v ∷ vs) = pure (v ∷ vs)

  unfoldable pub list_schema_versions : String → Exec Error World (List Schema)
  unfolding find_category versions_of scan_schema some_versions
  list_schema_versions category = do
    out ←
        query λ d. map (scan_schema category) (versions_of (λ r. true) (find_category category d) d)
    some_versions out

abbrev pub ne_category : ℕ → SchemaRow → Bool
ne_category c r = if of_category c r then false else true

-- The foreign keys: schemas CASCADE; proposals that name a deleted schema SET NULL.
abbrev pub forget_schema : Db → Option ℕ → Option ℕ
forget_schema d none = none
forget_schema d (some s) = elim (find (λ r. r.id == s) d.schemas) [ none ↦ none | some r ↦ some s ]

unfoldable pub drop_category : CategoryRow → Db → Db
drop_category c d =
    let d' = record d {
      categories = select (λ r. if r.name == c.name then false else true) d.categories;
      schemas = select (ne_category c.id) d.schemas;
    } in
    record d' {
      schema_proposals =
          map
            (λ (p : ProposalRow). record p {
              resulting_schema_id = forget_schema d' p.resulting_schema_id;
            })
            d.schema_proposals;
    }

-- events.category_id is ON DELETE RESTRICT: a category that has events is not deleted.
unfoldable pub delete_row : Option CategoryRow → Db → Result Error (Unit {0}) × Db
unfolding drop_category
delete_row none d = (err not_found, d)
delete_row (some c) d = elim (count (λ e. e.category_id == c.id) d.events) [
  | zero ↦ (ok tt, drop_category c d)
  | suc n ↦ (err failed, d)
]

module _ ⦃env : Env⦄ where
  -- DeleteCategory: no row affected is `not_found`.
  unfoldable pub delete_category : String → Exec Error World (Unit {0})
  unfolding find_category delete_row
  delete_category category = statement (λ n d. delete_row (find_category category d) d)
