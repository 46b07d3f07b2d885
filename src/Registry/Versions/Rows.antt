-- ===== src/Registry/Versions/Rows.antt =====
-- The statements of internal/registry/store.go and the invariant of the schema table.
use signalyard.Common.{
  ℕ, suc, ◌≤◌, ◌<◌, ◌≡◌, refl, ◌⊎◌, inl, inr, String, Bool, true, false, Option, none, some, List,
  [], ◌∷◌, ◌++◌, ◌==◌, ℕ_eq, arith, if◌then◌else◌, count, update, max_of, select, nat_eq,
  Bool-cases,
}
use signalyard.Common.ListLaws.{
  count-append, max_of-append, count-update, max_of-update, count-select-le, count-select_none,
  max_of-select, count-select,
}
use signalyard.Platform.Database.{Db, SchemaRow, CategoryRow}
use signalyard.Platform.Json.{Object}
use signalyard.Registry.Schemas.{
  of_category, upsert_row, deactivate, new_row, add_schema, ne_category, delete_row,
}
use signalyard.Registry.Versions.{active_in, version_in, newest, IsVersionedIn, IsVersioned}

abbrev pub off : SchemaRow → SchemaRow
off r = record r { is_active = false }

-- A version above the greatest does not occur.
version_above :
    (c v : ℕ) (rows : List SchemaRow)
    → newest (of_category c) rows < v
    → count (version_in c v) rows ≡ 0
unfolding count max_of
version_above c v [] h = refl
version_above c v (r ∷ rows) h = ground (arith, version_above c v rows)

active_after_off :
    (c k : ℕ) (rows : List SchemaRow)
    → count (active_in k) (update (of_category c) off rows)
      ≡ (if nat_eq c k then 0 else count (active_in k) rows)
unfolding count update
active_after_off c k [] = ground arith
active_after_off c k (r ∷ rows) = ground (arith, active_after_off c k rows)

newest_after_off :
    (c k : ℕ) (rows : List SchemaRow)
    → newest (active_in k) (update (of_category c) off rows)
      ≡ (if nat_eq c k then 0 else newest (active_in k) rows)
unfolding max_of update
newest_after_off c k [] = ground arith
newest_after_off c k (r ∷ rows) = ground (arith, newest_after_off c k rows)

-- What a new version of category `c` does to the rows.
module _ (c : ℕ) (rows : List SchemaRow) (r : SchemaRow) where
  abbrev deactivated : List SchemaRow
  deactivated = update (of_category c) off rows

  module _ (own : r.category_id ≡ c) (is_active : r.is_active ≡ true)
      (version : r.version ≡ suc (newest (of_category c) deactivated)) (k : ℕ)
      (v : IsVersionedIn rows k) where
    one_active_after : count (active_in k) (deactivated ++ r ∷ []) ≤ 1
    unfolding count
    one_active_after =
        ground (arith, count-append (active_in k) deactivated (r ∷ []), active_after_off c k rows)

    distinct_after : (n : ℕ) → count (version_in k n) (deactivated ++ r ∷ []) ≤ 1
    unfolding count
    distinct_after n = ground (
      arith,
      count-append (version_in k n) deactivated (r ∷ []),
      count-update (of_category c) (version_in k n) off rows (λ x. refl),
      v.distinct n,
      version_above c n deactivated,
    )

    active_newest_after :
        (count (active_in k) (deactivated ++ r ∷ []) ≡ 0)
        ⊎ (newest (active_in k) (deactivated ++ r ∷ [])
            ≡ newest (of_category k) (deactivated ++ r ∷ []))
    unfolding count max_of
    active_newest_after = ground (
      arith,
      count-append (active_in k) deactivated (r ∷ []),
      active_after_off c k rows,
      newest_after_off c k rows,
      max_of-append (λ x. x.version) (active_in k) deactivated (r ∷ []),
      max_of-append (λ x. x.version) (of_category k) deactivated (r ∷ []),
      max_of-update (λ x. x.version) (of_category c) (of_category k) off rows (λ x. refl)
          (λ x. refl),
    )

    new_version-IsVersionedIn : IsVersionedIn (deactivated ++ r ∷ []) k
    new_version-IsVersionedIn = record {
      one_active = one_active_after;
      distinct = distinct_after;
      active_newest = active_newest_after;
    }

-- Storing a commit's SHA.
abbrev pub with_sha : Option String → SchemaRow → SchemaRow
with_sha sha r = record r { git_commit_sha = sha }

module _ (p : SchemaRow → Bool) (sha : Option String) (k : ℕ) (rows : List SchemaRow)
    (v : IsVersionedIn rows k) where
  with_sha-IsVersionedIn : IsVersionedIn (update p (with_sha sha) rows) k
  with_sha-IsVersionedIn = record {
    one_active = ground (arith, count-update p (active_in k) (with_sha sha) rows (λ x. refl));
    distinct = λ n.
        ground
          (arith, v.distinct n, count-update p (version_in k n) (with_sha sha) rows (λ x. refl));
    active_newest = ground (
      arith,
      count-update p (active_in k) (with_sha sha) rows (λ x. refl),
      max_of-update (λ x. x.version) p (active_in k) (with_sha sha) rows (λ x. refl) (λ x. refl),
      max_of-update (λ x. x.version) p (of_category k) (with_sha sha) rows (λ x. refl) (λ x. refl),
    );
  }

-- Deleting a category.
module _ (c k : ℕ) (rows : List SchemaRow) where
  gone : c ≡ k → count (active_in k) (select (ne_category c) rows) ≡ 0
  gone e = count-select_none (ne_category c) (active_in k) rows (λ x h. ground arith)

  select-IsVersionedIn : IsVersionedIn rows k → IsVersionedIn (select (ne_category c) rows) k
  select-IsVersionedIn v = record {
    one_active = omega (arith, count-select-le (ne_category c) (active_in k) rows);
    distinct =
        λ n. omega (arith, count-select-le (ne_category c) (version_in k n) rows, v.distinct n);
    active_newest = elim (Bool-cases (nat_eq c k)) [
      | inl e ↦ inl (gone (ground arith))
      | inr e ↦ ground (
        arith,
        count-select (ne_category c) (active_in k) rows (λ x h. ground arith),
        max_of-select (λ x. x.version) (ne_category c) (active_in k) rows (λ x h. ground arith),
        max_of-select (λ x. x.version) (ne_category c) (of_category k) rows (λ x h. ground arith),
      )
    ];
  }

pub schemas-upsert :
    (now id : ℕ) (name : String) (d : Db) → (upsert_row now id name d).1.schemas ≡ d.schemas
unfolding upsert_row
schemas-upsert now id name d = ground arith

schemas-delete :
    (c : CategoryRow) (d : Db)
    → ((delete_row (some c) d).1.schemas ≡ d.schemas)
      ⊎ ((delete_row (some c) d).1.schemas ≡ select (ne_category c.id) d.schemas)
unfolding delete_row
schemas-delete c d = ground arith

-- The statements of store.go that touch the table.
pub upsert-IsVersioned :
    (now id : ℕ) (name : String) (d : Db) → IsVersioned d → IsVersioned (upsert_row now id name d).1
upsert-IsVersioned now id name d v = record {
  in_category = λ c. rw (schemas-upsert now id name d) (v.in_category c);
}

pub new_version-IsVersioned :
    (now id c : ℕ) (schema : Object) (yaml by sha : String) (d : Db)
    → IsVersioned d
    → let e = deactivate c d in IsVersioned (add_schema (new_row now id c schema yaml by sha e) e)
unfolding new_row deactivate
new_version-IsVersioned now id c schema yaml by sha d v = record {
  in_category = λ k. new_version-IsVersionedIn c d.schemas _ refl refl refl k (v.in_category k);
}

pub delete-IsVersioned :
    (o : Option CategoryRow) (d : Db) → IsVersioned d → IsVersioned (delete_row o d).1
unfolding delete_row
delete-IsVersioned none d v = v
delete-IsVersioned (some c) d v = elim (schemas-delete c d) [
  | inl e ↦ record { in_category = λ k. rw e (v.in_category k) }
  | inr e ↦ record {
    in_category = λ k. rw e (select-IsVersionedIn c.id k d.schemas (v.in_category k));
  }
]

pub set_sha-IsVersioned :
    (id : ℕ) (sha : Option String) (d : Db)
    → IsVersioned d
    → IsVersioned (record d { schemas = update (λ r. r.id == id) (with_sha sha) d.schemas })
set_sha-IsVersioned id sha d v = record {
  in_category = λ k. with_sha-IsVersionedIn (λ r. r.id == id) sha k d.schemas (v.in_category k);
}

pub deactivate-IsVersioned : (c : ℕ) (d : Db) → IsVersioned d → IsVersioned (deactivate c d)
unfolding deactivate
deactivate-IsVersioned c d v = record {
  in_category = λ k. record {
    one_active = ground (arith, active_after_off c k d.schemas, (v.in_category k).one_active);
    distinct = λ n. ground (
      arith,
      (v.in_category k).distinct n,
      count-update (of_category c) (version_in k n) off d.schemas (λ x. refl),
    );
    active_newest = ground (
      arith,
      (v.in_category k).active_newest,
      active_after_off c k d.schemas,
      newest_after_off c k d.schemas,
      max_of-update (λ x. x.version) (of_category c) (of_category k) off d.schemas (λ x. refl)
          (λ x. refl),
    );
  };
}
