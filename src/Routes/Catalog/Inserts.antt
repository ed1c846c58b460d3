-- ===== src/Routes/Catalog/Inserts.antt =====
-- What the inserts of POST /api/catalog leave: a category and a row.
use virtual_lab.Prelude.{
  ◌+◌, ◌++◌, true, false, Option, none, some, List, [], ◌∷◌, ◌≡◌, ◌⊎◌, inl, inr, refl, subst, arith,
  if◌then◌else◌, any, Bool-cases, Option-cases,
}
use virtual_lab.Prelude.Search.{any_of_find}
use virtual_lab.JsText.{JsText, utf16, text_eq, is_empty}
use virtual_lab.JsText.Laws.{text_eq_iff}
use virtual_lab.HttpError.{Failure}
use virtual_lab.Db.Rows.{Db, Scenario, Category}
use virtual_lab.Db.Tx.{ok, throw}
use virtual_lab.Db.Find.{find_scenario}
use virtual_lab.Auth.{Principal, is_moderator}
use virtual_lab.Json.{Json, string_of}
use virtual_lab.Versions.{key_exists}
use virtual_lab.Routes.Bulk.{find_category}
use virtual_lab.Routes.Categories.{insert_category, last_order}
use virtual_lab.Routes.Categories.Leaves.{has_category, has-append}
use virtual_lab.Routes.Catalog.{ensure_category, null_value}
use virtual_lab.Routes.Catalog.Create.{label_for, insert_scenario}

has_of_find :
    (slug : JsText) (cs : List Category) (c : Category)
    → find_category slug cs ≡ some c
    → has_category slug cs ≡ true
has_of_find slug cs c e = any_of_find (λ d. text_eq d.slug slug) cs c e

has_last : (cs : List Category) (c : Category) → has_category c.slug (cs ++ c ∷ []) ≡ true
unfolding any
has_last [] c = ground (arith, text_eq_iff c.slug c.slug)
has_last (d ∷ cs) c = ground (arith, has_last cs c)

-- The tables with more categories, among them one.
pub record Ensured (slug : JsText) (db db' : Db) : Type 0 where
  pub scenarios : db'.scenarios ≡ db.scenarios
  pub versions : db'.versions ≡ db.versions
  pub next_version : db'.next_version ≡ db.next_version
  keys : db'.keys ≡ db.keys
  pub kept :
      (j : JsText) → has_category j db.categories ≡ true → has_category j db'.categories ≡ true
  pub has : has_category slug db'.categories ≡ true

added :
    (slug label : JsText) (db db' : Db)
    → find_category slug db.categories ≡ none
    → insert_category slug label (utf16 "folder") true db ≡ ok (tt, db')
    → Ensured slug db db'
unfolding insert_category
added slug label db db' fresh h =
    let c : Category = record {
      slug = slug;
      label = label;
      icon = utf16 "folder";
      sort_order = last_order db.categories + 10;
      is_visible = true;
    } in
    record {
      scenarios = ground arith;
      versions = ground arith;
      next_version = ground arith;
      keys = ground arith;
      kept = λ j has.
          subst (λ cs. has_category j cs ≡ true) {x = db.categories ++ c ∷ []} (ground arith)
            (has-append j db.categories (c ∷ []) has);
      has =
          subst (λ cs. has_category slug cs ≡ true) {x = db.categories ++ c ∷ []} (ground arith)
            (has_last db.categories c);
    }

pub ensured :
    (slug : JsText) (label : Option JsText) (db db' : Db)
    → ensure_category slug label db ≡ ok (tt, db')
    → Ensured slug db db'
unfolding ensure_category
ensured slug label db db' h = elim (Option-cases (find_category slug db.categories)) [
  | inr (c, known) ↦ subst (Ensured slug db) {x = db} (ground arith) (record {
    scenarios = refl;
    versions = refl;
    next_version = refl;
    keys = refl;
    kept = λ j has. has;
    has = has_of_find slug db.categories c known;
  })
  | inl fresh ↦ elim (Option-cases label) [
    | inl none_given ↦ added slug slug db db' fresh (ground arith)
    | inr (l, given) ↦ added slug (if is_empty l then slug else l) db db' fresh (ground arith)
  ]
]

pub labelled :
    (driver_text : Json → JsText) (p : Principal) (slug : JsText) (given : Option Json) (db : Db)
    → ((l : JsText) × (label_for driver_text p slug given db ≡ ok (l, db))
        × (is_moderator p.role ≡ false → has_category slug db.categories ≡ true))
      ⊎ ((e : Failure) × (label_for driver_text p slug given db ≡ throw e))
unfolding label_for
labelled driver_text p slug given db = elim (Option-cases (find_category slug db.categories)) [
  | inr (c, known) ↦ elim (Bool-cases (is_moderator p.role)) [
    | inr by_author ↦ inl (c.label, ground arith, λ r. has_of_find slug db.categories c known)
    | inl by_moderator ↦ elim (Option-cases (string_of given)) [
      | inl e ↦ inl (c.label, ground arith, λ r. has_of_find slug db.categories c known)
      | inr (l, e) ↦ inl (l, ground arith, λ r. has_of_find slug db.categories c known)
    ]
  ]
  | inl unknown ↦ elim (Bool-cases (is_moderator p.role)) [
    | inr by_author ↦ inr (null_value, ground arith)
    | inl by_moderator ↦ elim (Option-cases (string_of given)) [
      | inl e ↦ inr (null_value, ground arith)
      | inr (l, e) ↦ inl (l, ground arith, λ r. absurd (ground arith))
    ]
  ]
]

-- The tables with the row in front, which had no such id.
pub record Inserted (s : Scenario) (db db' : Db) : Type 0 where
  pub scenarios : db'.scenarios ≡ s ∷ db.scenarios
  pub versions : db'.versions ≡ db.versions
  pub next_version : db'.next_version ≡ db.next_version
  pub categories : db'.categories ≡ db.categories
  pub fresh : find_scenario s.id db.scenarios ≡ none

pub inserted :
    (driver_text : Json → JsText) (s : Scenario) (db db' : Db)
    → insert_scenario driver_text s db ≡ ok (tt, db')
    → Inserted s db db'
unfolding insert_scenario
inserted driver_text s db db' h = elim (Option-cases (find_scenario s.id db.scenarios)) [
  | inr (t, taken) ↦ absurd (ground arith)
  | inl fresh ↦ elim (Bool-cases (key_exists s.owner_key_id db.keys)) [
    | inr stranger ↦ absurd (ground arith)
    | inl known ↦ record {
      scenarios = ground arith;
      versions = ground arith;
      next_version = ground arith;
      categories = ground arith;
      fresh = fresh;
    }
  ]
]
