-- ===== src/Routes/Categories/Leaves.antt =====
-- What each of the four transactions of backend/routes/categories.js leaves.
use virtual_lab.Prelude.{
  ◌+◌, Bool, true, false, not, Option, none, List, [], ◌∷◌, ◌++◌, map, ◌≡◌, inl, inr, refl, subst,
  arith, any, keep, count_if, All, Option-cases,
}
use virtual_lab.JsText.{JsText, text_eq}
use virtual_lab.JsText.Laws.{text_eq_iff}
use virtual_lab.Db.Rows.{Db, Category, Scenario}
use virtual_lab.Db.Tx.{Tx, ok, in_transaction}
use virtual_lab.Db.Laws.{Result-cases}
use virtual_lab.Auth.{Principal}
use virtual_lab.Audit.{record_event}
use virtual_lab.CatalogInput.{CategoryInput}
use virtual_lab.Routes.Bulk.{find_category}
use virtual_lab.Routes.Categories.{
  insert_category, create_work, placed, reorder_work, update_category, recategorized, with_label,
  update_work, remove_work, last_order, or_else,
}

abbrev pub has_category : JsText → List Category → Bool
has_category slug = any (λ c. text_eq c.slug slug)

-- Every scenario stands in a category that has a row.
abbrev pub IsFiled : Db → Type 0
IsFiled db = All (λ s. has_category s.card.category db.categories ≡ true) db.scenarios

-- A change of the list of categories leaves the history alone, and of the scenarios all but the label;
-- the category of each scenario keeps its row.
pub record Leaves (db db' : Db) : Type 0 where
  pub versions : db'.versions ≡ db.versions
  pub next_version : db'.next_version ≡ db.next_version
  pub slug : JsText
  pub label : Option JsText
  pub scenarios : db'.scenarios ≡ with_label slug label db.scenarios
  pub covered :
      All
        (λ s.
          has_category s.card.category db.categories ≡ true
          → has_category s.card.category db'.categories ≡ true)
        db.scenarios

every : {P : Scenario → Type 0} → ((s : Scenario) → P s) → (ss : List Scenario) → All P ss
every h [] = tt
every h (s ∷ ss) = (h s, every h ss)

pub unchanged : (db : Db) → Leaves db db
unchanged db = record {
  versions = refl;
  next_version = refl;
  slug = [];
  label = none;
  scenarios = refl;
  covered =
      every
        {P = λ s.
          has_category s.card.category db.categories ≡ true
          → has_category s.card.category db.categories ≡ true}
        (λ s h. h) db.scenarios;
}

pub has-append :
    (slug : JsText) (cs ds : List Category)
    → has_category slug cs ≡ true
    → has_category slug (cs ++ ds) ≡ true
unfolding any
has-append slug [] ds h = absurd (ground arith)
has-append slug (c ∷ cs) ds h = ground (arith, has-append slug cs ds)

has-map :
    (f : Category → Category) (slug : JsText) (cs : List Category)
    → ((c : Category) → (f c).slug ≡ c.slug)
    → has_category slug (map f cs) ≡ has_category slug cs
unfolding any
has-map f slug [] same = refl
has-map f slug (c ∷ cs) same = ground (arith, same c, has-map f slug cs same)

has-update :
    (id slug : JsText) (f : Category → Category) (cs : List Category)
    → ((c : Category) → (f c).slug ≡ c.slug)
    → has_category slug (update_category id f cs) ≡ has_category slug cs
unfolding any update_category
has-update id slug f [] same = refl
has-update id slug f (c ∷ cs) same = ground (arith, same c, has-update id slug f cs same)

has-keep :
    (gone slug : JsText) (cs : List Category)
    → text_eq slug gone ≡ false
    → has_category slug (keep (λ c. not (text_eq c.slug gone)) cs) ≡ has_category slug cs
unfolding any keep
has-keep gone slug [] ne = refl
has-keep gone slug (c ∷ cs) ne = ground (
  arith,
  has-keep gone slug cs ne,
  text_eq_iff c.slug gone,
  text_eq_iff c.slug slug,
  text_eq_iff slug gone,
)

unused_covered :
    (gone : JsText) (cs : List Category) (ss : List Scenario)
    → count_if (λ s. text_eq s.card.category gone) ss ≡ 0
    → All
        (λ s.
          has_category s.card.category cs ≡ true
          → has_category s.card.category (keep (λ c. not (text_eq c.slug gone)) cs) ≡ true)
        ss
unfolding count_if
unused_covered gone cs [] h = tt
unused_covered gone cs (s ∷ ss) h = (
  λ has. ground (arith, has-keep gone s.card.category cs),
  unused_covered gone cs ss (ground arith),
)

placed-slug : (slugs : List JsText) (c : Category) → (placed slugs c).slug ≡ c.slug
unfolding placed
placed-slug slugs c = ground arith

-- A transaction that leaves the tables so, or throws.
pub in_transaction-Leaves :
    {A : Type 0} (work : Tx A) (db : Db)
    → ((a : A) (db' : Db) → work db ≡ ok (a, db') → Leaves db db')
    → Leaves db (in_transaction work db).1
unfolding in_transaction
in_transaction-Leaves work db h = elim (Result-cases (work db)) [
  | inl ((a, db'), e) ↦ subst (Leaves db) {x = db'} (ground arith) (h a db' e)
  | inr (x, e) ↦ subst (Leaves db) {x = db} (ground arith) (unchanged db)
]

-- A list of categories that keeps each slug.
module _ (db db' : Db) (versions : db'.versions ≡ db.versions)
    (next : db'.next_version ≡ db.next_version) (slug : JsText) (label : Option JsText)
    (rows : db'.scenarios ≡ with_label slug label db.scenarios) where
  slugs_kept :
      ((j : JsText) → has_category j db.categories ≡ true → has_category j db'.categories ≡ true)
      → Leaves db db'
  slugs_kept kept = record {
    versions = versions;
    next_version = next;
    slug = slug;
    label = label;
    scenarios = rows;
    covered =
        every
          {P = λ s.
            has_category s.card.category db.categories ≡ true
            → has_category s.card.category db'.categories ≡ true}
          (λ s. kept s.card.category) db.scenarios;
  }

module _ (p : Principal) (db : Db) where
  -- What an insertion adds.
  inserted :
      (input : CategoryInput) (o : Option Category) (db' : Db)
      → create_work p input db ≡ ok (o, db')
      → (c : Category) × (db'.categories ≡ db.categories ++ c ∷ [])
        × (db'.scenarios ≡ db.scenarios)
        × (db'.versions ≡ db.versions)
        × (db'.next_version ≡ db.next_version)
  unfolding create_work insert_category record_event
  inserted input o db' h = elim (Option-cases input.slug) [
    | inl e ↦ absurd (ground arith)
    | inr (slug, es) ↦ elim (Option-cases input.label) [
      | inl e ↦ absurd (ground arith)
      | inr (label, el) ↦ elim (Option-cases input.icon) [
        | inl e ↦ absurd (ground arith)
        | inr (icon, ei) ↦ elim (Option-cases (find_category slug db.categories)) [
          | inr (c, e) ↦ absurd (ground arith)
          | inl e ↦ (
            record {
              slug = slug;
              label = label;
              icon = icon;
              sort_order = last_order db.categories + 10;
              is_visible = or_else input.is_visible true;
            },
            ground arith,
            ground arith,
            ground arith,
            ground arith,
          )
        ]
      ]
    ]
  ]

  pub create-Leaves :
      (input : CategoryInput) (o : Option Category) (db' : Db)
      → create_work p input db ≡ ok (o, db')
      → Leaves db db'
  create-Leaves input o db' h =
      let (c, added, rows, versions, next) = inserted input o db' h in
      slugs_kept db db' versions next [] none rows
        (λ j has. rw added (has-append j db.categories (c ∷ []) has))

  pub reorder-Leaves :
      (slugs : List JsText) (u : Unit) (db' : Db)
      → reorder_work p slugs db ≡ ok (u, db')
      → Leaves db db'
  unfolding reorder_work record_event
  reorder-Leaves slugs u db' h =
      slugs_kept db db' (ground arith) (ground arith) [] none (ground arith) (λ j has.
        subst (λ cs. has_category j cs ≡ true) {x = map (placed slugs) db.categories} (ground arith)
          (rw (has-map (placed slugs) j db.categories (placed-slug slugs)) has))

  pub update-Leaves :
      (slug : JsText) (input : CategoryInput) (o : Option Category) (db' : Db)
      → update_work p slug input db ≡ ok (o, db')
      → Leaves db db'
  unfolding update_work record_event
  update-Leaves slug input o db' h =
      slugs_kept db db' (ground arith) (ground arith) slug input.label (ground arith) (λ j has.
        subst (λ cs. has_category j cs ≡ true)
          {x = update_category slug (recategorized input) db.categories} (ground arith)
          (rw (has-update slug j (recategorized input) db.categories (λ _. refl)) has))

  pub remove-Leaves :
      (slug : JsText) (u : Unit) (db' : Db) → remove_work p slug db ≡ ok (u, db') → Leaves db db'
  unfolding remove_work record_event
  remove-Leaves slug u db' h = record {
    versions = ground arith;
    next_version = ground arith;
    slug = [];
    label = none;
    scenarios = ground arith;
    covered =
        subst
          (λ cs.
            All
              (λ s.
                has_category s.card.category db.categories ≡ true
                → has_category s.card.category cs ≡ true)
              db.scenarios)
          {x = keep (λ c. not (text_eq c.slug slug)) db.categories} (ground arith)
          (unused_covered slug db.categories db.scenarios (ground arith));
  }
