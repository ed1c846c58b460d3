-- ===== src/Routes/Categories.antt =====
-- backend/routes/categories.js: the list of categories, and the four changes that a moderator makes to
-- it. How the database orders two slugs (its collation) is a parameter of the listings.
pub mod Sets
pub mod Orders
pub mod Reorder
pub mod Leaves
pub mod Filed
use virtual_lab.Prelude.{
  ℕ, suc, ◌+◌, ◌*◌, Bool, true, false, not, ◌&&◌, ◌||◌, Option, none, some, List, [], ◌∷◌, ◌++◌,
  map, if◌then◌else◌, ltb, ◌==◌, any, keep, count_if, length, find,
}
use virtual_lab.JsText.{JsText, utf16, text_eq, decimal}
use virtual_lab.HttpError.{Failure, http_error, unique_violation, error, describe_error}
use virtual_lab.Db.Rows.{Db, Category, Scenario, author, moderator, Detail, text, flag, texts}
use virtual_lab.Db.Tx.{
  Tx, Result, ok, throw, in_transaction, pure, gets, or_fail, throw_if, modify, ◌>>=◌, ◌>>◌,
}
use virtual_lab.Auth.{Principal, is_moderator}
use virtual_lab.Audit.{record_event}
use virtual_lab.Json.{Json, array, elements, member, string_of}
use virtual_lab.CatalogInput.{value, refused, CategoryInput, validate_category}
use virtual_lab.Routes.{Response, sent, failed, authorized, answer_with}
use virtual_lab.Routes.Bulk.{find_category, distinct}

-- ORDER BY sort_order, slug
abbrev comes_before : (JsText → JsText → Bool) → Category → Category → Bool
comes_before slug_before c d =
    ltb c.sort_order d.sort_order || c.sort_order == d.sort_order && slug_before c.slug d.slug

unfoldable pub place : (JsText → JsText → Bool) → Category → List Category → List Category
place slug_before c [] = c ∷ []
place slug_before c (d ∷ ds) =
    let rest = place slug_before c ds in
    if comes_before slug_before d c then d ∷ rest else c ∷ d ∷ ds

unfoldable pub ordered : (JsText → JsText → Bool) → List Category → List Category
unfolding place
ordered slug_before [] = []
ordered slug_before (c ∷ cs) = place slug_before c (ordered slug_before cs)

-- GET: `scenarioCount` is for moderators.
unfoldable pub list_categories :
    (JsText → JsText → Bool) → Principal → Db → Response (List (Category × Option ℕ)) × Db
unfolding ordered count_if
list_categories slug_before principal = authorized author principal (λ db. (
  sent 200 (
      map
        (λ c. (
          c,
          if is_moderator principal.role
              then some (count_if (λ s. text_eq s.card.category c.slug) db.scenarios)
              else none,
        ))
        (ordered slug_before db.categories)),
  db,
))

-- COALESCE(MAX(sort_order), 0)
unfoldable pub last_order : List Category → ℕ
last_order [] = 0
last_order (c ∷ cs) =
    let rest = last_order cs in if ltb rest c.sort_order then c.sort_order else rest

-- INSERT INTO categories …; `slug` is the primary key.
unfoldable pub insert_category : JsText → JsText → JsText → Bool → Tx (Unit {0})
unfolding last_order
insert_category slug label icon is_visible db = elim (find_category slug db.categories) [
  | some _ ↦ throw unique_violation
  | none ↦ ok (
    tt,
    record db {
      categories =
          db.categories
          ++ (record {
            slug = slug;
            label = label;
            icon = icon;
            sort_order = last_order db.categories + 10;
            is_visible = is_visible;
          })
            ∷ [];
    },
  )
]

-- A NOT NULL column refuses what is not given, which the validation rules out.
abbrev no_value : Failure
no_value = error (utf16 "null value in column")

abbrev pub or_else : {A : Type 0} → Option A → A → A
or_else none a = a
or_else (some b) a = b

unfoldable pub create_work : Principal → CategoryInput → Tx (Option Category)
unfolding insert_category record_event find
create_work principal input = do
  slug ← or_fail input.slug no_value
  label ← or_fail input.label no_value
  icon ← or_fail input.icon no_value
  insert_category slug label icon (or_else input.is_visible true)
  record_event principal (utf16 "category.create") none (
      (utf16 "slug", text slug)
      ∷ (utf16 "label", text label)
      ∷ (utf16 "icon", text icon)
      ∷ (utf16 "isVisible", flag (or_else input.is_visible true))
      ∷ [])
  gets (λ db. find_category slug db.categories)

unfoldable pub answer_created :
    Option JsText → Result (Option Category) × Db → Response (Option Category) × Db
unfolding describe_error
answer_created slug (ok c, db) = (sent 201 c, db)
answer_created slug (throw unique_violation, db) = (
  failed (record {
    status = 409;
    message = utf16 "Категорія \"" ++ or_else slug [] ++ utf16 "\" вже існує";
  }),
  db,
)
answer_created slug (throw e, db) = (failed (describe_error e), db)

-- POST /api/categories
unfoldable pub post_category : Principal → Option Json → Db → Response (Option Category) × Db
unfolding create_work answer_created in_transaction
post_category principal body = authorized moderator principal (λ db.
    elim (validate_category body true) [
      | refused message ↦ (failed (record { status = 400; message = message }), db)
      | value input ↦ answer_created input.slug (in_transaction (create_work principal input) db)
    ])

-- The strings of an array, when it holds nothing else.
unfoldable pub all_strings : List Json → Option (List JsText)
all_strings [] = some []
all_strings (j ∷ js) = elim (string_of (some j)) [
  | none ↦ none
  | some s ↦ elim (all_strings js) [ none ↦ none | some ss ↦ some (s ∷ ss) ]
]

-- `slugs` of a reorder request: an array of strings, each once.
unfoldable pub reorder_slugs : Option Json → Option (List JsText)
unfolding all_strings distinct elements
reorder_slugs (some (array items)) = elim (all_strings (elements items)) [
  | none ↦ none
  | some slugs ↦ if length (distinct slugs) == length slugs then some slugs else none
]
reorder_slugs _ = none

-- Where a slug stands in the list, counted from `n`.
unfoldable pub position : ℕ → JsText → List JsText → Option ℕ
position n slug [] = none
position n slug (s ∷ ss) =
    let rest = position (suc n) slug ss in if text_eq s slug then some n else rest

-- UPDATE categories SET sort_order = t.position * 10 FROM unnest(…) WITH ORDINALITY
unfoldable pub placed : List JsText → Category → Category
unfolding position
placed slugs c = elim (position 1 c.slug slugs) [
  | none ↦ c
  | some n ↦ record c { sort_order = n * 10 }
]

unfoldable pub list_changed : Failure
list_changed = http_error 409 (utf16 "Список категорій змінився: оновіть сторінку та повторіть")

abbrev pub listed_in : List JsText → JsText → Bool
listed_in slugs slug = any (λ s. text_eq s slug) slugs

unfoldable pub reorder_work : Principal → List JsText → Tx (Unit {0})
unfolding placed distinct list_changed record_event any
reorder_work principal slugs = do
  existing ← gets (λ db. distinct (map (λ c. c.slug) db.categories))
  throw_if (not (length existing == length slugs) || any (λ s. not (listed_in existing s)) slugs)
      list_changed
  modify (λ db. record db { categories = map (placed slugs) db.categories })
  record_event principal (utf16 "category.reorder") none ((utf16 "slugs", texts slugs) ∷ [])

-- POST /api/categories/reorder
unfoldable pub post_reorder :
    (JsText → JsText → Bool) → Principal → Option Json → Db → Response (List Category) × Db
unfolding reorder_slugs reorder_work in_transaction ordered describe_error
post_reorder slug_before principal body = authorized moderator principal (λ db.
    elim (reorder_slugs (member (utf16 "slugs") body)) [
      | none ↦ (
        failed
            (record { status = 400; message = utf16 "slugs має бути масивом унікальних рядків" }),
        db,
      )
      | some slugs ↦
          let (result, db') = in_transaction (reorder_work principal slugs) db in
          answer_with (λ _. ordered slug_before db'.categories) (result, db')
    ])

unfoldable pub missing_category : Failure
missing_category = http_error 404 (utf16 "Категорію не знайдено")

-- COALESCE of each given field with the row's own.
abbrev pub recategorized : CategoryInput → Category → Category
recategorized input c = record c {
  label = or_else input.label c.label;
  icon = or_else input.icon c.icon;
  is_visible = or_else input.is_visible c.is_visible;
}

unfoldable pub update_category : JsText → (Category → Category) → List Category → List Category
update_category slug f [] = []
update_category slug f (c ∷ cs) =
    let rest = update_category slug f cs in if text_eq c.slug slug then f c ∷ rest else c ∷ rest

-- UPDATE scenarios SET category_label = $2 WHERE category = $1
unfoldable pub relabelled : JsText → JsText → Scenario → Scenario
relabelled slug label s =
    if text_eq s.card.category slug
    then record s { card = record s.card { category_label = label } }
    else s

-- The fields of `checked.value` as members of an event.
abbrev given_details : CategoryInput → List (JsText × Detail)
given_details input =
    elim input.label [ none ↦ [] | some l ↦ (utf16 "label", text l) ∷ [] ]
    ++ elim input.icon [ none ↦ [] | some i ↦ (utf16 "icon", text i) ∷ [] ]
    ++ elim input.is_visible [ none ↦ [] | some v ↦ (utf16 "isVisible", flag v) ∷ [] ]

-- The scenarios' own copies of the label.
abbrev pub with_label : JsText → Option JsText → List Scenario → List Scenario
with_label slug none ss = ss
with_label slug (some label) ss = map (relabelled slug label) ss

unfoldable pub update_work : Principal → JsText → CategoryInput → Tx (Option Category)
unfolding update_category relabelled missing_category record_event find
update_work principal slug input = do
  row ← gets (λ db. find_category slug db.categories)
  modify (λ db. record db { categories = update_category slug (recategorized input) db.categories })
  _ ← or_fail row missing_category
  modify (λ db. record db { scenarios = with_label slug input.label db.scenarios })
  record_event principal (utf16 "category.update") none
      ((utf16 "slug", text slug) ∷ given_details input)
  gets (λ db. find_category slug db.categories)

-- PUT /api/categories/:slug
unfoldable pub put_category :
    Principal → JsText → Option Json → Db → Response (Option Category) × Db
unfolding update_work in_transaction describe_error
put_category principal slug body = authorized moderator principal (λ db.
    elim (validate_category body false) [
      | refused message ↦ (failed (record { status = 400; message = message }), db)
      | value input ↦ answer_with (λ c. c) (in_transaction (update_work principal slug input) db)
    ])

unfoldable pub is_used : ℕ → Failure
is_used used = http_error 409 (
    utf16 "Категорія використовується (сценаріїв: "
    ++ decimal used
    ++ utf16 "): перенесіть їх або приховайте категорію")

unfoldable pub remove_work : Principal → JsText → Tx (Unit {0})
unfolding is_used missing_category record_event find keep count_if
remove_work principal slug = do
  _ ← or_fail (← gets (λ db. find_category slug db.categories)) missing_category
  used ← gets (λ db. count_if (λ s. text_eq s.card.category slug) db.scenarios)
  throw_if (ltb 0 used) (is_used used)
  modify (λ db. record db { categories = keep (λ c. not (text_eq c.slug slug)) db.categories })
  record_event principal (utf16 "category.delete") none ((utf16 "slug", text slug) ∷ [])

-- DELETE /api/categories/:slug
unfoldable pub delete_category : Principal → JsText → Db → Response JsText × Db
unfolding remove_work in_transaction describe_error
delete_category principal slug =
    authorized moderator principal
      (λ db. answer_with (λ _. slug) (in_transaction (remove_work principal slug) db))
