-- ===== src/Routes/Catalog.antt =====
-- backend/routes/catalog-admin.js: creation, change and deletion of a scenario's row. How the driver
-- writes a value that is no string into a text column is the parameter `driver_text`. The listing for
-- administrators is left out.
pub mod Create
pub mod Inserts
pub mod Created
pub mod Update
pub mod Forbidden
pub mod Author
use virtual_lab.Prelude.{
  ℕ, Bool, true, false, not, ◌&&◌, ◌||◌, Option, none, some, List, [], ◌∷◌, ◌++◌, ◌orelse◌,
  if◌then◌else◌, ltb, any, keep, find, length,
}
use virtual_lab.JsText.{JsText, utf16, text_eq, is_empty}
use virtual_lab.HttpError.{
  Failure, http_error, unique_violation, foreign_key_violation, error, describe_error,
}
use virtual_lab.Db.Rows.{
  Db, Scenario, Card, Archive, Feature, Status, draft, published, status_eq, author, moderator,
  text, texts,
}
use virtual_lab.Db.Tx.{
  Tx, Result, ok, throw, in_transaction, pure, fail, gets, or_fail, throw_if, modify, ◌>>=◌, ◌>>◌,
}
use virtual_lab.Db.Find.{find_scenario, update_scenario, delete_scenario}
use virtual_lab.Auth.{Principal, can_edit_scenario, is_moderator}
use virtual_lab.Audit.{record_event}
use virtual_lab.Json.{Json, null, flag, member, string_of, is_given, is_truthy}
use virtual_lab.CatalogInput.{
  Checked, value, refused, validate_features, forbidden_author_fields, image_url_problem,
  scenario_text_problem, scenario_text_limits, first_problem, Limit,
}
use virtual_lab.Workflow.{Action, no_scenario}
use virtual_lab.Versions.{key_exists}
use virtual_lab.Routes.{Response, sent, failed, authorized, answer_with}
use virtual_lab.Routes.Versions.{not_yours}
use virtual_lab.Routes.Bulk.{find_category, transition}
use virtual_lab.Routes.Categories.{insert_category}
use virtual_lab.ArchiveValidation.{join_names}

abbrev pub bad_request : {A : Type 0} → JsText → Response A
bad_request message = failed (record { status = 400; message = message })

-- `forbiddenFieldsError` where an author sends a field that is a moderator's.
unfoldable pub forbidden_problem : Principal → Json → Option JsText
unfolding forbidden_author_fields join_names
forbidden_problem principal body =
    if is_moderator principal.role then none else elim (forbidden_author_fields (some body)) [
      | [] ↦ none
      | f ∷ fs ↦ some (utf16 "Автору заборонено поля: " ++ join_names (f ∷ fs))
    ]

-- The features of a body, where it has them.
unfoldable pub features_of : Option Json → Checked (Option (List Feature))
unfolding validate_features
features_of none = value none
features_of (some j) = elim (validate_features j) [
  | refused message ↦ refused message
  | value fs ↦ value (some fs)
]

abbrev pub problem_of : {A : Type 0} → Checked A → Option JsText
problem_of (value _) = none
problem_of (refused message) = some message

abbrev pub features_or : Checked (Option (List Feature)) → List Feature → List Feature
features_or (value (some fs)) old = fs
features_or _ old = old

-- `ensureCategory`: ON CONFLICT (slug) DO NOTHING
unfoldable pub ensure_category : JsText → Option JsText → Tx (Unit {0})
unfolding insert_category find
ensure_category slug label = do
  known ← gets (λ db. find_category slug db.categories)
  elim known [
    | some _ ↦ pure tt
    | none ↦ elim label [
      | none ↦ insert_category slug slug (utf16 "folder") true
      | some l ↦ insert_category slug (if is_empty l then slug else l) (utf16 "folder") true
    ]
  ]

unfoldable pub unknown_category : Failure
unknown_category = http_error 400 (utf16 "Невідома категорія")

-- A NOT NULL column got null.
abbrev pub null_value : Failure
null_value = error (utf16 "null value in column")

module _ (driver_text : Json → JsText) where
  -- A value that is not null in a text column.
  abbrev pub stored_text : Json → JsText
  stored_text j = elim (string_of (some j)) [ some s ↦ s | none ↦ driver_text j ]

-- Whether there was a row to delete.
unfoldable pub delete_work : Principal → JsText → Tx Bool
unfolding find_scenario delete_scenario record_event
delete_work principal id = do
  row ← gets (λ db. find_scenario id db.scenarios)
  modify (delete_scenario id)
  elim row [
    | none ↦ pure false
    | some _ ↦ do record_event principal (utf16 "scenario.delete") (some id) []; pure true
  ]

-- DELETE /api/catalog/:id
unfoldable pub delete_catalog : Principal → JsText → Db → Response (Unit {0}) × Db
unfolding delete_work in_transaction
delete_catalog principal id = authorized moderator principal (λ db.
    let (result, db') = in_transaction (delete_work principal id) db in
    elim result [
      | ok true ↦ (sent 200 tt, db')
      | ok false ↦ (failed (record { status = 404; message = utf16 "Сценарій не знайдено" }), db')
      | throw e ↦ (failed (record { status = 500; message = utf16 "Помилка сервера" }), db')
    ])
