-- ===== src/Routes/Bulk.antt =====
-- backend/routes/bulk.js: one action on many scenarios, each in its own transaction.
pub mod Run
pub mod Lines
pub mod Answers
use virtual_lab.Prelude.{
  ℕ, Bool, true, false, not, ◌&&◌, ◌||◌, Option, none, some, List, [], ◌∷◌, ◌++◌, if◌then◌else◌,
  ltb, any, find, length, keep,
}
use virtual_lab.JsText.{JsText, utf16, text_eq, is_empty}
use virtual_lab.HttpError.{Failure, Described, http_error, describe_error}
use virtual_lab.Db.Rows.{Db, Scenario, Category, Role, moderator, Detail, text, flag, texts}
use virtual_lab.Db.Tx.{
  Tx, Result, ok, throw, in_transaction, pure, gets, or_fail, throw_if, modify, ◌>>=◌, ◌>>◌,
}
use virtual_lab.Db.Find.{find_scenario, update_scenario, delete_scenario}
use virtual_lab.Auth.{Principal}
use virtual_lab.Audit.{record_event}
use virtual_lab.Workflow.{Action, apply_transition, no_scenario}
use virtual_lab.Routes.{Response, sent, failed, authorized}

abbrev pub max_bulk_ids : ℕ
max_bulk_ids = 100

-- A member of the body: a string or any other value.
pub data Raw : Type 0 where
  string : JsText → Raw
  other : Raw

-- `ids` of the body.
pub data RawIds : Type 0 where
  array : List Raw → RawIds
  not_array : RawIds

-- The keys of ACTIONS; `set_category` carries the category, which the handler has checked.
pub data BulkAction : Type 0 where
  approve unpublish : BulkAction
  set_category : JsText → BulkAction
  delete : BulkAction

abbrev pub find_category : JsText → List Category → Option Category
find_category slug = find (λ c. text_eq c.slug slug)

unfoldable pub no_category : Failure
no_category = http_error 400 (utf16 "Невідома категорія")

-- UPDATE scenarios SET category = …, category_label = …, updated_at = NOW()
abbrev pub categorized : Category → ℕ → Scenario → Scenario
categorized c now s = record s {
  card = record s.card { category = c.slug; category_label = c.label };
  updated_at = now;
}

-- `transition`, without the reply, which the caller drops.
unfoldable pub transition : Action → Principal → JsText → Tx (Unit {0})
transition action principal id = do _ ← apply_transition principal id action none; pure tt

-- One action on one scenario.
unfoldable pub act : BulkAction → Principal → JsText → Tx (Unit {0})
act approve principal id = transition Action.approve principal id
act unpublish principal id = transition Action.unpublish principal id
act (set_category category) principal id = do
  target ← or_fail (← gets (λ db. find_category category db.categories)) no_category
  _ ← or_fail (← gets (λ db. find_scenario id db.scenarios)) no_scenario
  modify
      (λ db. record db { scenarios = update_scenario id (categorized target db.now) db.scenarios })
  record_event principal (utf16 "scenario.update") (some id) (
      (utf16 "fields", texts (utf16 "category" ∷ []))
      ∷ (utf16 "category", text category)
      ∷ (utf16 "bulk", flag true)
      ∷ [])
act delete principal id = do
  _ ← or_fail (← gets (λ db. find_scenario id db.scenarios)) no_scenario
  modify (delete_scenario id)
  record_event principal (utf16 "scenario.delete") (some id) ((utf16 "bulk", flag true) ∷ [])

-- `{ id, ok, error? }`
pub record Line : Type 0 where
  pub id : JsText
  pub error : Option JsText

unfoldable pub act_line : JsText → Result (Unit {0}) → Line
act_line id (ok _) = record { id = id; error = none }
act_line id (throw e) = record { id = id; error = some (describe_error e).message }

-- `for (const id of new Set(ids))`
unfoldable pub run_all : BulkAction → Principal → List JsText → Db → List Line × Db
unfolding in_transaction
run_all action principal [] db = ([], db)
run_all action principal (id ∷ ids) db =
    let (result, db') = in_transaction (act action principal id) db in
    let (lines, last) = run_all action principal ids db' in (act_line id result ∷ lines, last)

-- `new Set(ids)`: each id once, where it first stands.
unfoldable pub distinct : List JsText → List JsText
unfolding keep
distinct [] = []
distinct (id ∷ ids) = id ∷ keep (λ x. not (text_eq x id)) (distinct ids)

-- `ids.some(id => typeof id !== 'string' || !id)`; `none` is the refusal.
unfoldable pub strings : List Raw → Option (List JsText)
strings [] = some []
strings (other ∷ rs) = none
strings (string s ∷ rs) = elim (strings rs) [
  | none ↦ none
  | some ss ↦ if is_empty s then none else some (s ∷ ss)
]

unfoldable pub action_of : Raw → Raw → Result BulkAction
action_of other category =
    throw (http_error 400 (utf16 "action: одне з approve, unpublish, set-category, delete"))
action_of (string a) category =
    if text_eq a (utf16 "approve")
    then ok approve
    else if text_eq a (utf16 "unpublish")
    then ok unpublish
    else if text_eq a (utf16 "delete")
    then ok delete
    else if text_eq a (utf16 "set-category")
    then elim category [
      | other ↦ throw (http_error 400 (utf16 "Для set-category потрібне поле category"))
      | string c ↦
          if is_empty c
          then throw (http_error 400 (utf16 "Для set-category потрібне поле category"))
          else ok (set_category c)
    ]
    else throw (http_error 400 (utf16 "action: одне з approve, unpublish, set-category, delete"))

-- The checks of a request as a whole.
unfoldable pub request : RawIds → Raw → Raw → Result (List JsText × BulkAction)
request not_array action category =
    throw (http_error 400 (utf16 "ids має бути непорожнім масивом рядків"))
request (array []) action category =
    throw (http_error 400 (utf16 "ids має бути непорожнім масивом рядків"))
request (array (r ∷ rs)) action category = elim (strings (r ∷ rs)) [
  | none ↦ throw (http_error 400 (utf16 "ids має бути непорожнім масивом рядків"))
  | some ids ↦
      if ltb max_bulk_ids (length ids)
      then throw (http_error 400 (utf16 "ids: не більше 100 за один запит"))
      else elim (action_of action category) [ throw e ↦ throw e | ok a ↦ ok (ids, a) ]
]

unfoldable pub post_bulk : Principal → RawIds → Raw → Raw → Db → Response (List Line) × Db
post_bulk principal ids action category = authorized moderator principal (λ db.
    elim (request ids action category) [
      | throw e ↦ (failed (describe_error e), db)
      | ok (names, a) ↦
          let (lines, db') = run_all a principal (distinct names) db in (sent 200 lines, db')
    ])
