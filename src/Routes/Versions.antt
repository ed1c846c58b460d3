-- ===== src/Routes/Versions.antt =====
-- backend/routes/versions.js: the list of a scenario's versions, and the decisions on one of them.
use virtual_lab.Prelude.{ℕ, not, ◌&&◌, some, List, [], ◌∷◌, ◌++◌}
use virtual_lab.JsText.{JsText, utf16, number_of}
use virtual_lab.HttpError.{Failure, http_error}
use virtual_lab.Db.Rows.{
  Db, Scenario, Version, VersionState, current, pending, archived, state_eq, state_name, author,
  moderator, Detail, text, number,
}
use virtual_lab.Db.Tx.{Tx, in_transaction, gets, or_fail, throw_if, ◌>>=◌, ◌>>◌}
use virtual_lab.Db.Find.{find_scenario}
use virtual_lab.Auth.{Principal, can_edit_scenario, is_moderator}
use virtual_lab.Audit.{record_event}
use virtual_lab.Workflow.{no_scenario}
use virtual_lab.Versions.{Shown, list_versions, get_version_by_param, promote, remove_version}
use virtual_lab.Routes.{Response, queried, answer_with, authorized}

unfoldable pub lock_scenario : JsText → Tx Scenario
lock_scenario id = do or_fail (← gets (λ db. find_scenario id db.scenarios)) no_scenario

unfoldable pub not_yours : Failure
not_yours = http_error 403 (utf16 "Це не ваш сценарій")

unfoldable pub not_enough : Failure
not_enough = http_error 403 (utf16 "Недостатньо прав")

-- `requireState`
abbrev pub require_state : Version → VersionState → Failure → Tx (Unit {0})
require_state v state e = throw_if (not (state_eq v.state state)) e

-- `details`
unfoldable pub details : Version → List (JsText × Detail)
details v =
    (utf16 "versionId", number v.id)
    ∷ (utf16 "sha256", text v.sha256)
    ∷ (utf16 "state", text (state_name v.state))
    ∷ []

unfoldable pub get_versions : Principal → JsText → Db → Response (List Shown) × Db
get_versions principal id = authorized author principal (λ db.
    answer_with (λ vs. vs)
      (queried
        (do
          row ← or_fail (← gets (λ db. find_scenario id db.scenarios)) no_scenario
          throw_if (not (can_edit_scenario principal row.owner_key_id)) not_yours
          gets (λ db. list_versions id db))
        db))

-- The keys of DECISIONS.
pub data Decision : Type 0 where
  accept reject restore : Decision

unfoldable pub decision_name : Decision → JsText
decision_name accept = utf16 "accept"
decision_name reject = utf16 "reject"
decision_name restore = utf16 "restore"

-- The state that a decision asks of its version.
abbrev pub wanted : Decision → VersionState
wanted accept = pending
wanted reject = pending
wanted restore = archived

unfoldable pub wrong_state : Decision → Failure
wrong_state accept = http_error 409 (utf16 "Прийняти можна лише версію, що очікує розгляду")
wrong_state reject = http_error 409 (utf16 "Відхилити можна лише версію, що очікує розгляду")
wrong_state restore = http_error 409 (utf16 "Відновити можна лише архівну версію")

-- The `run` of DECISIONS, after its `requireState`.
abbrev pub run : Decision → JsText → Version → Tx (Unit {0})
run accept id v = promote id v
run reject id v = remove_version v.id
run restore id v = promote id v

-- The work of the transaction.
unfoldable pub decide_work : Principal → JsText → JsText → Decision → Tx (Unit {0})
decide_work principal id raw decision = do
  _ ← lock_scenario id
  shown ← get_version_by_param id raw
  require_state shown.version (wanted decision) (wrong_state decision)
  run decision id shown.version
  record_event principal (utf16 "version." ++ decision_name decision) (some id)
      (details shown.version)

-- The body's `id` and `versionId`, behind the gate.
unfoldable pub decide : Principal → JsText → JsText → Decision → Db → Response (JsText × ℕ) × Db
decide principal id raw decision = authorized moderator principal (λ db.
    answer_with (λ _. (id, number_of raw))
      (in_transaction (decide_work principal id raw decision) db))

unfoldable pub is_current : Failure
is_current = http_error 409 (utf16 "Поточну версію видалити не можна: спершу відновіть іншу")

unfoldable pub delete_work : Principal → JsText → JsText → Tx (Unit {0})
delete_work principal id raw = do
  scenario ← lock_scenario id
  throw_if (not (can_edit_scenario principal scenario.owner_key_id)) not_yours
  shown ← get_version_by_param id raw
  throw_if (state_eq shown.version.state current) is_current
  throw_if (state_eq shown.version.state archived && not (is_moderator principal.role)) not_enough
  remove_version shown.version.id
  record_event principal (utf16 "version.delete") (some id) (details shown.version)

unfoldable pub delete : Principal → JsText → JsText → Db → Response (JsText × ℕ) × Db
delete principal id raw = authorized author principal (λ db.
    answer_with (λ _. (id, number_of raw)) (in_transaction (delete_work principal id raw) db))
