-- ===== src/Workflow.antt =====
-- backend/workflow.js: which status a scenario may move to, who may move it, and the one routine that
-- performs a move.
pub mod Note
pub mod Permitted
pub mod Effect
pub mod Diagram
pub mod Safety
pub mod Refused
use virtual_lab.Prelude.{
  ℕ, Bool, true, false, not, ◌&&◌, Option, none, some, List, [], ◌∷◌, ◌++◌, if◌then◌else◌, ltb, any,
  find, length,
}
use virtual_lab.JsText.{JsText, utf16, is_empty, trim, text_eq}
use virtual_lab.HttpError.{Failure, http_error}
use virtual_lab.Db.Rows.{
  Db, Scenario, Version, Status, draft, review, published, rejected, VersionState, status_eq,
  status_name, Role, Detail, text,
}
use virtual_lab.Db.Tx.{
  Tx, Result, ok, throw, pure, fail, gets, or_fail, throw_if, modify, ◌>>=◌, ◌>>◌,
}
use virtual_lab.Db.Find.{find_scenario, update_scenario, is_at}
use virtual_lab.Auth.{Principal, is_moderator, can_edit_scenario}
use virtual_lab.Audit.{record_event}

-- The keys of TRANSITIONS. Every caller passes one of them, so the throw for an unknown action is not
-- reached.
pub data Action : Type 0 where
  submit withdraw approve reject unpublish : Action

unfoldable pub action_name : Action → JsText
action_name submit = utf16 "submit"
action_name withdraw = utf16 "withdraw"
action_name approve = utf16 "approve"
action_name reject = utf16 "reject"
action_name unpublish = utf16 "unpublish"

pub data By : Type 0 where
  by_owner by_moderator : By

pub data NoteRule : Type 0 where
  set clear keep : NoteRule

pub record Rule : Type 0 where
  pub from : List Status
  pub to : Status
  pub by : By
  pub needs_version : Bool
  pub note : NoteRule

abbrev pub transitions : Action → Rule
transitions submit = record {
  from = draft ∷ rejected ∷ [];
  to = review;
  by = by_owner;
  needs_version = true;
  note = clear;
}
transitions withdraw = record {
  from = review ∷ [];
  to = draft;
  by = by_owner;
  needs_version = false;
  note = keep;
}
transitions approve = record {
  from = review ∷ draft ∷ rejected ∷ [];
  to = published;
  by = by_moderator;
  needs_version = true;
  note = clear;
}
transitions reject = record {
  from = review ∷ [];
  to = rejected;
  by = by_moderator;
  needs_version = false;
  note = set;
}
transitions unpublish = record {
  from = published ∷ [];
  to = draft;
  by = by_moderator;
  needs_version = false;
  note = keep;
}

-- `rule.from.includes(status)`
abbrev pub includes : List Status → Status → Bool
includes [] s = false
includes (x ∷ xs) s = if status_eq x s then true else includes xs s

abbrev pub allowed : By → Principal → Option ℕ → Bool
allowed by_moderator principal owner = is_moderator principal.role
allowed by_owner principal owner = can_edit_scenario principal owner

abbrev pub not_allowed : By → Failure
not_allowed by_moderator = http_error 403 (utf16 "Недостатньо прав")
not_allowed by_owner = http_error 403 (utf16 "Це не ваш сценарій")

unfoldable pub no_scenario : Failure
no_scenario = http_error 404 (utf16 "Сценарій не знайдено")

unfoldable pub wrong_status : Action → Status → Failure
wrong_status action status = http_error 409 (
    utf16 "Дію «"
    ++ (action_name action
        ++ (utf16 "» не можна виконати для сценарію зі статусом «"
            ++ (status_name status ++ utf16 "»"))))

unfoldable pub no_archive : Failure
no_archive = http_error 409 (utf16 "Спершу завантажте архів сценарію")

-- SELECT 1 FROM scenario_versions WHERE scenario_id = $1 AND state = 'current'
unfoldable pub has_current : JsText → List Version → Bool
unfolding any
has_current id = any (is_at id VersionState.current)

-- `rule.note === 'set' ? note : null`; an undefined note is sent as NULL.
abbrev pub stored_note : NoteRule → Option JsText → Option JsText
stored_note set note = note
stored_note clear _ = none
stored_note keep _ = none

-- CASE WHEN $3::text = 'keep' THEN moderator_note ELSE $4::text END
abbrev pub new_note : NoteRule → Option JsText → Option JsText → Option JsText
new_note keep old stored = old
new_note set old stored = stored
new_note clear old stored = stored

-- UPDATE scenarios SET status = …, moderator_note = …, submitted_at = …, updated_at = NOW()
unfoldable pub moved : Rule → Option JsText → ℕ → Scenario → Scenario
moved rule stored now s = record s {
  status = rule.to;
  moderator_note = new_note rule.note s.moderator_note stored;
  submitted_at = if status_eq rule.to review then some now else s.submitted_at;
  updated_at = now;
}

-- `...(stored ? { note: stored } : {})`
abbrev pub note_detail : Option JsText → List (JsText × Detail)
note_detail none = []
note_detail (some note) = if is_empty note then [] else (utf16 "note", text note) ∷ []

pub record Moved : Type 0 where
  pub id : JsText
  pub from : Status
  pub status : Status
  pub moderator_note : Option JsText
  pub submitted_at : Option ℕ

unfoldable pub apply_transition : Principal → JsText → Action → Option JsText → Tx Moved
apply_transition principal id action note = do
  let rule = transitions action
  row ← or_fail (← gets (λ db. find_scenario id db.scenarios)) no_scenario
  throw_if (not (allowed rule.by principal row.owner_key_id)) (not_allowed rule.by)
  throw_if (not (includes rule.from row.status)) (wrong_status action row.status)
  current ← gets (λ db. has_current id db.versions)
  throw_if (rule.needs_version && not current) no_archive
  let stored = stored_note rule.note note
  now ← gets (λ db. db.now)
  modify (λ db. record db { scenarios = update_scenario id (moved rule stored now) db.scenarios })
  record_event principal (utf16 "scenario." ++ action_name action) (some id) (
      (utf16 "from", text (status_name row.status))
      ∷ (utf16 "to", text (status_name rule.to))
      ∷ note_detail stored)
  let updated = moved rule stored now row
  pure (record {
    id = id;
    from = row.status;
    status = updated.status;
    moderator_note = updated.moderator_note;
    submitted_at = updated.submitted_at;
  })

-- `parseRejectNote`, of a body's `note`: absent or null, a string, or another value.
pub data RawNote : Type 0 where
  absent : RawNote
  string : JsText → RawNote
  other : RawNote

abbrev pub max_note_length : ℕ
max_note_length = 2000

unfoldable pub default_reject_note : JsText
unfolding utf16
default_reject_note = utf16 "Потрібні уточнення від модератора."

pub data Parsed : Type 0 where
  value : JsText → Parsed
  error : JsText → Parsed

unfoldable pub parse_reject_note : RawNote → Parsed
parse_reject_note absent = value default_reject_note
parse_reject_note other = error (utf16 "note має бути рядком")
parse_reject_note (string raw) =
    let trimmed = trim raw in
    if ltb max_note_length (length trimmed)
    then error (utf16 "note: не більше 2000 символів")
    else value (if is_empty trimmed then default_reject_note else trimmed)
