-- ===== src/Tests/Routes.antt =====
-- The routes on the small catalog.
use virtual_lab.Prelude.{
  ℕ, true, false, some, none, List, [], ◌∷◌, ◌≡◌, ◌⊎◌, ◌↔◌, refl, find, any, all,
}
use virtual_lab.JsText.{utf16, JsText, text_eq, number_of, number_from, is_digit}
use virtual_lab.HttpError.{Described, describe_error}
use virtual_lab.Db.Rows.{Db, Scenario, Version, current, draft, moderator}
use virtual_lab.Db.Tx.{in_transaction}
use virtual_lab.Db.Find.{find_scenario, update_scenario, is_at}
use virtual_lab.Auth.{require_role, can_edit_scenario}
use virtual_lab.Workflow.{
  submit, approve, unpublish, absent, apply_transition, no_archive, has_current, moved,
}
use virtual_lab.Audit.{record_event}
use virtual_lab.Versions.{
  archive_of, shown, get_version_by_param, get_version, is_version_id, promote, set_current,
  point_scenario_at, archive_current, mark_current,
}
use virtual_lab.Routes.{sent, failed}
use virtual_lab.Routes.Workflow.{post_action, move, MovedBody}
use virtual_lab.Routes.Moves.{IsRefusal, post_action_failed, post_action_sent}
use virtual_lab.Routes.Versions.{restore, decide, decide_work, lock_scenario, delete}
use virtual_lab.Routes.Decide.{Named}
use virtual_lab.Routes.Decided.{Awaits, DecideRefusal, decided_journaled, decide-cases}
use virtual_lab.Routes.Delete.{DeleteRefusal, IsDeletable, removed, delete-cases}
use virtual_lab.Routes.Bulk.{
  Raw, RawIds, string, other, Line, post_bulk, request, strings, action_of, BulkAction, run_all,
  distinct,
}
use virtual_lab.Routes.Bulk.Answers.{Answers, post_bulk-lines}
use virtual_lab.Safety.{IsSafe}
use virtual_lab.Safety.Steps.{decision, Reach, here, next, Reach-IsSafe, published_shows_current}
use virtual_lab.Tests.Data.{
  a, b, db, scenario_a, version_1, an_author, a_moderator, db-IsSafe, db-IsSound,
}

abbrev one : JsText
one = b'1' ∷ []

decide-cases_example :
    ((n : Named a_moderator a one db) × (a_moderator.role ≡ moderator)
      × Awaits restore n.row.state
      × (decide a_moderator a one restore db ≡ (
        sent 200 (a, number_of one),
        decided_journaled a_moderator a one restore db db-IsSound n.row,
      )))
    ⊎ ((d : Described) × (decide a_moderator a one restore db ≡ (failed d, db))
        × DecideRefusal a_moderator a one restore db db-IsSound d.status)
decide-cases_example = decide-cases a_moderator a one restore db db-IsSound

delete-cases_example :
    ((n : Named an_author a (b'3' ∷ []) db) × IsDeletable an_author a (b'3' ∷ []) db n
      × (delete an_author a (b'3' ∷ []) db
          ≡ (sent 200 (a, number_of (b'3' ∷ [])), removed an_author a (b'3' ∷ []) db n.row)))
    ⊎ ((d : Described) × (delete an_author a (b'3' ∷ []) db ≡ (failed d, db))
        × DeleteRefusal an_author a (b'3' ∷ []) db d.status)
delete-cases_example = delete-cases an_author a (b'3' ∷ []) db

submits : post_action an_author b submit absent db ≡ (failed (describe_error no_archive), db)
unfolding post_action move in_transaction apply_transition require_role find_scenario find
    has_current text_eq can_edit_scenario
submits = refl

post_action_failed_example : (db ≡ db) × IsRefusal (describe_error no_archive).status
post_action_failed_example =
    post_action_failed an_author b submit absent db (describe_error no_archive) db submits

abbrev ok_status : ℕ
ok_status = 200

abbrev unpublished_body : MovedBody
unpublished_body = record {
  id = a;
  status = draft;
  is_published = false;
  moderator_note = none;
  submitted_at = none;
}

unpublishes :
    post_action a_moderator a unpublish absent db
    ≡ (sent 200 unpublished_body, (post_action a_moderator a unpublish absent db).1)
unfolding post_action move in_transaction apply_transition require_role find_scenario find
    has_current text_eq can_edit_scenario moved record_event
unpublishes = refl

post_action_sent_example :
    (ok_status ≡ 200)
    × ((unpublished_body.is_published ≡ true) ↔ (unpublish ≡ approve))
    × (unpublish ≡ approve
        → (a_moderator.role ≡ moderator)
          × (has_current a (post_action a_moderator a unpublish absent db).1.versions ≡ true))
post_action_sent_example =
    post_action_sent a_moderator a unpublish absent db 200 unpublished_body
      (post_action a_moderator a unpublish absent db).1 unpublishes

-- "b" cannot be approved, "a" twice named is unpublished once.
abbrev ids : List JsText
ids = b ∷ a ∷ a ∷ []

abbrev raw_ids : RawIds
raw_ids = RawIds.array (string b ∷ string a ∷ string a ∷ [])

abbrev unpublish_raw : Raw
unpublish_raw = string (utf16 "unpublish")

abbrev unpublished_all : Db
unpublished_all = (post_bulk a_moderator raw_ids unpublish_raw other db).1

abbrev both_lines : List Line
both_lines = (run_all BulkAction.unpublish a_moderator (distinct ids) db).0

bulk_sent :
    post_bulk a_moderator raw_ids unpublish_raw other db ≡ (sent 200 both_lines, unpublished_all)
unfolding post_bulk request strings action_of text_eq utf16 require_role
bulk_sent = refl

post_bulk-lines_example :
    (names : List JsText) × (act : BulkAction) × Answers a_moderator raw_ids unpublish_raw other db
      both_lines unpublished_all names act
post_bulk-lines_example =
    post_bulk-lines a_moderator raw_ids unpublish_raw other db unpublished_all both_lines bulk_sent

-- An author's proposal for "a", then a moderator's restore of version 1.
abbrev after_restore : Db
after_restore = (decide a_moderator a one restore db).1

restored : Reach db after_restore
restored = next here (decision a_moderator a one restore)

Reach-IsSafe_example : IsSafe after_restore
Reach-IsSafe_example = Reach-IsSafe db after_restore db-IsSafe restored

abbrev restored_row : Scenario
restored_row = record scenario_a { archive = archive_of version_1; updated_at = 100 }

found_restored : find_scenario a after_restore.scenarios ≡ some restored_row
unfolding decide decide_work lock_scenario get_version_by_param get_version is_version_id number_of
    number_from all is_digit promote set_current point_scenario_at update_scenario archive_current
    mark_current record_event in_transaction require_role find_scenario find any text_eq shown
found_restored = refl

published_shows_current_example :
    (v : Version) × (find (is_at a current) after_restore.versions ≡ some v)
    × (restored_row.archive ≡ archive_of v)
published_shows_current_example =
    published_shows_current db after_restore a restored_row db-IsSafe restored found_restored refl
