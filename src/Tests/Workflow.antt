-- ===== src/Tests/Workflow.antt =====
-- backend/workflow.js on the small catalog: a moderator unpublishes "a", an author submits "b".
use virtual_lab.Prelude.{none, [], ◌∷◌, ◌≡◌, ◌≢◌, ◌↔◌, refl}
use virtual_lab.JsText.{JsText, text_eq, trim}
use virtual_lab.HttpError.{describe_error}
use virtual_lab.Db.Rows.{Db, Scenario, draft, review, published}
use virtual_lab.Db.Tx.{ok, throw}
use virtual_lab.Db.Find.{find_scenario}
use virtual_lab.Auth.{can_edit_scenario}
use virtual_lab.Auth.Laws.{as_owner}
use virtual_lab.Workflow.{
  submit, withdraw, unpublish, apply_transition, Moved, no_archive, string, parse_reject_note,
  value, has_current,
}
use virtual_lab.Workflow.Diagram.{Edge}
use virtual_lab.Workflow.Permitted.{Permitted, after, answer, ok_of_Permitted, apply_transition_iff}
use virtual_lab.Workflow.Effect.{Replies, apply_transition_effect}
use virtual_lab.Workflow.Refused.{Refusal, apply_transition_refused}
use virtual_lab.Workflow.Safety.{author_never_publishes}
use virtual_lab.Tests.Data.{a, b, db, scenario_a, scenario_b, an_author, a_moderator, found_a}

may_unpublish : Permitted a_moderator a unpublish none db
may_unpublish = record {
  row = scenario_a;
  found = found_a;
  may = refl;
  edge = Edge.unpublished;
  archive = λ h. cc;
}

abbrev unpublished_reply : Moved
unpublished_reply = answer a_moderator a unpublish none db scenario_a

abbrev unpublished_db : Db
unpublished_db = after a_moderator a unpublish none db scenario_a

unpublishes :
    apply_transition a_moderator a unpublish none db ≡ ok (unpublished_reply, unpublished_db)
unfolding may_unpublish
unpublishes = ok_of_Permitted a_moderator a unpublish none db may_unpublish

apply_transition_iff_example :
    ((r : Moved × Db) × (apply_transition a_moderator a unpublish none db ≡ ok r))
    ↔ Permitted a_moderator a unpublish none db
apply_transition_iff_example = apply_transition_iff a_moderator a unpublish none db

apply_transition_effect_example :
    Replies a_moderator a unpublish none db unpublished_reply unpublished_db
apply_transition_effect_example =
    apply_transition_effect a_moderator a unpublish none db unpublished_reply unpublished_db
      unpublishes

no_archive_for_b : apply_transition an_author b submit none db ≡ throw no_archive
unfolding apply_transition find_scenario has_current text_eq can_edit_scenario
no_archive_for_b = refl

apply_transition_refused_example :
    Refusal an_author b submit none db (describe_error no_archive).status
apply_transition_refused_example =
    apply_transition_refused an_author b submit none db no_archive no_archive_for_b

abbrev in_review : Scenario
in_review = record scenario_b { status = review }

abbrev db_in_review : Db
db_in_review = record db { scenarios = in_review ∷ [] }

abbrev withdrawn_reply : Moved
withdrawn_reply = answer an_author b withdraw none db_in_review in_review

abbrev withdrawn_db : Db
withdrawn_db = after an_author b withdraw none db_in_review in_review

may_withdraw : Permitted an_author b withdraw none db_in_review
unfolding find_scenario text_eq
may_withdraw = record {
  row = in_review;
  found = refl;
  may = as_owner 7 refl refl;
  edge = Edge.withdrawn;
  archive = λ h. cc;
}

withdraws :
    apply_transition an_author b withdraw none db_in_review ≡ ok (withdrawn_reply, withdrawn_db)
unfolding may_withdraw
withdraws = ok_of_Permitted an_author b withdraw none db_in_review may_withdraw

author_never_publishes_example : (draft ≢ published) × (review ≢ published)
author_never_publishes_example =
    author_never_publishes an_author b withdraw none db_in_review withdrawn_reply withdrawn_db refl
      withdraws

abbrev ok_text : JsText
ok_text = b'o' ∷ b'k' ∷ []

short_note : parse_reject_note (string ok_text) ≡ value ok_text
unfolding parse_reject_note trim
short_note = refl
