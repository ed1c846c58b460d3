-- ===== src/Routes/Workflow.antt =====
-- backend/routes/workflow.js: POST /api/scenarios/:id/{submit|withdraw|approve|reject|unpublish}.
use virtual_lab.Prelude.{ℕ, Bool, Option, none, some}
use virtual_lab.JsText.{JsText}
use virtual_lab.Db.Rows.{Db, Status, published, status_eq, author}
use virtual_lab.Db.Tx.{in_transaction}
use virtual_lab.Auth.{Principal}
use virtual_lab.Workflow.{
  Action, submit, withdraw, approve, reject, unpublish, Moved, apply_transition, RawNote, value,
  error, parse_reject_note,
}
use virtual_lab.Routes.{Response, failed, answer_with, authorized}

pub record MovedBody : Type 0 where
  pub id : JsText
  pub status : Status
  pub is_published : Bool
  pub moderator_note : Option JsText
  pub submitted_at : Option ℕ

abbrev pub moved_body : Moved → MovedBody
moved_body m = record {
  id = m.id;
  status = m.status;
  is_published = status_eq m.status published;
  moderator_note = m.moderator_note;
  submitted_at = m.submitted_at;
}

-- The handler from its `try` on.
unfoldable pub move : Principal → JsText → Action → Option JsText → Db → Response MovedBody × Db
unfolding in_transaction
move principal id action note db =
    answer_with moved_body (in_transaction (apply_transition principal id action note) db)

unfoldable pub post_action : Principal → JsText → Action → RawNote → Db → Response MovedBody × Db
post_action principal id reject raw = authorized author principal (λ db.
    elim (parse_reject_note raw) [
      | value note ↦ move principal id reject (some note) db
      | error message ↦ (failed (record { status = 400; message = message }), db)
    ])
post_action principal id submit raw = authorized author principal (move principal id submit none)
post_action principal id withdraw raw =
    authorized author principal (move principal id withdraw none)
post_action principal id approve raw = authorized author principal (move principal id approve none)
post_action principal id unpublish raw =
    authorized author principal (move principal id unpublish none)
