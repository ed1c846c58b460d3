-- ===== src/Workflow/Refused.antt =====
-- Why a move is refused, and with which status.
use virtual_lab.Prelude.{
  ℕ, true, false, Option, some, none, ◌≡◌, inl, inr, refl, arith, subst, Bool-cases, Option-cases,
}
use virtual_lab.JsText.{JsText}
use virtual_lab.HttpError.{Failure, describe_error}
use virtual_lab.Db.Rows.{Db, Scenario, Status}
use virtual_lab.Db.Tx.{throw}
use virtual_lab.Db.Find.{find_scenario}
use virtual_lab.Auth.{Principal}
use virtual_lab.Workflow.{
  Action, By, by_owner, by_moderator, transitions, allowed, not_allowed, no_scenario, wrong_status,
  no_archive, has_current, apply_transition, includes,
}
use virtual_lab.Workflow.Permitted.{
  MayTake, allowed_iff, apply_transition_found, apply_transition_missing,
}
use virtual_lab.Workflow.Diagram.{Edge, includes_of_Edge}

not_allowed_status : (by : By) → (describe_error (not_allowed by)).status ≡ 403
unfolding describe_error
not_allowed_status by_owner = refl
not_allowed_status by_moderator = refl

no_scenario_status : (describe_error no_scenario).status ≡ 404
unfolding no_scenario describe_error
no_scenario_status = refl

wrong_status_status : (a : Action) (s : Status) → (describe_error (wrong_status a s)).status ≡ 409
unfolding wrong_status describe_error
wrong_status_status a s = refl

no_archive_status : (describe_error no_archive).status ≡ 409
unfolding no_archive describe_error
no_archive_status = refl

module _ (p : Principal) (id : JsText) (a : Action) (note : Option JsText) (db : Db) where
  -- The reasons for a refusal, with the status that each answers.
  pub data Refusal : ℕ → Type 0 where
    missing : find_scenario id db.scenarios ≡ none → Refusal 404
    forbidden :
        (row : Scenario)
        → find_scenario id db.scenarios ≡ some row
        → ¬ MayTake (transitions a).by p row.owner_key_id
        → Refusal 403
    no_arrow :
        (row : Scenario)
        → find_scenario id db.scenarios ≡ some row
        → ¬ Edge a row.status (transitions a).to
        → Refusal 409
    nothing_to_show :
        (transitions a).needs_version ≡ true → has_current id db.versions ≡ false → Refusal 409

  -- A move that is refused is refused for a reason of the table: a scenario that is not there (404),
  -- a principal who may not take the action (403), a status with no arrow for it, or no current
  -- archive where one is needed (409). No other error comes out, and none becomes a 500.
  pub apply_transition_refused :
      (e : Failure) → apply_transition p id a note db ≡ throw e → Refusal (describe_error e).status
  apply_transition_refused e h = elim (Option-cases (find_scenario id db.scenarios)) [
    | inl none_there ↦
        subst Refusal
          (ground (arith, apply_transition_missing p id a note db none_there, no_scenario_status))
          (missing none_there)
    | inr (row, found) ↦
        let eq = apply_transition_found p id a note db row found in
        elim (Bool-cases (allowed (transitions a).by p row.owner_key_id)) [
          | inr denied ↦ subst Refusal (ground (arith, not_allowed_status (transitions a).by)) (
              forbidden row found
                (λ may. ground (arith, (allowed_iff (transitions a).by p row.owner_key_id).1 may)))
          | inl permitted ↦ elim (Bool-cases (includes (transitions a).from row.status)) [
            | inr absent ↦
                subst Refusal (ground (arith, wrong_status_status a row.status))
                  (no_arrow row found (λ edge. ground (arith, includes_of_Edge edge)))
            | inl present ↦
                subst Refusal (ground (arith, no_archive_status))
                  (nothing_to_show (ground arith) (ground arith))
          ]
        ]
  ]
