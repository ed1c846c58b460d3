-- ===== src/Workflow/Permitted.antt =====
-- When a move is made, and its outcome by the four tests.
use virtual_lab.Prelude.{
  ℕ, true, not, ◌&&◌, Option, some, none, ◌∷◌, ◌++◌, ◌≡◌, ◌↔◌, inl, inr, arith, if◌then◌else◌,
  Option-cases,
}
use virtual_lab.JsText.{JsText, utf16}
use virtual_lab.Db.Rows.{Db, Scenario, review, moderator, status_eq, status_name, text}
use virtual_lab.Db.Tx.{ok, throw}
use virtual_lab.Db.Find.{find_scenario, update_scenario}
use virtual_lab.Auth.{Principal}
use virtual_lab.Auth.Laws.{MayEdit, can_edit_scenario_iff}
use virtual_lab.Audit.{event, record_event}
use virtual_lab.Workflow.{
  Action, action_name, By, by_owner, by_moderator, transitions, allowed, not_allowed, no_scenario,
  wrong_status, no_archive, has_current, stored_note, new_note, note_detail, moved, Moved,
  apply_transition, includes,
}
use virtual_lab.Workflow.Diagram.{Edge, Edge-of_includes, includes_of_Edge}

-- Who may take an action: the owning author or a moderator, or moderators alone.
abbrev pub MayTake : By → Principal → Option ℕ → Type 0
MayTake by_owner p owner = MayEdit p owner
MayTake by_moderator p owner = p.role ≡ moderator

pub allowed_iff :
    (by : By) (p : Principal) (owner : Option ℕ) → (allowed by p owner ≡ true) ↔ MayTake by p owner
allowed_iff by_owner p owner = can_edit_scenario_iff p owner
allowed_iff by_moderator p owner = ground arith

module _ (p : Principal) (id : JsText) (a : Action) (note : Option JsText) (db : Db) where
  -- The conditions of a move.
  pub record Permitted : Type 0 where
    pub row : Scenario
    pub found : find_scenario id db.scenarios ≡ some row
    pub may : MayTake (transitions a).by p row.owner_key_id
    pub edge : Edge a row.status (transitions a).to
    pub archive : (transitions a).needs_version ≡ true → has_current id db.versions ≡ true

  -- The tables after a move.
  abbrev pub after : Scenario → Db
  after row = record db {
    scenarios =
        update_scenario id (moved (transitions a) (stored_note (transitions a).note note) db.now)
          db.scenarios;
    events =
        event p (utf16 "scenario." ++ action_name a) (some id) (
          (utf16 "from", text (status_name row.status))
          ∷ (utf16 "to", text (status_name (transitions a).to))
          ∷ note_detail (stored_note (transitions a).note note))
        ∷ db.events;
  }

  -- The reply to a move.
  abbrev pub answer : Scenario → Moved
  answer row = record {
    id = id;
    from = row.status;
    status = (transitions a).to;
    moderator_note =
        new_note (transitions a).note row.moderator_note (stored_note (transitions a).note note);
    submitted_at = if status_eq (transitions a).to review then some db.now else row.submitted_at;
  }

  -- The call, by the outcome of its four tests.
  pub apply_transition_found :
      (row : Scenario)
      → find_scenario id db.scenarios ≡ some row
      → apply_transition p id a note db ≡ (
          if not (allowed (transitions a).by p row.owner_key_id)
          then throw (not_allowed (transitions a).by)
          else if not (includes (transitions a).from row.status)
          then throw (wrong_status a row.status)
          else if (transitions a).needs_version && not (has_current id db.versions)
          then throw no_archive
          else ok (answer row, after row))
  unfolding apply_transition record_event moved
  apply_transition_found row found = ground arith

  pub apply_transition_missing :
      find_scenario id db.scenarios ≡ none → apply_transition p id a note db ≡ throw no_scenario
  unfolding apply_transition
  apply_transition_missing h = ground arith

  pub Permitted_of_ok : (r : Moved × Db) → apply_transition p id a note db ≡ ok r → Permitted
  Permitted_of_ok r h = elim (Option-cases (find_scenario id db.scenarios)) [
    | inl missing ↦ absurd (ground (arith, apply_transition_missing missing))
    | inr (row, found) ↦
        let e = apply_transition_found row found in
        record {
          row = row;
          found = found;
          may = (allowed_iff (transitions a).by p row.owner_key_id).0 (ground arith);
          edge = Edge-of_includes a row.status (ground arith);
          archive = λ needs. ground arith;
        }
  ]

  pub ok_of_Permitted :
      (c : Permitted) → apply_transition p id a note db ≡ ok (answer c.row, after c.row)
  ok_of_Permitted c = ground (
    arith,
    apply_transition_found c.row c.found,
    (allowed_iff (transitions a).by p c.row.owner_key_id).1 c.may,
    includes_of_Edge c.edge,
    c.archive,
  )

  -- A move is made exactly when the scenario exists, the principal may take the action, the diagram
  -- has the arrow from the scenario's status, and a current archive exists where one is needed.
  pub apply_transition_iff :
      ((r : Moved × Db) × (apply_transition p id a note db ≡ ok r)) ↔ Permitted
  apply_transition_iff =
      (λ r. Permitted_of_ok r.0 r.1, λ c. ((answer c.row, after c.row), ok_of_Permitted c))
