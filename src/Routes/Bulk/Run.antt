-- ===== src/Routes/Bulk/Run.antt =====
-- One action of a bulk request: what it achieves, and which scenarios it leaves alone.
use virtual_lab.Prelude.{
  false, not, Option, some, none, List, [], ◌∷◌, ◌≡◌, inl, inr, refl, arith, find, keep,
  Option-cases,
}
use virtual_lab.Prelude.Search.{find_holds}
use virtual_lab.JsText.{JsText, text_eq}
use virtual_lab.JsText.Laws.{text_eq_iff}
use virtual_lab.Db.Rows.{Db, Scenario, Status, published, draft, Category}
use virtual_lab.Db.Tx.{ok}
use virtual_lab.Db.Find.{find_scenario, update_scenario, delete_scenario}
use virtual_lab.Db.Laws.{find-update_self, find-update_ne, Result-cases}
use virtual_lab.Auth.{Principal}
use virtual_lab.Audit.{record_event}
use virtual_lab.Workflow.{Action, apply_transition, Moved}
use virtual_lab.Workflow.Diagram.{Edge}
use virtual_lab.Workflow.Effect.{apply_transition_effect}
use virtual_lab.Routes.Bulk.{
  BulkAction, approve, unpublish, set_category, delete, act, find_category, categorized, transition,
}

-- What an action that succeeds achieves, of the row that its id then finds.
abbrev pub Achieved : BulkAction → Option Scenario → Type 0
Achieved approve row = (s : Scenario) × (row ≡ some s) × (s.status ≡ published)
Achieved unpublish row = (s : Scenario) × (row ≡ some s) × (s.status ≡ draft)
Achieved (set_category c) row = (s : Scenario) × (row ≡ some s) × (s.card.category ≡ c)
Achieved delete row = row ≡ none

pub transition_ok :
    (p : Principal) (id : JsText) (db db' : Db) (a : Action)
    → transition a p id db ≡ ok (tt, db')
    → (m : Moved) × (apply_transition p id a none db ≡ ok (m, db'))
unfolding transition
transition_ok p id db db' a h = elim (Result-cases (apply_transition p id a none db)) [
  | inl ((m, db''), e) ↦ (m, ground arith)
  | inr (e, x) ↦ ground arith
]

pub find-delete_ne :
    (id j : JsText) (ss : List Scenario)
    → text_eq id j ≡ false
    → find_scenario j (keep (λ s. not (text_eq s.id id)) ss) ≡ find_scenario j ss
unfolding find_scenario find keep
find-delete_ne id j [] h = refl
find-delete_ne id j (s ∷ ss) h =
    ground
      (arith, find-delete_ne id j ss h, text_eq_iff s.id id, text_eq_iff s.id j, text_eq_iff id j)

pub find-delete_self :
    (id : JsText) (ss : List Scenario)
    → find_scenario id (keep (λ s. not (text_eq s.id id)) ss) ≡ none
unfolding find_scenario find keep
find-delete_self id [] = refl
find-delete_self id (s ∷ ss) = ground (arith, find-delete_self id ss)

approved_status : {s t : Status} → Edge Action.approve s t → t ≡ published
approved_status Edge.approved = refl
approved_status Edge.approve_draft = refl
approved_status Edge.approve_rejected = refl

unpublished_status : {s t : Status} → Edge Action.unpublish s t → t ≡ draft
unpublished_status Edge.unpublished = refl

pub set_category_ok :
    (p : Principal) (id slug : JsText) (db db' : Db)
    → act (set_category slug) p id db ≡ ok (tt, db')
    → (c : Category) × (s : Scenario) × (find_category slug db.categories ≡ some c)
      × (find_scenario id db.scenarios ≡ some s)
      × (db'.scenarios ≡ update_scenario id (categorized c db.now) db.scenarios)
      × (db'.versions ≡ db.versions)
      × (db'.next_version ≡ db.next_version)
unfolding act record_event
set_category_ok p id slug db db' h = elim (Option-cases (find_category slug db.categories)) [
  | inl unknown ↦ ground arith
  | inr (c, e) ↦ elim (Option-cases (find_scenario id db.scenarios)) [
    | inl missing ↦ ground arith
    | inr (s, f) ↦ (c, s, e, f, ground arith, ground arith, ground arith)
  ]
]

pub delete_ok :
    (p : Principal) (id : JsText) (db db' : Db)
    → act delete p id db ≡ ok (tt, db')
    → (db'.scenarios ≡ keep (λ s. not (text_eq s.id id)) db.scenarios)
      × (db'.versions ≡ keep (λ v. not (text_eq v.scenario_id id)) db.versions)
      × (db'.next_version ≡ db.next_version)
unfolding act record_event delete_scenario
delete_ok p id db db' h = elim (Option-cases (find_scenario id db.scenarios)) [
  | inl missing ↦ ground arith
  | inr (s, f) ↦ (ground arith, ground arith, ground arith)
]

module _ (p : Principal) (id : JsText) (db db' : Db) where
  -- An action that succeeds achieves what its name says.
  pub act_achieves :
      (a : BulkAction) → act a p id db ≡ ok (tt, db') → Achieved a (find_scenario id db'.scenarios)
  unfolding act
  act_achieves approve h =
      let (m, e) = transition_ok p id db db' Action.approve h in
      let f = (apply_transition_effect p id Action.approve none db m db' e).0 in
      (f.row, f.found_after, approved_status f.edge)
  act_achieves unpublish h =
      let (m, e) = transition_ok p id db db' Action.unpublish h in
      let f = (apply_transition_effect p id Action.unpublish none db m db' e).0 in
      (f.row, f.found_after, unpublished_status f.edge)
  act_achieves (set_category slug) h =
      let (c, s, e, f, g, _, _) = set_category_ok p id slug db db' h in
      (
        categorized c db.now s,
        ground (arith, find-update_self id (categorized c db.now) db.scenarios (λ _. refl)),
        ground (
          arith,
          find_holds (λ c. text_eq c.slug slug) db.categories c e,
          text_eq_iff c.slug slug,
        ),
      )
  act_achieves delete h = ground (arith, delete_ok p id db db' h, find-delete_self id db.scenarios)

  -- An action on one scenario leaves every other row as it was.
  pub act_others :
      (a : BulkAction) (j : JsText)
      → act a p id db ≡ ok (tt, db')
      → text_eq id j ≡ false
      → find_scenario j db'.scenarios ≡ find_scenario j db.scenarios
  unfolding act
  act_others approve j h ne =
      let (m, e) = transition_ok p id db db' Action.approve h in
      (apply_transition_effect p id Action.approve none db m db' e).0.others j ne
  act_others unpublish j h ne =
      let (m, e) = transition_ok p id db db' Action.unpublish h in
      (apply_transition_effect p id Action.unpublish none db m db' e).0.others j ne
  act_others (set_category slug) j h ne =
      let (c, s, e, f, g, _, _) = set_category_ok p id slug db db' h in
      ground (arith, find-update_ne id j (categorized c db.now) db.scenarios (λ _. refl) ne)
  act_others delete j h ne =
      ground (arith, delete_ok p id db db' h, find-delete_ne id j db.scenarios ne)
