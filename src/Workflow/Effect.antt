-- ===== src/Workflow/Effect.antt =====
-- What a move changes, and what it leaves alone.
use virtual_lab.Prelude.{
  ℕ, false, Option, some, none, ◌∷◌, ◌++◌, ◌≡◌, ◌∙◌, refl, sym, arith, ap, subst,
}
use virtual_lab.JsText.{JsText, utf16, text_eq}
use virtual_lab.Db.Rows.{Db, Scenario, status_name, text}
use virtual_lab.Db.Tx.{ok}
use virtual_lab.Db.Find.{find_scenario}
use virtual_lab.Db.Laws.{updated, ok-injective, find-update_self, find-update_ne}
use virtual_lab.Auth.{Principal}
use virtual_lab.Audit.{event}
use virtual_lab.Workflow.{
  Action, submit, withdraw, approve, reject, unpublish, action_name, transitions, moved, Moved,
  stored_note, note_detail, apply_transition,
}
use virtual_lab.Workflow.Permitted.{Permitted, after, Permitted_of_ok, ok_of_Permitted}
use virtual_lab.Workflow.Diagram.{Edge}

moved-id :
    (a : Action) (given : Option JsText) (now : ℕ) (s : Scenario)
    → (moved (transitions a) given now s).id ≡ s.id
unfolding moved
moved-id a given now s = refl

-- What an action does to the moderator's note.
abbrev pub kept_note : Action → Option JsText → Option JsText → Option JsText
kept_note submit given old = none
kept_note withdraw given old = old
kept_note approve given old = none
kept_note reject given old = given
kept_note unpublish given old = old

-- The time of submission after an action.
abbrev pub submission_after : Action → ℕ → Option ℕ → Option ℕ
submission_after submit now old = some now
submission_after withdraw now old = old
submission_after approve now old = old
submission_after reject now old = old
submission_after unpublish now old = old

module _ (p : Principal) (id : JsText) (a : Action) (note : Option JsText) (db db' : Db) where
  -- The row after a move, the rest of the tables, and the journal.
  pub record Effect : Type 0 where
    pub before : Scenario
    pub found : find_scenario id db.scenarios ≡ some before
    pub row : Scenario
    pub found_after : find_scenario id db'.scenarios ≡ some row
    pub edge : Edge a before.status row.status
    pub note_after : row.moderator_note ≡ kept_note a note before.moderator_note
    pub submitted : row.submitted_at ≡ submission_after a db.now before.submitted_at
    pub same_card : row.card ≡ before.card
    pub same_archive : row.archive ≡ before.archive
    pub same_owner : row.owner_key_id ≡ before.owner_key_id
    pub others :
        (j : JsText)
        → text_eq id j ≡ false
        → find_scenario j db'.scenarios ≡ find_scenario j db.scenarios
    pub same_versions : db'.versions ≡ db.versions
    pub same_keys : db'.keys ≡ db.keys
    pub same_categories : db'.categories ≡ db.categories
    pub journal :
        db'.events
        ≡ event p (utf16 "scenario." ++ action_name a) (some id) (
            (utf16 "from", text (status_name before.status))
            ∷ (utf16 "to", text (status_name row.status))
            ∷ note_detail (stored_note (transitions a).note note))
          ∷ db.events

module _ (p : Principal) (id : JsText) (a : Action) (note : Option JsText) (db : Db) where
  after-Effect : (c : Permitted p id a note db) → Effect p id a note db (after p id a note db c.row)
  unfolding moved
  after-Effect c =
      let stored = stored_note (transitions a).note note in
      let same = moved-id a stored db.now in
      record {
        before = c.row;
        found = c.found;
        row = moved (transitions a) stored db.now c.row;
        found_after =
            find-update_self id (moved (transitions a) stored db.now) db.scenarios same
            ∙ ap (updated (moved (transitions a) stored db.now)) c.found;
        edge = c.edge;
        note_after = ground arith;
        submitted = ground arith;
        same_card = refl;
        same_archive = refl;
        same_owner = refl;
        others =
            λ j h. find-update_ne id j (moved (transitions a) stored db.now) db.scenarios same h;
        same_versions = refl;
        same_keys = refl;
        same_categories = refl;
        journal = refl;
      }

  -- A reply that shows the row after the move.
  abbrev pub Replies : Moved → Db → Type 0
  Replies m db' =
      (e : Effect p id a note db db') × (m.id ≡ id)
      × (m.from ≡ e.before.status)
      × (m.status ≡ e.row.status)
      × (m.moderator_note ≡ e.row.moderator_note)
      × (m.submitted_at ≡ e.row.submitted_at)

  -- A move that is made follows an arrow of the diagram, sets the note and the time of submission
  -- as its action says, keeps the row's description, archive and owner, every other row, and the
  -- versions, keys and categories, and adds one journal event that names the two statuses; the
  -- reply shows the new row.
  pub apply_transition_effect :
      (m : Moved) (db' : Db) → apply_transition p id a note db ≡ ok (m, db') → Replies m db'
  unfolding moved after-Effect
  apply_transition_effect m db' h =
      let c = Permitted_of_ok p id a note db (m, db') h in
      subst (λ r. Replies r.0 r.1) (ok-injective (sym (ok_of_Permitted p id a note db c) ∙ h))
        (after-Effect c, refl, refl, ground arith, ground arith, ground arith)
