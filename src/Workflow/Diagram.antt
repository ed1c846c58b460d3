-- ===== src/Workflow/Diagram.antt =====
-- The diagram at the head of backend/workflow.js, as a relation, against the table TRANSITIONS.
use virtual_lab.Prelude.{true, ◌≡◌, refl}
use virtual_lab.Db.Rows.{Status, draft, review, published, rejected}
use virtual_lab.Workflow.{
  Action, submit, withdraw, approve, reject, unpublish, transitions, includes,
}

-- An arrow of the diagram.
pub data Edge : Action → Status → Status → Type 0 where
  submit_draft : Edge submit draft review
  submit_again : Edge submit rejected review
  withdrawn : Edge withdraw review draft
  approved : Edge approve review published
  approve_draft : Edge approve draft published
  approve_rejected : Edge approve rejected published
  refused : Edge reject review rejected
  unpublished : Edge unpublish published draft

ruleset edges = (
  submit_draft, submit_again, withdrawn, approved, approve_draft, approve_rejected, refused,
  unpublished,
)

-- The table admits a status exactly when the diagram has an arrow from it to the table's target.
pub Edge-of_includes :
    (a : Action) (s : Status) → includes (transitions a).from s ≡ true → Edge a s (transitions a).to
Edge-of_includes submit draft h = submit_draft
Edge-of_includes submit rejected h = submit_again
Edge-of_includes withdraw review h = withdrawn
Edge-of_includes approve review h = approved
Edge-of_includes approve draft h = approve_draft
Edge-of_includes approve rejected h = approve_rejected
Edge-of_includes reject review h = refused
Edge-of_includes unpublish published h = unpublished
Edge-of_includes _ _ h = cc

pub includes_of_Edge :
    {a : Action} {s t : Status}
    → Edge a s t
    → (includes (transitions a).from s ≡ true) × ((transitions a).to ≡ t)
includes_of_Edge submit_draft = (refl, refl)
includes_of_Edge submit_again = (refl, refl)
includes_of_Edge withdrawn = (refl, refl)
includes_of_Edge approved = (refl, refl)
includes_of_Edge approve_draft = (refl, refl)
includes_of_Edge approve_rejected = (refl, refl)
includes_of_Edge refused = (refl, refl)
includes_of_Edge unpublished = (refl, refl)
