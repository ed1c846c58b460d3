-- ===== src/Auth/Laws.antt =====
-- Who may do what, as relations.
use virtual_lab.Prelude.{ℕ, Option, some, none, true, ◌≡◌, refl, ◌↔◌, arith}
use virtual_lab.Db.Rows.{Role, author, moderator}
use virtual_lab.Auth.{Principal, owns, can_edit_scenario}

-- Moderators edit any scenario; an author edits only the ones that their key owns.
pub data MayEdit (p : Principal) (owner : Option ℕ) : Type 0 where
  as_moderator : p.role ≡ moderator → MayEdit p owner
  as_owner : (key : ℕ) → p.key_id ≡ some key → owner ≡ some key → MayEdit p owner

owns-MayEdit : (p : Principal) (k o : Option ℕ) → p.key_id ≡ k → owns k o ≡ true → MayEdit p o
owns-MayEdit p none o e h = cc
owns-MayEdit p (some key) none e h = cc
owns-MayEdit p (some key) (some owner) e h = as_owner key e (ground arith)

can_edit-MayEdit :
    (p : Principal) (r : Role) (o : Option ℕ)
    → p.role ≡ r
    → can_edit_scenario p o ≡ true
    → MayEdit p o
unfolding can_edit_scenario
can_edit-MayEdit p moderator o e h = as_moderator e
can_edit-MayEdit p author o e h = owns-MayEdit p p.key_id o refl (ground arith)

MayEdit-can_edit : {p : Principal} {o : Option ℕ} → MayEdit p o → can_edit_scenario p o ≡ true
unfolding can_edit_scenario
MayEdit-can_edit (as_moderator e) = ground arith
MayEdit-can_edit (as_owner key e f) = ground arith

-- `canEditScenario` answers true exactly for a moderator and for the key that owns the row; a row
-- without an owner is a moderator's only, and so is every row for the bootstrap, which has no key.
pub can_edit_scenario_iff :
    (p : Principal) (owner : Option ℕ) → (can_edit_scenario p owner ≡ true) ↔ MayEdit p owner
can_edit_scenario_iff p owner = (can_edit-MayEdit p p.role owner refl, MayEdit-can_edit)
