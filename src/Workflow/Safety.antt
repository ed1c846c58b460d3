-- ===== src/Workflow/Safety.antt =====
-- What no sequence of moves can do.
use virtual_lab.Prelude.{
  ℕ, true, Option, some, ◌≡◌, ◌≢◌, refl, Bool-cases, subst, subst⁻¹, ap, inl, inr,
}
use virtual_lab.JsText.{JsText, text_eq}
use virtual_lab.JsText.Laws.{text_eq_iff}
use virtual_lab.Db.Rows.{Db, Scenario, Status, published, author, moderator}
use virtual_lab.Db.Tx.{ok}
use virtual_lab.Db.Find.{find_scenario}
use virtual_lab.Auth.{Principal}
use virtual_lab.Workflow.{
  Action, approve, unpublish, transitions, Moved, apply_transition, has_current,
}
use virtual_lab.Workflow.Permitted.{MayTake, Permitted, Permitted_of_ok}
use virtual_lab.Workflow.Effect.{Effect, apply_transition_effect}
use virtual_lab.Workflow.Diagram.{Edge}

-- Every published scenario has a current archive, so that students always get something.
abbrev pub IsServed : Db → Type 0
IsServed db =
    (id : JsText) (s : Scenario)
    → find_scenario id db.scenarios ≡ some s
    → s.status ≡ published
    → has_current id db.versions ≡ true

-- Only `approve` leads to `published`, and only `unpublish` leads away from it.
Edge-to_published : {a : Action} {s t : Status} → Edge a s t → t ≡ published → a ≡ approve
Edge-to_published Edge.approved h = refl
Edge-to_published Edge.approve_draft h = refl
Edge-to_published Edge.approve_rejected h = refl
Edge-to_published _ h = cc

Edge-from_published : {a : Action} {s t : Status} → Edge a s t → s ≡ published → a ≡ unpublish
Edge-from_published Edge.unpublished h = refl
Edge-from_published _ h = cc

approve-moderator :
    (a : Action) (p : Principal) (owner : Option ℕ)
    → a ≡ approve
    → MayTake (transitions a).by p owner
    → p.role ≡ moderator
approve-moderator a p owner e =
    subst⁻¹ (λ b. MayTake (transitions b).by p owner → p.role ≡ moderator) e (λ h. h)

unpublish-moderator :
    (a : Action) (p : Principal) (owner : Option ℕ)
    → a ≡ unpublish
    → MayTake (transitions a).by p owner
    → p.role ≡ moderator
unpublish-moderator a p owner e =
    subst⁻¹ (λ b. MayTake (transitions b).by p owner → p.role ≡ moderator) e (λ h. h)

module _ (p : Principal) (id : JsText) (a : Action) (note : Option JsText) (db : Db) where
  -- An author, owner or not, never publishes a scenario and never takes one off the catalog.
  pub author_never_publishes :
      (m : Moved) (db' : Db)
      → p.role ≡ author
      → apply_transition p id a note db ≡ ok (m, db')
      → (m.status ≢ published) × (m.from ≢ published)
  author_never_publishes m db' h e =
      let (f, _, from, to, _, _) = apply_transition_effect p id a note db m db' e in
      let c = Permitted_of_ok p id a note db (m, db') e in
      (
        λ s. cc (h, approve-moderator a p c.row.owner_key_id (Edge-to_published f.edge (cc)) c.may),
        λ s.
            cc (
              h,
              unpublish-moderator a p c.row.owner_key_id (Edge-from_published f.edge (cc)) c.may,
            ),
      )

  served_row :
      (db' : Db) (f : Effect p id a note db db')
      → Permitted p id a note db
      → f.row.status ≡ published
      → has_current id db'.versions ≡ true
  served_row db' f c s =
      let e = Edge-to_published f.edge s in
      rw f.same_versions (c.archive (ap (λ b. (transitions b).needs_version) e))

  -- No move leaves a published scenario without a current archive, of this scenario or another.
  pub apply_transition-IsServed :
      (m : Moved) (db' : Db)
      → IsServed db
      → apply_transition p id a note db ≡ ok (m, db')
      → IsServed db'
  apply_transition-IsServed m db' served e j s found status =
      let f = (apply_transition_effect p id a note db m db' e).0 in
      elim (Bool-cases (text_eq id j)) [
        | inl same ↦
            let here : id ≡ j = (text_eq_iff id j).0 same in
            subst (λ k. has_current k db'.versions ≡ true) here
              (served_row db' f (Permitted_of_ok p id a note db (m, db') e)
                (cc (here, found, f.found_after, status)))
        | inr other ↦ rw f.same_versions (served j s (rw (f.others j other) at found) status)
      ]
