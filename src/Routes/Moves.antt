-- ===== src/Routes/Moves.antt =====
-- What the five routes of backend/routes/workflow.js answer, and what they leave.
use virtual_lab.Prelude.{
  ℕ, true, Option, some, none, ◌≡◌, ◌⊎◌, ◌↔◌, inl, inr, refl, arith, ◌∙◌, subst, subst⁻¹, ap,
}
use virtual_lab.JsText.{JsText}
use virtual_lab.HttpError.{Described, describe_error}
use virtual_lab.Db.Rows.{Db, Role, author, moderator, published, status_eq}
use virtual_lab.Db.Tx.{in_transaction}
use virtual_lab.Db.Laws.{Result-cases}
use virtual_lab.Auth.{Principal, require_role}
use virtual_lab.Workflow.{
  Action, submit, withdraw, approve, reject, unpublish, apply_transition, RawNote, Parsed, value,
  error, parse_reject_note, has_current, transitions,
}
use virtual_lab.Workflow.Permitted.{
  MayTake, Permitted, Permitted_of_ok, ok_of_Permitted, after, answer,
}
use virtual_lab.Workflow.Refused.{
  Refusal, missing, forbidden, no_arrow, nothing_to_show, apply_transition_refused,
}
use virtual_lab.Routes.{sent, failed}
use virtual_lab.Routes.Workflow.{MovedBody, moved_body, move, post_action}

-- A bad request, no right, not found, or a conflict.
abbrev pub IsRefusal : ℕ → Type 0
IsRefusal n = (n ≡ 400) ⊎ ((n ≡ 403) ⊎ ((n ≡ 404) ⊎ (n ≡ 409)))

pub author_passes : (p : Principal) → require_role author (some p) ≡ none
unfolding require_role
author_passes p = go p.role p.key_id p.label
  where
    go :
        (r : Role) (k : Option ℕ) (l : JsText)
        → require_role author (some (record { role = r; key_id = k; label = l })) ≡ none
    go author k l = refl
    go moderator k l = refl

Refusal-status :
    {p : Principal} {id : JsText} {a : Action} {note : Option JsText} {db : Db} {n : ℕ}
    → Refusal p id a note db n
    → IsRefusal n
Refusal-status (missing _) = inr (inr (inl refl))
Refusal-status (forbidden _ _ _) = inr (inl refl)
Refusal-status (no_arrow _ _ _) = inr (inr (inr refl))
Refusal-status (nothing_to_show _ _) = inr (inr (inr refl))

module _ (p : Principal) (id : JsText) (a : Action) (db : Db) where
  move-cases :
      (note : Option JsText)
      → ((c : Permitted p id a note db) × (move p id a note db
            ≡ (sent 200 (moved_body (answer p id a note db c.row)), after p id a note db c.row)))
        ⊎ ((d : Described) × (move p id a note db ≡ (failed d, db)) × IsRefusal d.status)
  unfolding move in_transaction
  move-cases note = elim (Result-cases (apply_transition p id a note db)) [
    | inl (r, e) ↦
        let c = Permitted_of_ok p id a note db r e in
        inl (c, ground (arith, ok_of_Permitted p id a note db c))
    | inr (e, h) ↦ inr (
      describe_error e,
      ground arith,
      Refusal-status (apply_transition_refused p id a note db e h),
    )
  ]

-- Past the gate, a route is its move, or a 400 for the note of a rejection.
post_action-move :
    (p : Principal) (id : JsText) (a : Action) (raw : RawNote) (db : Db)
    → ((note : Option JsText) × (post_action p id a raw db ≡ move p id a note db))
      ⊎ ((d : Described) × (post_action p id a raw db ≡ (failed d, db)) × (d.status ≡ 400))
unfolding post_action
post_action-move p id submit raw db = inl (none, ground (arith, author_passes p))
post_action-move p id withdraw raw db = inl (none, ground (arith, author_passes p))
post_action-move p id approve raw db = inl (none, ground (arith, author_passes p))
post_action-move p id unpublish raw db = inl (none, ground (arith, author_passes p))
post_action-move p id reject raw db = elim (Parsed-cases (parse_reject_note raw)) [
  | inl (text, e) ↦ inl (some text, ground (arith, author_passes p))
  | inr (text, e) ↦
      inr (record { status = 400; message = text }, ground (arith, author_passes p), refl)
]
  where
    Parsed-cases : (q : Parsed) → ((t : JsText) × (q ≡ value t)) ⊎ ((t : JsText) × (q ≡ error t))
    Parsed-cases (value t) = inl (t, refl)
    Parsed-cases (error t) = inr (t, refl)

published_iff : (a : Action) → (status_eq (transitions a).to published ≡ true) ↔ (a ≡ approve)
published_iff submit = (λ h. cc, λ h. cc)
published_iff withdraw = (λ h. cc, λ h. cc)
published_iff approve = (λ h. refl, λ h. refl)
published_iff reject = (λ h. cc, λ h. cc)
published_iff unpublish = (λ h. cc, λ h. cc)

needs : (a : Action) → a ≡ approve → (transitions a).needs_version ≡ true
needs a e = ap (λ b. (transitions b).needs_version) e

approver :
    (a : Action) (p : Principal) (owner : Option ℕ)
    → a ≡ approve
    → MayTake (transitions a).by p owner
    → p.role ≡ moderator
approver a p owner e =
    subst⁻¹ (λ b. MayTake (transitions b).by p owner → p.role ≡ moderator) e (λ h. h)

module _ (p : Principal) (id : JsText) (a : Action) (raw : RawNote) (db : Db) where
  pub answers :
      ((note : Option JsText) × (c : Permitted p id a note db) × (post_action p id a raw db
          ≡ (sent 200 (moved_body (answer p id a note db c.row)), after p id a note db c.row)))
      ⊎ ((d : Described) × (post_action p id a raw db ≡ (failed d, db)) × IsRefusal d.status)
  answers = elim (post_action-move p id a raw db) [
    | inl (note, e) ↦ elim (move-cases p id a db note) [
      | inl (c, m) ↦ inl (note, c, e ∙ m)
      | inr (d, m, st) ↦ inr (d, e ∙ m, st)
    ]
    | inr (d, e, st) ↦ inr (d, e, inl st)
  ]

  -- A route that does not make its move answers 400, 403, 404 or 409, never 500, and every table is
  -- as it was: no half of a move is committed.
  pub post_action_failed :
      (d : Described) (db' : Db)
      → post_action p id a raw db ≡ (failed d, db')
      → (db' ≡ db) × IsRefusal d.status
  post_action_failed d db' h = elim answers [
    | inl (_, c, e) ↦ cc
    | inr (d', e, st) ↦ (cc, subst IsRefusal (cc) st)
  ]

  -- A route that makes its move answers 200; it says `isPublished` exactly for an approval, which
  -- only a moderator makes, and of a scenario with a current archive.
  pub post_action_sent :
      (n : ℕ) (b : MovedBody) (db' : Db)
      → post_action p id a raw db ≡ (sent n b, db')
      → (n ≡ 200)
        × ((b.is_published ≡ true) ↔ (a ≡ approve))
        × (a ≡ approve → (p.role ≡ moderator) × (has_current id db'.versions ≡ true))
  post_action_sent n b db' h = elim answers [
    | inl (given, c, e) ↦ (
      cc,
      (λ pubd. (published_iff a).0 (ground arith), λ ap. ground (arith, (published_iff a).1 ap)),
      λ approved. (
        approver a p c.row.owner_key_id approved c.may,
        ground (arith, c.archive (ground (arith, needs a approved))),
      ),
    )
    | inr (d, e, st) ↦ cc
  ]
