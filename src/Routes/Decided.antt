-- ===== src/Routes/Decided.antt =====
-- What a decision on a version changes, and how it is refused.
use virtual_lab.Prelude.{
  ℕ, true, false, some, none, sym, subst, ◌++◌, ◌≡◌, ◌≢◌, ◌⊎◌, inl, inr, refl, arith, find,
  Bool-cases,
}
use virtual_lab.JsText.{JsText, utf16, number_of}
use virtual_lab.HttpError.{Failure, http_error, Described, describe_error}
use virtual_lab.Db.Rows.{
  Db, Version, VersionState, current, pending, archived, state_eq, moderator, author, Role, Event,
}
use virtual_lab.Db.Tx.{ok, throw, in_transaction}
use virtual_lab.Db.Find.{find_scenario, add_event}
use virtual_lab.Db.Laws.{bind_of_ok, state_eq_refl}
use virtual_lab.Auth.{Principal, require_role}
use virtual_lab.Audit.{event, record_event}
use virtual_lab.Workflow.{no_scenario}
use virtual_lab.Versions.{is_version_id, is_version, remove_version, no_version}
use virtual_lab.Versions.Invariant.{IsSound, delete_version-IsSound}
use virtual_lab.Versions.Promote.{promote_ok, promote-IsSound}
use virtual_lab.Serving.{IsKept, promoted-IsKept, delete_version-IsKept}
use virtual_lab.Routes.{sent, failed}
use virtual_lab.Routes.Versions.{
  Decision, accept, reject, restore, decision_name, wanted, wrong_state, run, decide_work, decide,
  details,
}
use virtual_lab.Routes.Decide.{decided, Named, named-cases, decide_named, decide_nameless}

pub IsSound-add_event : (db : Db) (e : Event) → IsSound db → IsSound (add_event e db)
IsSound-add_event db e s = record {
  one_current = s.one_current;
  one_pending = s.one_pending;
  one_id = s.one_id;
  fresh = s.fresh;
  capped = s.capped;
  mirrored = s.mirrored;
}

pub IsKept-add_event : (db db' : Db) (e : Event) → IsKept db db' → IsKept db (add_event e db')
IsKept-add_event db db' e k = record {
  published_before = k.published_before;
  current_after = k.current_after;
}

-- The state of a version that a decision is about: a proposal is accepted or rejected, an archived
-- version is restored.
pub data Awaits : Decision → VersionState → Type 0 where
  accepted : Awaits accept pending
  rejected : Awaits reject pending
  restored : Awaits restore archived

Awaits-wanted : (dec : Decision) → Awaits dec (wanted dec)
Awaits-wanted accept = accepted
Awaits-wanted reject = rejected
Awaits-wanted restore = restored

wanted_of : (dec : Decision) (st : VersionState) → Awaits dec st → st ≡ wanted dec
wanted_of accept _ accepted = refl
wanted_of reject _ rejected = refl
wanted_of restore _ restored = refl

not_current : (dec : Decision) (st : VersionState) → st ≡ wanted dec → st ≢ current
not_current accept st e h = cc
not_current reject st e h = cc
not_current restore st e h = cc

module _ (db : Db) (sound : IsSound db) (id : JsText) (v : Version)
    (found : find (is_version id v.id) db.versions ≡ some v) where
  run_ok : (dec : Decision) → v.state ≡ wanted dec → run dec id v db ≡ ok (tt, decided dec id v db)
  unfolding remove_version
  run_ok accept h = promote_ok db sound id v found (not_current accept v.state h)
  run_ok reject h = refl
  run_ok restore h = promote_ok db sound id v found (not_current restore v.state h)

  pub decided-IsSound : (dec : Decision) → Awaits dec v.state → IsSound (decided dec id v db)
  decided-IsSound accept h =
      promote-IsSound db sound id v found (not_current accept v.state (wanted_of _ v.state h))
  decided-IsSound reject h =
      delete_version-IsSound db sound id v.id v found
        (not_current reject v.state (wanted_of _ v.state h))
  decided-IsSound restore h =
      promote-IsSound db sound id v found (not_current restore v.state (wanted_of _ v.state h))

  pub decided-IsKept : (dec : Decision) → Awaits dec v.state → IsKept db (decided dec id v db)
  decided-IsKept accept h =
      promoted-IsKept db sound id v found (not_current accept v.state (wanted_of _ v.state h))
  decided-IsKept reject h =
      delete_version-IsKept db sound id v found (not_current reject v.state (wanted_of _ v.state h))
  decided-IsKept restore h =
      promoted-IsKept db sound id v found (not_current restore v.state (wanted_of _ v.state h))

no_scenario_status : (describe_error no_scenario).status ≡ 404
unfolding describe_error no_scenario
no_scenario_status = refl

no_version_status : (describe_error no_version).status ≡ 404
unfolding describe_error no_version
no_version_status = refl

wrong_state_status : (dec : Decision) → (describe_error (wrong_state dec)).status ≡ 409
unfolding describe_error wrong_state
wrong_state_status accept = refl
wrong_state_status reject = refl
wrong_state_status restore = refl

gate-cases :
    (p : Principal)
    → ((p.role ≡ moderator) × (require_role moderator (some p) ≡ none))
      ⊎ ((e : Failure) × (require_role moderator (some p) ≡ some e)
          × ((describe_error e).status ≡ 403)
          × (p.role ≡ author))
unfolding require_role describe_error
gate-cases p = go p.role refl
  where
    go :
        (r : Role)
        → p.role ≡ r
        → ((p.role ≡ moderator) × (require_role moderator (some p) ≡ none))
          ⊎ ((e : Failure) × (require_role moderator (some p) ≡ some e)
              × ((describe_error e).status ≡ 403)
              × (p.role ≡ author))
    go author h = inr (http_error 403 (utf16 "Недостатньо прав"), ground arith, refl, h)
    go moderator h = inl (h, ground arith)

pub state_eq-≡ : (st t : VersionState) → state_eq st t ≡ true → st ≡ t
state_eq-≡ current current h = refl
state_eq-≡ pending pending h = refl
state_eq-≡ archived archived h = refl
state_eq-≡ _ _ h = cc

module _ (p : Principal) (id raw : JsText) (dec : Decision) (db : Db) (sound : IsSound db) where
  -- Why a decision is refused, and the status of the answer.
  pub data DecideRefusal : ℕ → Type 0 where
    not_moderator : p.role ≡ author → DecideRefusal 403
    nameless :
        (find_scenario id db.scenarios ≡ none)
          ⊎ ((is_version_id raw ≡ false)
              ⊎ (find (is_version id (number_of raw)) db.versions ≡ none))
        → DecideRefusal 404
    other_state : (n : Named p id raw db) → ¬ Awaits dec n.row.state → DecideRefusal 409

  -- The tables after a decision that was made.
  abbrev pub decided_journaled : Version → Db
  decided_journaled v =
      add_event (event p (utf16 "version." ++ decision_name dec) (some id) (details v))
        (decided dec id v db)

  work_ok :
      (n : Named p id raw db)
      → n.row.state ≡ wanted dec
      → decide_work p id raw dec db ≡ ok (tt, decided_journaled n.row)
  unfolding record_event
  work_ok n h = ground (
    arith,
    decide_named p id raw db dec n,
    state_eq_refl (wanted dec),
    bind_of_ok (run dec id n.row)
        (λ _. record_event p (utf16 "version." ++ decision_name dec) (some id) (details n.row)) db
        (run_ok db sound id n.row n.found dec h),
  )

  work-cases :
      ((n : Named p id raw db) × Awaits dec n.row.state
        × (decide_work p id raw dec db ≡ ok (tt, decided_journaled n.row)))
      ⊎ ((e : Failure) × (decide_work p id raw dec db ≡ throw e)
          × DecideRefusal (describe_error e).status)
  work-cases = elim (named-cases p id raw db) [
    | inr why ↦ elim (decide_nameless p id raw db dec why) [
      | inl e ↦ inr (no_scenario, e, subst DecideRefusal (sym no_scenario_status) (nameless why))
      | inr e ↦ inr (no_version, e, subst DecideRefusal (sym no_version_status) (nameless why))
    ]
    | inl n ↦ elim (Bool-cases (state_eq n.row.state (wanted dec))) [
      | inl h ↦
          let e = state_eq-≡ n.row.state (wanted dec) h in
          inl (n, subst (Awaits dec) (sym e) (Awaits-wanted dec), work_ok n e)
      | inr h ↦ inr (
        wrong_state dec,
        ground (arith, decide_named p id raw db dec n),
        subst DecideRefusal (sym (wrong_state_status dec)) (
            other_state n
              (λ w. ground (arith, wanted_of dec n.row.state w, state_eq_refl (wanted dec)))),
      )
    ]
  ]

  -- Where the history is sound, a moderator's decision is made on a version of the scenario in the state
  -- that it is about. Every other is refused and no table changes: 403 for an author, 404 where the
  -- scenario or the version is not there, 409 for a version in another state. The unique index is never
  -- met.
  pub decide-cases :
      ((n : Named p id raw db) × (p.role ≡ moderator)
        × Awaits dec n.row.state
        × (decide p id raw dec db ≡ (sent 200 (id, number_of raw), decided_journaled n.row)))
      ⊎ ((d : Described) × (decide p id raw dec db ≡ (failed d, db)) × DecideRefusal d.status)
  unfolding decide in_transaction
  decide-cases = elim (gate-cases p) [
    | inr (e, stopped, st, by_author) ↦
        inr (describe_error e, ground arith, subst DecideRefusal (sym st) (not_moderator by_author))
    | inl (role, passed) ↦ elim work-cases [
      | inl (n, h, e) ↦ inl (n, role, h, ground arith)
      | inr (e, h, st) ↦ inr (describe_error e, ground arith, st)
    ]
  ]
