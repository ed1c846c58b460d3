-- ===== src/Routes/Delete.antt =====
-- DELETE /api/scenarios/:id/versions/:vid in backend/routes/versions.js.
use virtual_lab.Prelude.{
  ℕ, sym, subst, true, false, not, ◌&&◌, some, none, ◌≡◌, ◌≢◌, ◌⊎◌, inl, inr, refl, arith, find,
  Bool-cases, Option-cases, if◌then◌else◌,
}
use virtual_lab.JsText.{JsText, utf16, number_of}
use virtual_lab.HttpError.{Failure, Described, describe_error}
use virtual_lab.Db.Rows.{
  Db, Scenario, Version, current, archived, state_eq, Role, author, moderator,
}
use virtual_lab.Db.Tx.{ok, throw, in_transaction}
use virtual_lab.Db.Find.{find_scenario, add_event}
use virtual_lab.Auth.{Principal, can_edit_scenario, is_moderator}
use virtual_lab.Auth.Laws.{MayEdit, can_edit_scenario_iff}
use virtual_lab.Audit.{event, record_event}
use virtual_lab.Workflow.{no_scenario}
use virtual_lab.Versions.{
  is_version, is_version_id, get_version_by_param, get_version, delete_version, no_version, shown,
  remove_version,
}
use virtual_lab.Routes.{sent, failed}
use virtual_lab.Routes.Moves.{author_passes}
use virtual_lab.Routes.Decided.{state_eq-≡}
use virtual_lab.Routes.Versions.{
  delete_work, delete, lock_scenario, details, is_current, not_yours, not_enough,
}
use virtual_lab.Routes.Decide.{Named, named-cases, get_named}

not_yours_status : (describe_error not_yours).status ≡ 403
unfolding describe_error not_yours
not_yours_status = refl

not_enough_status : (describe_error not_enough).status ≡ 403
unfolding describe_error not_enough
not_enough_status = refl

is_current_status : (describe_error is_current).status ≡ 409
unfolding describe_error is_current
is_current_status = refl

missing_status :
    ((describe_error no_scenario).status ≡ 404) × ((describe_error no_version).status ≡ 404)
unfolding describe_error no_scenario no_version
missing_status = (refl, refl)

moderates : (r : Role) → is_moderator r ≡ true → r ≡ moderator
moderates moderator h = refl
moderates author h = cc

authors : (r : Role) → is_moderator r ≡ false → r ≡ author
authors author h = refl
authors moderator h = cc

module _ (p : Principal) (id raw : JsText) (db : Db) where
  -- The tables after a version was deleted.
  abbrev pub removed : Version → Db
  removed v =
      add_event (event p (utf16 "version.delete") (some id) (details v))
        (record db { versions = delete_version v.id db.versions })

  delete_named :
      (n : Named p id raw db)
      → delete_work p id raw db ≡ (
          if not (can_edit_scenario p n.scenario.owner_key_id)
          then throw not_yours
          else if state_eq n.row.state current
          then throw is_current
          else if state_eq n.row.state archived && not (is_moderator p.role)
          then throw not_enough
          else ok (tt, removed n.row))
  unfolding delete_work lock_scenario remove_version record_event shown
  delete_named n = ground (arith, get_named p id raw db n, n.locked)

  -- What a deletion asks of the principal and the version.
  pub record IsDeletable (n : Named p id raw db) : Type 0 where
    pub may : MayEdit p n.scenario.owner_key_id
    pub not_live : n.row.state ≢ current
    pub history : n.row.state ≡ archived → p.role ≡ moderator

  -- Why a deletion is refused, and the status of the answer.
  pub data DeleteRefusal : ℕ → Type 0 where
    no_row : find_scenario id db.scenarios ≡ none → DeleteRefusal 404
    stranger :
        (s : Scenario)
        → find_scenario id db.scenarios ≡ some s
        → ¬ MayEdit p s.owner_key_id
        → DeleteRefusal 403
    no_such_version :
        (is_version_id raw ≡ false) ⊎ (find (is_version id (number_of raw)) db.versions ≡ none)
        → DeleteRefusal 404
    live : (n : Named p id raw db) → n.row.state ≡ current → DeleteRefusal 409
    history_of_author :
        (n : Named p id raw db) → n.row.state ≡ archived → p.role ≡ author → DeleteRefusal 403

  -- A version that is not named, by the error and its cause.
  nameless-cases :
      (find_scenario id db.scenarios ≡ none)
        ⊎ ((is_version_id raw ≡ false) ⊎ (find (is_version id (number_of raw)) db.versions ≡ none))
      → (e : Failure) × (delete_work p id raw db ≡ throw e)
        × DeleteRefusal (describe_error e).status
  unfolding delete_work lock_scenario get_version_by_param get_version
  nameless-cases why = elim (Option-cases (find_scenario id db.scenarios)) [
    | inl none_such ↦
        (no_scenario, ground arith, subst DeleteRefusal (sym missing_status.0) (no_row none_such))
    | inr (s, e) ↦ elim (Bool-cases (can_edit_scenario p s.owner_key_id)) [
      | inr other ↦ (
        not_yours,
        ground arith,
        subst DeleteRefusal (sym not_yours_status)
            (stranger s e (λ m. ground (arith, (can_edit_scenario_iff p s.owner_key_id).1 m))),
      )
      | inl owner ↦ elim why [
        | inl missing ↦ absurd (ground arith)
        | inr cause ↦ (
          no_version,
          elim cause [ inl bad ↦ ground arith | inr absent ↦ ground arith ],
          subst DeleteRefusal (sym missing_status.1) (no_such_version cause),
        )
      ]
    ]
  ]

  work-cases :
      ((n : Named p id raw db) × IsDeletable n × (delete_work p id raw db ≡ ok (tt, removed n.row)))
      ⊎ ((e : Failure) × (delete_work p id raw db ≡ throw e)
          × DeleteRefusal (describe_error e).status)
  work-cases = elim (named-cases p id raw db) [
    | inr why ↦ inr (nameless-cases why)
    | inl n ↦ elim (Bool-cases (can_edit_scenario p n.scenario.owner_key_id)) [
      | inr h ↦ inr (
        not_yours,
        ground (arith, delete_named n),
        subst DeleteRefusal (sym not_yours_status) (
            stranger n.scenario n.locked
              (λ m. ground (arith, (can_edit_scenario_iff p n.scenario.owner_key_id).1 m))),
      )
      | inl may ↦ elim (Bool-cases (state_eq n.row.state current)) [
        | inl h ↦ inr (
          is_current,
          ground (arith, delete_named n),
          subst DeleteRefusal (sym is_current_status) (live n (state_eq-≡ n.row.state current h)),
        )
        | inr not_live ↦
            elim (Bool-cases (state_eq n.row.state archived && not (is_moderator p.role))) [
              | inl h ↦ inr (
                not_enough,
                ground (arith, delete_named n),
                subst DeleteRefusal (sym not_enough_status) (
                    history_of_author n (state_eq-≡ n.row.state archived (ground arith))
                      (authors p.role (ground arith))),
              )
              | inr allowed ↦ inl (
                n,
                record {
                  may = (can_edit_scenario_iff p n.scenario.owner_key_id).0 may;
                  not_live = λ h. ground arith;
                  history = λ h. moderates p.role (ground arith);
                },
                ground (arith, delete_named n),
              )
            ]
      ]
    ]
  ]

  -- Either the named version is deleted, and then the principal may edit the scenario, the version is
  -- not current and, where it is archived, the principal is a moderator; or no table changes and the
  -- answer has one of these causes: 404 where the scenario or the version is not there, 403 for who may
  -- not edit the scenario and for an author on an archived version, 409 for the current version. So each
  -- version that the principal may delete is deleted.
  pub delete-cases :
      ((n : Named p id raw db) × IsDeletable n
        × (delete p id raw db ≡ (sent 200 (id, number_of raw), removed n.row)))
      ⊎ ((d : Described) × (delete p id raw db ≡ (failed d, db)) × DeleteRefusal d.status)
  unfolding delete in_transaction
  delete-cases = elim work-cases [
    | inl (n, h, e) ↦ inl (n, h, ground (arith, author_passes p))
    | inr (e, h, st) ↦ inr (describe_error e, ground (arith, author_passes p), st)
  ]
