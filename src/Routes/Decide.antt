-- ===== src/Routes/Decide.antt =====
-- Accept, reject and restore in backend/routes/versions.js: what they change, and when they refuse.
use virtual_lab.Prelude.{
  true, false, not, some, none, ◌++◌, ◌≡◌, ◌⊎◌, inl, inr, arith, sym, find, Bool-cases,
  Option-cases, subst, if◌then◌else◌,
}
use virtual_lab.Prelude.Search.{find_holds}
use virtual_lab.JsText.{JsText, utf16, number_of}
use virtual_lab.Db.Rows.{Db, Scenario, Version, state_eq}
use virtual_lab.Db.Tx.{ok, throw, ◌>>◌}
use virtual_lab.Db.Find.{find_scenario, update_scenario}
use virtual_lab.Auth.{Principal}
use virtual_lab.Audit.{record_event}
use virtual_lab.Workflow.{no_scenario}
use virtual_lab.Versions.{
  is_version, is_version_id, get_version_by_param, get_version, mark_current, archive_current,
  delete_version, no_version, shown,
}
use virtual_lab.Versions.Promote.{pointed}
use virtual_lab.Routes.Versions.{
  Decision, accept, reject, restore, decision_name, wanted, wrong_state, run, decide_work,
  lock_scenario, details,
}

-- The tables after a decision, but for the journal.
abbrev pub decided : Decision → JsText → Version → Db → Db
decided accept id v db = record db {
  versions = mark_current v.id (archive_current id db.versions);
  scenarios = update_scenario id (pointed v db.now) db.scenarios;
}
decided reject id v db = record db { versions = delete_version v.id db.versions }
decided restore id v db = record db {
  versions = mark_current v.id (archive_current id db.versions);
  scenarios = update_scenario id (pointed v db.now) db.scenarios;
}

module _ (p : Principal) (id raw : JsText) (db : Db) where
  -- The version that the path names, of a scenario that exists.
  pub record Named : Type 0 where
    pub scenario : Scenario
    pub locked : find_scenario id db.scenarios ≡ some scenario
    pub well_formed : is_version_id raw ≡ true
    pub row : Version
    pub found : find (is_version id row.id) db.versions ≡ some row
    pub named : row.id ≡ number_of raw

  pub named-cases :
      Named
      ⊎ ((find_scenario id db.scenarios ≡ none)
          ⊎ ((is_version_id raw ≡ false)
              ⊎ (find (is_version id (number_of raw)) db.versions ≡ none)))
  named-cases = elim (Option-cases (find_scenario id db.scenarios)) [
    | inl no_row ↦ inr (inl no_row)
    | inr (s, locked) ↦ elim (Bool-cases (is_version_id raw)) [
      | inr bad ↦ inr (inr (inl bad))
      | inl good ↦ elim (Option-cases (find (is_version id (number_of raw)) db.versions)) [
        | inl no_row ↦ inr (inr (inr no_row))
        | inr (v, e) ↦
            let same : v.id ≡ number_of raw =
              ground (arith, find_holds (is_version id (number_of raw)) db.versions v e) in
            inl (record {
              scenario = s;
              locked = locked;
              well_formed = good;
              row = v;
              found = subst (λ k. find (is_version id k) db.versions ≡ some v) (sym same) e;
              named = same;
            })
      ]
    ]
  ]

  pub get_named : (n : Named) → get_version_by_param id raw db ≡ ok (shown db.keys n.row, db)
  unfolding get_version_by_param get_version
  get_named n = ground (
    arith,
    subst (λ k. find (is_version id k) db.versions ≡ some n.row) n.named n.found,
    n.well_formed,
  )

  module _ (dec : Decision) where
    pub decide_named :
        (n : Named)
        → decide_work p id raw dec db ≡ (
            if not (state_eq n.row.state (wanted dec))
            then throw (wrong_state dec)
            else (run dec id n.row
                  >> record_event p
                      (utf16 "version." ++ decision_name dec)
                      (some id)
                      (details n.row))
                db)
    unfolding decide_work lock_scenario shown
    decide_named n = ground (arith, get_named n, n.locked)

    pub decide_nameless :
        (find_scenario id db.scenarios ≡ none)
          ⊎ ((is_version_id raw ≡ false)
              ⊎ (find (is_version id (number_of raw)) db.versions ≡ none))
        → (decide_work p id raw dec db ≡ throw no_scenario)
          ⊎ (decide_work p id raw dec db ≡ throw no_version)
    unfolding decide_work lock_scenario get_version_by_param get_version
    decide_nameless (inl h) = inl (ground arith)
    decide_nameless (inr (inl h)) = elim (Option-cases (find_scenario id db.scenarios)) [
      | inl no_row ↦ inl (ground arith)
      | inr (s, e) ↦ inr (ground arith)
    ]
    decide_nameless (inr (inr h)) = elim (Option-cases (find_scenario id db.scenarios)) [
      | inl no_row ↦ inl (ground arith)
      | inr (s, e) ↦ inr (ground arith)
    ]
