-- ===== src/Versions/Promote.antt =====
-- Accepting a pending version and restoring an archived one.
use virtual_lab.Prelude.{
  ℕ, ◌≤◌, ◌<◌, true, false, not, some, ◌≡◌, ◌≢◌, refl, sym, ◌∙◌, arith, find, count_if, Bool-cases,
  inl, inr, ◌==◌,
}
use virtual_lab.Prelude.Search.{
  find_weaker, find_holds, any_of_count_zero, count_zero_of_All, All-mono, count_mono,
}
use virtual_lab.JsText.{JsText, text_eq}
use virtual_lab.JsText.Laws.{text_eq_iff, text_eq_refl}
use virtual_lab.Db.Rows.{Db, Scenario, Version, current}
use virtual_lab.Db.Tx.{ok}
use virtual_lab.Db.Find.{find_scenario, update_scenario, is_at}
use virtual_lab.Db.Laws.{find-update_self, find-update_ne}
use virtual_lab.Versions.{
  is_version, archive_of, archive_current, mark_current, set_current, point_scenario_at, promote,
}
use virtual_lab.Versions.Lists.{
  count-archive_current, count_pending-archive_current, count_id-archive_current,
  count_scenario-archive_current, find-archive_current, All-id-archive_current,
  find_id-archive_current, find_version-archive_current, count_version-archive_current,
  count-mark_current-le, count_pending-mark_current-le, count_id-mark_current,
  count_scenario-mark_current, find-mark_current_ne, find-mark_current, All-id-mark_current,
}
use virtual_lab.Versions.Invariant.{IsSound, only_row}

-- The catalog row after `pointScenarioAt`.
abbrev pub pointed : Version → ℕ → Scenario → Scenario
pointed v now s = record s { archive = archive_of v; updated_at = now }

module _ (db : Db) (sound : IsSound db) (id : JsText) (v : Version)
    (found : find (is_version id v.id) db.versions ≡ some v) (other : v.state ≢ current) where
  abbrev pub promoted : Db
  promoted = record db {
    versions = mark_current v.id (archive_current id db.versions);
    scenarios = update_scenario id (pointed v db.now) db.scenarios;
  }

  at_id : text_eq v.scenario_id id ≡ true
  at_id = ground (arith, find_holds (is_version id v.id) db.versions v found)

  none_current : count_if (is_at v.scenario_id current) (archive_current id db.versions) ≡ 0
  none_current = ground (
    arith,
    count-archive_current id v.scenario_id db.versions,
    at_id,
    text_eq_iff v.scenario_id id,
    text_eq_iff id v.scenario_id,
  )

  found_id : find (λ w. w.id == v.id) (archive_current id db.versions) ≡ some v
  found_id =
      find_id-archive_current id v.id db.versions v
        (find_weaker (is_version id v.id) (λ w. w.id == v.id) (λ w h. ground arith) db.versions v
          (sound.one_id v.id) found)
        other

  -- `promote` never meets the unique index.
  pub promote_ok : promote id v db ≡ ok (tt, promoted)
  unfolding promote set_current point_scenario_at
  promote_ok = ground (
    arith,
    found_id,
    any_of_count_zero (is_at v.scenario_id current) (λ w. not (w.id == v.id))
        (archive_current id db.versions) none_current,
  )

  same_scenario : (j : JsText) → text_eq id j ≡ false → count_if (is_version j v.id) db.versions ≡ 0
  same_scenario j ne = count_zero_of_All (is_version j v.id) db.versions (
      All-mono
        (λ w only. elim (Bool-cases (w.id == v.id)) [
          | inl hit ↦ ground (
            arith,
            only hit,
            at_id,
            text_eq_iff v.scenario_id id,
            text_eq_iff v.scenario_id j,
            text_eq_iff id j,
          )
          | inr miss ↦ ground arith
        ])
        db.versions (only_row db sound id v.id v found))

  one_current_after : (j : JsText) → count_if (is_at j current) promoted.versions ≤ 1
  one_current_after j = ground (
    arith,
    count-mark_current-le v.id j (archive_current id db.versions),
    count-archive_current id j db.versions,
    count_version-archive_current id j v.id db.versions,
    count_mono (is_version j v.id) (λ w. w.id == v.id) (λ w h. ground arith) db.versions,
    sound.one_id v.id,
    sound.one_current j,
    same_scenario j,
  )

  -- The promoted row is what the search for the scenario's current version then finds.
  pub find-promoted :
      find (is_at id current) promoted.versions ≡ some (record v { state = current })
  find-promoted =
      find-mark_current v.id id (archive_current id db.versions) v
        (rw (find-archive_current id id db.versions, text_eq_refl id))
        (find_version-archive_current id id v.id db.versions v found other)

  -- Another scenario keeps its current version.
  pub find-promoted_ne :
      (j : JsText)
      → text_eq id j ≡ false
      → find (is_at j current) promoted.versions ≡ find (is_at j current) db.versions
  find-promoted_ne j ne = ground (
    arith,
    find-mark_current_ne v.id j (archive_current id db.versions),
    count_version-archive_current id j v.id db.versions,
    same_scenario j ne,
    find-archive_current id j db.versions,
  )

  mirrored_after :
      (j : JsText) (s : Scenario) (w : Version)
      → find_scenario j promoted.scenarios ≡ some s
      → find (is_at j current) promoted.versions ≡ some w
      → s.archive ≡ archive_of w
  mirrored_after j s w fs fw = elim (Bool-cases (text_eq id j)) [
    | inl same ↦ ground (
      arith,
      text_eq_iff id j,
      find-promoted,
      find-update_self id (pointed v db.now) db.scenarios (λ _. refl),
    )
    | inr ne ↦
        sound.mirrored j s w
          (sym (find-update_ne id j (pointed v db.now) db.scenarios (λ _. refl) ne) ∙ fs)
          (sym (find-promoted_ne j ne) ∙ fw)
  ]

  -- Promoting keeps the invariant: one current version, which the catalog row mirrors.
  pub promote-IsSound : IsSound promoted
  promote-IsSound = record {
    one_current = one_current_after;
    one_pending = λ j. omega (
      arith,
      count_pending-mark_current-le v.id j (archive_current id db.versions),
      count_pending-archive_current id j db.versions,
      sound.one_pending j,
    );
    one_id = λ k. omega (
      arith,
      count_id-mark_current v.id k (archive_current id db.versions),
      count_id-archive_current id k db.versions,
      sound.one_id k,
    );
    fresh =
        All-id-mark_current v.id (λ k. k < db.next_version) (archive_current id db.versions)
          (All-id-archive_current id (λ k. k < db.next_version) db.versions sound.fresh);
    capped = λ j. omega (
      arith,
      count_scenario-mark_current v.id j (archive_current id db.versions),
      count_scenario-archive_current id j db.versions,
      sound.capped j,
    );
    mirrored = mirrored_after;
  }

  -- Promoting a version that is not current succeeds, and no index refuses it. The version is then
  -- the scenario's current one, other scenarios keep theirs, the history's invariant holds, and the
  -- catalog row shows the promoted archive.
  pub promote_effect :
      (db' : Db) × (promote id v db ≡ ok (tt, db'))
      × IsSound db'
      × (find (is_at id current) db'.versions ≡ some (record v { state = current }))
      × ((j : JsText)
          → text_eq id j ≡ false
          → find (is_at j current) db'.versions ≡ find (is_at j current) db.versions)
      × ((s : Scenario) → find_scenario id db'.scenarios ≡ some s → s.archive ≡ archive_of v)
  promote_effect = (
    promoted,
    promote_ok,
    promote-IsSound,
    find-promoted,
    find-promoted_ne,
    λ s f. promote-IsSound.mirrored id s (record v { state = current }) f find-promoted,
  )
