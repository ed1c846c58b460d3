-- ===== src/Versions/Invariant.antt =====
-- The invariant of the history: at most one current and one pending version of a scenario, ids that are
-- used once, at most fifty versions, and catalog columns that mirror the current version.
use virtual_lab.Prelude.{
  ℕ, ◌≤◌, ◌<◌, true, not, some, ◌≡◌, ◌≢◌, sym, ◌∙◌, arith, find, count_if, All, ◌==◌,
}
use virtual_lab.Prelude.Search.{
  unique_of_count, find-keep, count-keep-le, All-mono, All-keep, find_weaker,
}
use virtual_lab.JsText.{JsText}
use virtual_lab.Db.Rows.{Db, Scenario, Version, current, pending}
use virtual_lab.Db.Find.{find_scenario, is_at}
use virtual_lab.Versions.{of_scenario, is_version, archive_of, max_versions, delete_version}

pub record IsSound (db : Db) : Type 0 where
  pub one_current : (id : JsText) → count_if (is_at id current) db.versions ≤ 1
  pub one_pending : (id : JsText) → count_if (is_at id pending) db.versions ≤ 1
  pub one_id : (k : ℕ) → count_if (λ v. v.id == k) db.versions ≤ 1
  pub fresh : All (λ v. v.id < db.next_version) db.versions
  pub capped : (id : JsText) → count_if (of_scenario id) db.versions ≤ max_versions
  pub mirrored :
      (id : JsText) (s : Scenario) (v : Version)
      → find_scenario id db.scenarios ≡ some s
      → find (is_at id current) db.versions ≡ some v
      → s.archive ≡ archive_of v

module _ (db : Db) (sound : IsSound db) (id : JsText) (vid : ℕ) (v : Version) where
  -- A version that was looked up by scenario and id is the one row with the id.
  pub only_row :
      find (is_version id vid) db.versions ≡ some v
      → All (λ w. (w.id == vid) ≡ true → w ≡ v) db.versions
  only_row found =
      unique_of_count (λ w. w.id == vid) db.versions v (sound.one_id vid)
        (find_weaker (is_version id vid) (λ w. w.id == vid) (λ w h. ground arith) db.versions v
          (sound.one_id vid) found)

  -- Deleting a row that is not current leaves every search for a current version as it was.
  pub find-delete_version :
      (j : JsText)
      → find (is_version id vid) db.versions ≡ some v
      → v.state ≢ current
      → find (is_at j current) (delete_version vid db.versions) ≡ find (is_at j current) db.versions
  unfolding delete_version
  find-delete_version j found other =
      find-keep (is_at j current) (λ w. not (w.id == vid)) db.versions
        (All-mono (λ w only at. ground (arith, only)) db.versions (only_row found))

  -- Deleting a pending or archived version keeps the invariant.
  pub delete_version-IsSound :
      find (is_version id vid) db.versions ≡ some v
      → v.state ≢ current
      → IsSound (record db { versions = delete_version vid db.versions })
  unfolding delete_version
  delete_version-IsSound found other = record {
    one_current = λ j. omega (
      arith,
      sound.one_current j,
      count-keep-le (is_at j current) (λ w. not (w.id == vid)) db.versions,
    );
    one_pending = λ j. omega (
      arith,
      sound.one_pending j,
      count-keep-le (is_at j pending) (λ w. not (w.id == vid)) db.versions,
    );
    one_id = λ k. omega (
      arith,
      sound.one_id k,
      count-keep-le (λ w. w.id == k) (λ w. not (w.id == vid)) db.versions,
    );
    fresh = All-keep _ (λ w. not (w.id == vid)) db.versions sound.fresh;
    capped = λ j.
        omega (
          arith,
          sound.capped j,
          count-keep-le (of_scenario j) (λ w. not (w.id == vid)) db.versions,
        );
    mirrored =
        λ j s w fs fv. sound.mirrored j s w fs (sym (find-delete_version j found other) ∙ fv);
  }
