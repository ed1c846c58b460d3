-- ===== src/Versions/Room.antt =====
-- The statements that make room for an upload keep the invariant.
use virtual_lab.Prelude.{
  ◌+◌, ◌≤◌, ◌<◌, Bool, true, false, not, Option, some, none, List, ◌≡◌, ◌≢◌, refl, sym, ◌∙◌, arith,
  find, count_if, Bool-cases, Option-cases, inl, inr, ◌==◌, ap, if◌then◌else◌,
}
use virtual_lab.Prelude.Search.{
  find_holds, count_of_find-none, All-false_of_count_zero, All-find, unique_of_count,
  count-keep_zero, count-keep-lt, All-mono, find-same,
}
use virtual_lab.JsText.{JsText, text_eq}
use virtual_lab.JsText.Laws.{text_eq_refl}
use virtual_lab.Db.Rows.{Db, Version, VersionState, current, pending}
use virtual_lab.Db.Find.{is_at}
use virtual_lab.Versions.{
  of_scenario, is_version, archive_current, delete_version, drop_row, make_room, is_some,
}
use virtual_lab.Versions.Lists.{
  count-archive_current, count_pending-archive_current, count_id-archive_current,
  count_scenario-archive_current, find-archive_current, All-id-archive_current,
}
use virtual_lab.Versions.Invariant.{IsSound, only_row, find-delete_version, delete_version-IsSound}

module _ (db : Db) (sound : IsSound db) (id : JsText) where
  -- The row that a search by state finds is the row with its id.
  pub row_by_id :
      (st : VersionState) (v : Version)
      → find (is_at id st) db.versions ≡ some v
      → find (is_version id v.id) db.versions ≡ some v
  row_by_id st v found = elim (Option-cases (find (is_version id v.id) db.versions)) [
    | inl missing ↦
        let miss =
          All-find (λ w. is_version id v.id w ≡ false) (is_at id st) db.versions v
            (All-false_of_count_zero (is_version id v.id) db.versions
              (count_of_find-none (is_version id v.id) db.versions missing))
            found in
        absurd (ground (arith, miss, find_holds (is_at id st) db.versions v found))
    | inr (w, hit) ↦
        let same =
          All-find (λ u. (u.id == v.id) ≡ true → u ≡ w) (is_at id st) db.versions v
            (only_row db sound id v.id w hit) found in
        hit ∙ ap some (sym (same (ground arith)))
  ]

  -- Archiving the current version keeps the invariant; the scenario then has none.
  pub archive_current-IsSound : IsSound (record db { versions = archive_current id db.versions })
  archive_current-IsSound = record {
    one_current = λ j. ground (arith, count-archive_current id j db.versions, sound.one_current j);
    one_pending =
        λ j. omega (arith, count_pending-archive_current id j db.versions, sound.one_pending j);
    one_id = λ k. omega (arith, count_id-archive_current id k db.versions, sound.one_id k);
    fresh = All-id-archive_current id (λ k. k < db.next_version) db.versions sound.fresh;
    capped = λ j. omega (arith, count_scenario-archive_current id j db.versions, sound.capped j);
    mirrored = λ j s v fs fv. elim (Bool-cases (text_eq id j)) [
      | inl same ↦ absurd (ground (arith, find-archive_current id j db.versions))
      | inr ne ↦ sound.mirrored j s v fs (ground (arith, find-archive_current id j db.versions))
    ];
  }

  -- Deleting the pending version leaves no pending one, and one version fewer.
  count-delete_pending :
      (v : Version)
      → find (is_at id pending) db.versions ≡ some v
      → (count_if (is_at id pending) (delete_version v.id db.versions) ≡ 0)
        × (count_if (of_scenario id) (delete_version v.id db.versions)
            < count_if (of_scenario id) db.versions)
  unfolding delete_version
  count-delete_pending v found = (
    count-keep_zero (is_at id pending) (λ w. not (w.id == v.id)) db.versions
        (All-mono (λ w only at. ground (arith, only)) db.versions
          (unique_of_count (is_at id pending) db.versions v (sound.one_pending id) found)),
    count-keep-lt (of_scenario id) (λ w. not (w.id == v.id)) db.versions v
        (find-same (is_version id v.id) _ (λ w. ground arith) db.versions
          ∙ row_by_id pending v found),
  )

  -- The table after the statements that make room.
  pub record Room (drops as_pending : Bool) (rows : List Version) : Type 0 where
    pub still : IsSound (record db { versions = rows })
    pub none_here : count_if (is_at id (if as_pending then pending else current)) rows ≡ 0
    pub fewer :
        count_if (of_scenario id) rows + (if drops then 1 else 0)
        ≤ count_if (of_scenario id) db.versions
    pub others :
        (j : JsText)
        → text_eq id j ≡ false
        → find (is_at j current) rows ≡ find (is_at j current) db.versions
    pub kept :
        as_pending ≡ true → find (is_at id current) rows ≡ find (is_at id current) db.versions

  left_Room :
      (pend : Option Version) (drops : Bool)
      → find (is_at id pending) db.versions ≡ pend
      → is_some pend ≡ drops
      → Room drops true (drop_row drops pend db.versions)
  left_Room none false e h = record {
    still = sound;
    none_here = count_of_find-none (is_at id pending) db.versions e;
    fewer = omega arith;
    others = λ j ne. refl;
    kept = λ _. refl;
  }
  left_Room (some v) true e h = record {
    still = delete_version-IsSound db sound id v.id v (row_by_id pending v e) (is_pending v e);
    none_here = (count-delete_pending v e).0;
    fewer = omega (arith, (count-delete_pending v e).1);
    others =
        λ j ne. find-delete_version db sound id v.id v j (row_by_id pending v e) (is_pending v e);
    kept = λ _. find-delete_version db sound id v.id v id (row_by_id pending v e) (is_pending v e);
  }
    where
      is_pending : (w : Version) → find (is_at id pending) db.versions ≡ some w → w.state ≢ current
      is_pending w f = ground (arith, find_holds (is_at id pending) db.versions w f)
  left_Room none true e h = cc
  left_Room (some v) false e h = cc

-- Making room keeps the invariant, leaves no row in the state of the upload, and touches no other
-- scenario's current version; a proposal leaves this scenario's as well.
module _ (db : Db) (sound : IsSound db) (id : JsText) where
  archived_Room :
      (drops : Bool) (rows : List Version)
      → IsSound (record db { versions = rows })
      → count_if (of_scenario id) rows + (if drops then 1 else 0)
        ≤ count_if (of_scenario id) db.versions
      → ((j : JsText)
          → text_eq id j ≡ false
          → find (is_at j current) rows ≡ find (is_at j current) db.versions)
      → Room db sound id drops false (archive_current id rows)
  archived_Room drops rows s fewer others = record {
    still = archive_current-IsSound (record db { versions = rows }) s id;
    none_here = ground (arith, count-archive_current id id rows, text_eq_refl id);
    fewer = omega (arith, count_scenario-archive_current id id rows);
    others = λ j ne. ground (arith, find-archive_current id j rows, others j ne);
    kept = λ h. cc;
  }

  pub make_room-Room :
      (drops as_pending : Bool)
      → let pend = find (is_at id pending) db.versions in
        (drops ≡ true → is_some pend ≡ true)
        → (as_pending ≡ true → is_some pend ≡ drops)
        → Room db sound id drops as_pending (make_room id drops as_pending pend db.versions)
  make_room-Room drops true g h = left_Room db sound id _ drops refl (h refl)
  make_room-Room false false g h =
      archived_Room false db.versions sound (omega arith) (λ j ne. refl)
  make_room-Room true false g h =
      let r = left_Room db sound id _ true refl (g refl) in
      archived_Room true _ r.still r.fewer r.others
