-- ===== src/Versions/Insert.antt =====
-- Inserting an upload's row where there is room for it.
use virtual_lab.Prelude.{
  ℕ, suc, ◌≤◌, ◌<◌, Bool, true, false, Option, some, ◌∷◌, ◌≡◌, refl, ◌∙◌, arith, find, any,
  count_if, Bool-cases, inl, inr, ◌==◌, if◌then◌else◌,
}
use virtual_lab.Prelude.Search.{any_of_find, none_of_count_zero, count_zero_of_All, All-mono}
use virtual_lab.JsText.{JsText, text_eq}
use virtual_lab.JsText.Laws.{text_eq_iff, text_eq_refl}
use virtual_lab.Db.Rows.{Db, Scenario, Version, VersionState, current, pending, Checks}
use virtual_lab.Db.Tx.{ok}
use virtual_lab.Db.Find.{find_scenario, update_scenario, is_at}
use virtual_lab.Db.Laws.{find-update_self, find-update_ne, bind_of_ok}
use virtual_lab.Auth.{Principal}
use virtual_lab.Storage.{Stored}
use virtual_lab.Versions.{
  of_scenario, archive_of, Manifest, shown, get_version, insert_upload, insert_row, insert_version,
  max_versions, new_version, key_exists, point_scenario_at,
}
use virtual_lab.Versions.Invariant.{IsSound}
use virtual_lab.Versions.Promote.{pointed}

insert_version_ok :
    (v : Version) (db : Db)
    → any (λ t. text_eq t.id v.scenario_id) db.scenarios ≡ true
    → key_exists v.uploaded_by_key_id db.keys ≡ true
    → any (is_at v.scenario_id v.state) db.versions ≡ false
    → insert_version v db
      ≡ ok (tt, record db { versions = v ∷ db.versions; next_version = suc db.next_version })
unfolding insert_version
insert_version_ok v db known key room = ground arith

-- The row just inserted is what its id finds.
get_version-head :
    (id : JsText) (v : Version) (db : Db)
    → text_eq v.scenario_id id ≡ true
    → get_version id v.id
        (record db { versions = v ∷ db.versions; next_version = suc db.next_version })
      ≡ ok (
        shown db.keys v,
        record db { versions = v ∷ db.versions; next_version = suc db.next_version },
      )
unfolding get_version find
get_version-head id v db h = ground arith

insert_row_ok :
    (id : JsText) (v : Version) (as_pending : Bool) (db : Db)
    → text_eq v.scenario_id id ≡ true
    → insert_version v db
      ≡ ok (tt, record db { versions = v ∷ db.versions; next_version = suc db.next_version })
    → insert_row id v as_pending db
      ≡ ok (
        record { version = shown db.keys v; state = v.state; changed = true },
        record db {
          versions = v ∷ db.versions;
          next_version = suc db.next_version;
          scenarios =
              if as_pending
              then db.scenarios
              else update_scenario id (pointed v db.now) db.scenarios;
        },
      )
unfolding insert_row point_scenario_at shown
insert_row_ok id v true db h e =
    bind_of_ok (insert_version v) _ db e
    ∙ bind_of_ok (get_version id v.id) _ _ (get_version-head id v db h)
insert_row_ok id v false db h e =
    bind_of_ok (insert_version v) _ db e
    ∙ bind_of_ok (get_version id v.id) _ _ (get_version-head id v db h)

module _ (id : JsText) (principal : Principal) (stored : Stored) (manifest : Option Manifest)
    (checks : Option Checks) (as_pending : Bool) (db : Db) where
  abbrev pub state_after : VersionState
  state_after = if as_pending then pending else current

  abbrev pub row : Version
  row = new_version id principal stored manifest checks state_after db

  -- The tables after the insertion.
  abbrev pub inserted : Db
  inserted = record db {
    versions = row ∷ db.versions;
    next_version = suc db.next_version;
    scenarios =
        if as_pending then db.scenarios else update_scenario id (pointed row db.now) db.scenarios;
  }

  module _ (s : Scenario) (known : find_scenario id db.scenarios ≡ some s)
      (key : key_exists principal.key_id db.keys ≡ true)
      (room : count_if (is_at id state_after) db.versions ≡ 0) where
    accepted :
        insert_version row db
        ≡ ok (tt, record db { versions = row ∷ db.versions; next_version = suc db.next_version })
    unfolding find_scenario
    accepted =
        insert_version_ok row db (any_of_find (λ t. text_eq t.id id) db.scenarios s known) key
          (none_of_count_zero (is_at id state_after) db.versions room)

    -- Where the scenario and the uploader's key exist and no row has the state, neither an index nor
    -- a foreign key refuses the row.
    pub insert_upload_ok :
        insert_upload id principal stored manifest checks as_pending db
        ≡ ok (record { version = shown db.keys row; state = state_after; changed = true }, inserted)
    unfolding insert_upload
    insert_upload_ok = insert_row_ok id row as_pending db (text_eq_refl id) accepted

  module _ (sound : IsSound db) (room : count_if (is_at id state_after) db.versions ≡ 0)
      (space : count_if (of_scenario id) db.versions < max_versions) where
    new_id : count_if (λ v. v.id == db.next_version) db.versions ≡ 0
    new_id =
        count_zero_of_All (λ v. v.id == db.next_version) db.versions
          (All-mono (λ v h. ground arith) db.versions sound.fresh)

    one_current_after : (j : JsText) → count_if (is_at j current) inserted.versions ≤ 1
    unfolding count_if
    one_current_after j = ground (arith, sound.one_current j, text_eq_iff id j)

    one_pending_after : (j : JsText) → count_if (is_at j pending) inserted.versions ≤ 1
    unfolding count_if
    one_pending_after j = ground (arith, sound.one_pending j, text_eq_iff id j)

    one_id_after : (k : ℕ) → count_if (λ v. v.id == k) inserted.versions ≤ 1
    unfolding count_if
    one_id_after k = ground (arith, sound.one_id k, new_id)

    capped_after : (j : JsText) → count_if (of_scenario j) inserted.versions ≤ max_versions
    unfolding count_if
    capped_after j = ground (arith, sound.capped j, text_eq_iff id j)

    -- Another scenario's current version is what it was, and this one's is the row or, for a
    -- proposal, what it was.
    pub find_current_after :
        (j : JsText)
        → find (is_at j current) inserted.versions ≡ (
            if as_pending
            then find (is_at j current) db.versions
            else if text_eq id j
            then some row
            else find (is_at j current) db.versions)
    unfolding find
    find_current_after j = ground arith

    mirrored_after :
        (j : JsText) (t : Scenario) (w : Version)
        → find_scenario j inserted.scenarios ≡ some t
        → find (is_at j current) inserted.versions ≡ some w
        → t.archive ≡ archive_of w
    mirrored_after j t w ft fw = elim (Bool-cases (text_eq id j)) [
      | inl same ↦ ground (
        arith,
        text_eq_iff id j,
        find_current_after j,
        sound.mirrored j t w,
        find-update_self id (pointed row db.now) db.scenarios (λ _. refl),
      )
      | inr ne ↦ ground (
        arith,
        find_current_after j,
        sound.mirrored j t w,
        find-update_ne id j (pointed row db.now) db.scenarios (λ _. refl) ne,
      )
    ]

    -- The insertion keeps the invariant.
    pub inserted-IsSound : IsSound inserted
    inserted-IsSound = record {
      one_current = one_current_after;
      one_pending = one_pending_after;
      one_id = one_id_after;
      fresh = (omega arith, All-mono (λ v h. omega arith) db.versions sound.fresh);
      capped = capped_after;
      mirrored = mirrored_after;
    }
