-- ===== src/Versions/Uploaded.antt =====
-- What an upload that succeeds changes, and when one is refused.
use virtual_lab.Prelude.{
  ◌≤◌, ◌<◌, Bool, true, false, Option, some, ◌≡◌, ◌⊎◌, refl, arith, find, count_if, Bool-cases, inl,
  inr, subst,
}
use virtual_lab.JsText.{JsText, text_eq}
use virtual_lab.JsText.Laws.{text_eq_iff, text_eq_refl}
use virtual_lab.HttpError.{Failure}
use virtual_lab.Db.Rows.{
  Db, Scenario, Version, current, pending, Status, review, published, author, Checks,
}
use virtual_lab.Db.Tx.{Result, ok, throw}
use virtual_lab.Db.Find.{find_scenario, update_scenario, is_at}
use virtual_lab.Db.Laws.{find-update_self, ok-injective}
use virtual_lab.Auth.{Principal}
use virtual_lab.Storage.{Stored}
use virtual_lab.Versions.{
  of_scenario, archive_of, Manifest, Installed, shown, is_proposal, is_some, install_upload,
  in_review, too_many, max_versions, key_exists,
}
use virtual_lab.Versions.Invariant.{IsSound}
use virtual_lab.Versions.Promote.{pointed}
use virtual_lab.Versions.Room.{Room}
use virtual_lab.Versions.Insert.{state_after, row, inserted, inserted-IsSound, find_current_after}
use virtual_lab.Versions.Install.{drops}
use virtual_lab.Versions.Upload.{
  is_proposed, same_row, room, Outcome, under_review, already_there, no_room, installed, Room-made,
  install_upload-Outcome,
}

module _ (id : JsText) (status : Status) (principal : Principal) (stored : Stored)
    (manifest : Option Manifest) (checks : Option Checks) (db : Db) (sound : IsSound db)
    (s : Scenario) (known : find_scenario id db.scenarios ≡ some s)
    (key : key_exists principal.key_id db.keys ≡ true) where
  abbrev roomy : Db
  roomy = room id status principal stored manifest checks db

  abbrev as_pending : Bool
  as_pending = is_proposed id status principal stored manifest checks db

  abbrev new : Version
  new = row id principal stored manifest checks as_pending roomy

  abbrev done : Db
  done = inserted id principal stored manifest checks as_pending roomy

  -- What holds of the two successful outcomes holds of every upload that succeeds.
  on_success :
      (P : Installed → Db → Type 0)
      → ((v : Version)
          → same_row id status principal stored manifest checks db ≡ some v
          → text_eq v.sha256 stored.sha256 ≡ true
          → P (record { version = shown db.keys v; state = v.state; changed = false }) db)
      → (IsSound roomy
          → count_if
              (is_at id (state_after id principal stored manifest checks as_pending roomy))
              roomy.versions
            ≡ 0
          → count_if (of_scenario id) roomy.versions < max_versions
          → P
              (record {
                version = shown db.keys new;
                state = state_after id principal stored manifest checks as_pending roomy;
                changed = true;
              })
              done)
      → (m : Installed) (db' : Db)
      → install_upload id status principal stored manifest checks db ≡ ok (m, db')
      → P m db'
  on_success P old fresh m db' =
      go (install_upload-Outcome id status principal stored manifest checks db sound s known key)
    where
      go :
          {r : Result (Installed × Db)}
          → Outcome id status principal stored manifest checks db r
          → r ≡ ok (m, db')
          → P m db'
      go (under_review _) h = cc
      go (no_room _ _) h = cc
      go (already_there v e t) h = subst (λ x. P x.0 x.1) (ok-injective h) (old v e t)
      go (installed _ still none_here space) h =
          subst (λ x. P x.0 x.1) (ok-injective h) (fresh still none_here space)

  -- An upload that succeeds keeps the invariant.
  pub install_upload-IsSound :
      (m : Installed) (db' : Db)
      → install_upload id status principal stored manifest checks db ≡ ok (m, db')
      → IsSound db'
  install_upload-IsSound =
      on_success (λ m db'. IsSound db') (λ v e t. sound)
        (λ still none_here space.
          inserted-IsSound id principal stored manifest checks as_pending roomy still none_here
            space)

  -- An upload that succeeds without a change leaves every table as it was; with or without one, the
  -- version it answers with has the upload's bytes.
  pub install_upload_unchanged :
      (m : Installed) (db' : Db)
      → install_upload id status principal stored manifest checks db ≡ ok (m, db')
      → (m.changed ≡ false → db' ≡ db) × (m.version.version.sha256 ≡ stored.sha256)
  unfolding shown
  install_upload_unchanged =
      on_success
        (λ m db'. (m.changed ≡ false → db' ≡ db) × (m.version.version.sha256 ≡ stored.sha256))
        (λ v e t. (λ _. refl, (text_eq_iff v.sha256 stored.sha256).0 t))
        (λ still none_here space. (λ h. cc, refl))

  Room-there :
      Room db sound id
        (drops id status principal stored manifest checks db)
        as_pending
        roomy.versions
  Room-there = Room-made id status principal stored manifest checks db sound s known key

  -- An author's upload to a published scenario changes nothing that students see: the catalog rows
  -- and the current version of every scenario stay. A new row is pending.
  pub proposal_stays_hidden :
      (m : Installed) (db' : Db)
      → status ≡ published
      → principal.role ≡ author
      → install_upload id status principal stored manifest checks db ≡ ok (m, db')
      → (db'.scenarios ≡ db.scenarios)
        × ((j : JsText) → find (is_at j current) db'.versions ≡ find (is_at j current) db.versions)
        × (m.changed ≡ true → find (is_at id pending) db'.versions ≡ some m.version.version)
  unfolding shown find
  proposal_stays_hidden m db' h r =
      on_success
        (λ m db'.
          (db'.scenarios ≡ db.scenarios)
          × ((j : JsText)
              → find (is_at j current) db'.versions ≡ find (is_at j current) db.versions)
          × (m.changed ≡ true → find (is_at id pending) db'.versions ≡ some m.version.version))
        (λ v e t. (refl, λ j. refl, λ c. cc))
        (λ still none_here space. (
          ground arith,
          λ j. elim (Bool-cases (text_eq id j)) [
            | inl same ↦ ground (
              arith,
              find_current_after id principal stored manifest checks as_pending roomy still
                  none_here space j,
              Room-there.kept,
              text_eq_iff id j,
            )
            | inr ne ↦ ground (
              arith,
              find_current_after id principal stored manifest checks as_pending roomy still
                  none_here space j,
              Room-there.others j ne,
            )
          ],
          λ c. ground (arith, text_eq_refl id),
        ))
        m db'

  -- A changed upload by anyone else, or to a scenario that is not published, is the current version
  -- at once, and the catalog row shows it; but for its archive and the time of the change the row
  -- stays.
  pub direct_upload_goes_live :
      (m : Installed) (db' : Db)
      → is_proposal status principal.role ≡ false
      → m.changed ≡ true
      → install_upload id status principal stored manifest checks db ≡ ok (m, db')
      → (find (is_at id current) db'.versions ≡ some m.version.version)
        × (find_scenario id db'.scenarios
            ≡ some (record s { archive = archive_of m.version.version; updated_at = db.now }))
  unfolding shown
  direct_upload_goes_live m db' h c r =
      on_success
        (λ m db'.
          m.changed ≡ true
          → (find (is_at id current) db'.versions ≡ some m.version.version)
            × (find_scenario id db'.scenarios
                ≡ some (record s { archive = archive_of m.version.version; updated_at = db.now })))
        (λ v e t c. cc)
        (λ still none_here space c. (
          ground (
            arith,
            text_eq_refl id,
            find_current_after id principal stored manifest checks as_pending roomy still none_here
                space id,
          ),
          ground (arith, find-update_self id (pointed new db.now) db.scenarios (λ _. refl)),
        ))
        m db' r c

  -- An upload is refused only while the scenario is in review, or where it already has fifty
  -- versions.
  pub install_upload_refused :
      (e : Failure)
      → install_upload id status principal stored manifest checks db ≡ throw e
      → ((e ≡ in_review) × (status ≡ review))
        ⊎ ((e ≡ too_many) × (max_versions ≤ count_if (of_scenario id) db.versions))
  install_upload_refused e =
      go (install_upload-Outcome id status principal stored manifest checks db sound s known key)
    where
      go :
          {r : Result (Installed × Db)}
          → Outcome id status principal stored manifest checks db r
          → r ≡ throw e
          → ((e ≡ in_review) × (status ≡ review))
            ⊎ ((e ≡ too_many) × (max_versions ≤ count_if (of_scenario id) db.versions))
      go (under_review h) r = inl (cc, h)
      go (no_room full _) r = inr (cc, omega arith)
      go (already_there v _ _) r = cc
      go (installed _ _ _ _) r = cc

  pub find_current_upload :
      (m : Installed) (db' : Db) (j : JsText)
      → install_upload id status principal stored manifest checks db ≡ ok (m, db')
      → is_some (find (is_at j current) db.versions) ≡ true
      → is_some (find (is_at j current) db'.versions) ≡ true
  find_current_upload m db' j =
      on_success
        (λ m db'.
          is_some (find (is_at j current) db.versions) ≡ true
          → is_some (find (is_at j current) db'.versions) ≡ true)
        (λ v e t h. h)
        (λ still none_here space. elim (Bool-cases (text_eq id j)) [
          | inl same ↦ ground (
            arith,
            find_current_after id principal stored manifest checks as_pending roomy still none_here
                space j,
            Room-there.kept,
            text_eq_iff id j,
          )
          | inr ne ↦ ground (
            arith,
            find_current_after id principal stored manifest checks as_pending roomy still none_here
                space j,
            Room-there.others j ne,
          )
        ])
        m db'

  -- The catalog rows after an upload are the rows before, with one of them pointed at a version.
  pub scenarios_upload :
      (m : Installed) (db' : Db)
      → install_upload id status principal stored manifest checks db ≡ ok (m, db')
      → (db'.scenarios ≡ db.scenarios)
        ⊎ ((v : Version) × (db'.scenarios ≡ update_scenario id (pointed v db.now) db.scenarios))
  scenarios_upload =
      on_success
        (λ m db'.
          (db'.scenarios ≡ db.scenarios)
          ⊎ ((v : Version) × (db'.scenarios ≡ update_scenario id (pointed v db.now) db.scenarios)))
        (λ v e t. inl refl)
        (λ still none_here space. elim (Bool-cases as_pending) [
          | inl proposed ↦ inl (ground arith)
          | inr direct ↦ inr (new, ground arith)
        ])
