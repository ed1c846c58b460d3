-- ===== src/Versions/Install.antt =====
-- What an upload does to the history, on every branch.
use virtual_lab.Prelude.{
  ◌-◌, ◌≤◌, ◌<◌, Bool, false, Option, some, none, ◌≡◌, ◌≢◌, refl, ◌∙◌, arith, find, count_if, keep,
  length, if◌then◌else◌,
}
use virtual_lab.Prelude.Search.{find-of_keep, length-keep}
use virtual_lab.JsText.{JsText}
use virtual_lab.Db.Rows.{
  Db, Version, VersionState, current, pending, state_eq, Status, draft, review, published, rejected,
  Checks,
}
use virtual_lab.Db.Tx.{throw, ◌>>=◌, pure}
use virtual_lab.Db.Find.{is_at}
use virtual_lab.Auth.{Principal}
use virtual_lab.Storage.{Stored}
use virtual_lab.Versions.{
  of_scenario, Manifest, get_version, is_proposal, same_bytes, drops_pending, make_room,
  insert_upload, install_beside, install_upload, in_review, too_many, max_versions,
}

module _ (id : JsText) (status : Status) (principal : Principal) (stored : Stored)
    (manifest : Option Manifest) (checks : Option Checks) (db : Db) where
  abbrev pub proposal : Bool
  proposal = is_proposal status principal.role

  abbrev pub current_row : Option Version
  current_row = find (is_at id current) db.versions

  abbrev pub pending_row : Option Version
  pending_row = find (is_at id pending) db.versions

  abbrev pub drops : Bool
  drops = drops_pending pending_row status proposal

  -- The stored row with the upload's bytes, where there is one.
  abbrev pub duplicate : Option Version
  duplicate = same_bytes current_row (if proposal then pending_row else none) stored.sha256

  -- The table once there is room.
  abbrev pub roomy : Db
  roomy = record db { versions = make_room id drops proposal pending_row db.versions }

  find_state :
      (st : VersionState)
      → find (λ v. state_eq v.state st) (keep (of_scenario id) db.versions)
        ≡ find (is_at id st) db.versions
  find_state st = find-of_keep (λ v. state_eq v.state st) (of_scenario id) db.versions

  pub install_review :
      status ≡ review
      → install_upload id status principal stored manifest checks db ≡ throw in_review
  unfolding install_upload
  install_review h = ground arith

  install_beside_eq :
      status ≢ review
      → install_upload id status principal stored manifest checks db
        ≡ install_beside id status principal stored manifest checks current_row pending_row
            (count_if (of_scenario id) db.versions)
            db
  unfolding install_upload find keep
  install_beside_eq h = start status h ∙ (λ i.
      install_beside id status principal stored manifest checks (find_state current i)
        (find_state pending i) (length-keep (of_scenario id) db.versions i) db)
    where
      start :
          (st : Status)
          → st ≢ review
          → install_upload id st principal stored manifest checks db
            ≡ install_beside id st principal stored manifest checks
                (find (λ v. state_eq v.state current) (keep (of_scenario id) db.versions))
                (find (λ v. state_eq v.state pending) (keep (of_scenario id) db.versions))
                (length (keep (of_scenario id) db.versions))
                db
      start draft h = refl
      start published h = refl
      start rejected h = refl
      start review h = absurd (h refl)

  pub install_duplicate :
      (v : Version)
      → status ≢ review
      → duplicate ≡ some v
      → install_upload id status principal stored manifest checks db
        ≡ (get_version id v.id >>= λ w.
              pure (record { version = w; state = v.state; changed = false }))
            db
  unfolding install_beside
  install_duplicate v h e = ground (arith, install_beside_eq h)

  pub install_full :
      status ≢ review
      → duplicate ≡ none
      → max_versions ≤ count_if (of_scenario id) db.versions - (if drops then 1 else 0)
      → install_upload id status principal stored manifest checks db ≡ throw too_many
  unfolding install_beside
  install_full h e full = ground (arith, install_beside_eq h)

  pub install_new :
      status ≢ review
      → duplicate ≡ none
      → count_if (of_scenario id) db.versions - (if drops then 1 else 0) < max_versions
      → install_upload id status principal stored manifest checks db
        ≡ insert_upload id principal stored manifest checks proposal roomy
  unfolding install_beside
  install_new h e room = ground (arith, install_beside_eq h)
