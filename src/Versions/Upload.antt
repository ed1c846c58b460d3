-- ===== src/Versions/Upload.antt =====
-- The outcome of an upload: refused, already there, or stored.
use virtual_lab.Prelude.{
  ◌-◌, ◌≤◌, ◌<◌, Bool, true, false, Option, some, none, ◌≡◌, ◌≢◌, ◌⊎◌, refl, sym, ◌∙◌, arith, find,
  count_if, Bool-cases, Option-cases, inl, inr, if◌then◌else◌, leb, subst,
}
use virtual_lab.JsText.{JsText, text_eq}
use virtual_lab.Db.Rows.{
  Db, Scenario, Version, current, pending, Status, draft, review, published, rejected, Checks,
}
use virtual_lab.Db.Tx.{Result, ok, throw}
use virtual_lab.Db.Find.{find_scenario, is_at}
use virtual_lab.Db.Laws.{bind_of_ok}
use virtual_lab.Auth.{Principal}
use virtual_lab.Storage.{Stored}
use virtual_lab.Versions.{
  of_scenario, Manifest, Installed, shown, get_version, is_some, drops_pending, install_upload,
  in_review, too_many, max_versions, key_exists, same_bytes,
}
use virtual_lab.Versions.Invariant.{IsSound}
use virtual_lab.Versions.Lists.{get_version_found}
use virtual_lab.Versions.Room.{Room, make_room-Room, row_by_id}
use virtual_lab.Versions.Insert.{state_after, row, inserted, insert_upload_ok}
use virtual_lab.Versions.Install.{
  proposal, drops, duplicate, roomy, install_review, install_duplicate, install_full, install_new,
}

is_review : (st : Status) → (st ≡ review) ⊎ (st ≢ review)
is_review draft = inr (λ e. cc)
is_review review = inl refl
is_review published = inr (λ e. cc)
is_review rejected = inr (λ e. cc)

same_bytes-cases :
    (cur pend : Option Version) (sha : JsText) (v : Version)
    → same_bytes cur pend sha ≡ some v
    → ((cur ≡ some v) ⊎ (pend ≡ some v)) × (text_eq v.sha256 sha ≡ true)
same_bytes-cases none none sha v h = cc
same_bytes-cases none (some w) sha v h = ground arith
same_bytes-cases (some u) none sha v h = ground arith
same_bytes-cases (some u) (some w) sha v h = ground arith

-- A pending row goes only where there is one, and before a proposal always.
drops-some :
    (pend : Option Version) (st : Status) (p : Bool)
    → drops_pending pend st p ≡ true
    → is_some pend ≡ true
drops-some pend st p h = ground arith

drops-proposal :
    (pend : Option Version) (st : Status) (p : Bool)
    → p ≡ true
    → is_some pend ≡ drops_pending pend st p
drops-proposal pend st p h = ground arith

module _ (id : JsText) (status : Status) (principal : Principal) (stored : Stored)
    (manifest : Option Manifest) (checks : Option Checks) (db : Db) where
  abbrev pub is_proposed : Bool
  is_proposed = proposal id status principal stored manifest checks db

  abbrev pub room : Db
  room = roomy id status principal stored manifest checks db

  abbrev pub same_row : Option Version
  same_row = duplicate id status principal stored manifest checks db

  -- The ways in which an upload ends.
  pub data Outcome : Result (Installed × Db) → Type 0 where
    under_review : status ≡ review → Outcome (throw in_review)
    already_there :
        (v : Version)
        → same_row ≡ some v
        → text_eq v.sha256 stored.sha256 ≡ true
        → Outcome (ok (record { version = shown db.keys v; state = v.state; changed = false }, db))
    no_room :
        max_versions
          ≤ count_if (of_scenario id) db.versions
            - (if drops id status principal stored manifest checks db then 1 else 0)
        → status ≢ review
        → Outcome (throw too_many)
    installed :
        status ≢ review
        → IsSound room
        → count_if
            (is_at id (state_after id principal stored manifest checks is_proposed room))
            room.versions
          ≡ 0
        → count_if (of_scenario id) room.versions < max_versions
        → Outcome (
            ok (
              record {
                version = shown db.keys (row id principal stored manifest checks is_proposed room);
                state = state_after id principal stored manifest checks is_proposed room;
                changed = true;
              },
              inserted id principal stored manifest checks is_proposed room,
            ))

  module _ (sound : IsSound db) (s : Scenario) (known : find_scenario id db.scenarios ≡ some s)
      (key : key_exists principal.key_id db.keys ≡ true) where
    duplicate_found :
        (v : Version) → same_row ≡ some v → get_version id v.id db ≡ ok (shown db.keys v, db)
    duplicate_found v e =
        get_version_found id v.id v db (elim (same_bytes-cases _ _ stored.sha256 v e).0 [
          | inl is_current ↦ row_by_id db sound id current v is_current
          | inr is_pending ↦ row_by_id db sound id pending v (ground arith)
        ])

    pub Room-made :
        Room db sound id
          (drops id status principal stored manifest checks db)
          is_proposed
          room.versions
    Room-made =
        make_room-Room db sound id (drops id status principal stored manifest checks db) is_proposed
          (drops-some (find (is_at id pending) db.versions) status is_proposed)
          (drops-proposal (find (is_at id pending) db.versions) status is_proposed)

    Outcome-new :
        same_row ≡ none
        → status ≢ review
        → Outcome (install_upload id status principal stored manifest checks db)
    Outcome-new e h =
        elim (Bool-cases (
          leb max_versions (
            count_if (of_scenario id) db.versions
            - (if drops id status principal stored manifest checks db then 1 else 0)))) [
              | inl full ↦
                  subst Outcome
                    (sym (
                      install_full id status principal stored manifest checks db h e
                        (ground arith)))
                    (no_room (ground arith) h)
              | inr free ↦
                  subst Outcome
                    (sym (
                      install_new id status principal stored manifest checks db h e (ground arith)
                      ∙ insert_upload_ok id principal stored manifest checks is_proposed room s
                          known key Room-made.none_here))
                    (installed h Room-made.still Room-made.none_here
                      (ground (arith, Room-made.fewer)))
            ]

    -- Every upload ends in one of these ways: the two unique indexes and the foreign keys, which the
    -- code calls the backstop, never refuse a row.
    pub install_upload-Outcome :
        Outcome (install_upload id status principal stored manifest checks db)
    install_upload-Outcome = elim (is_review status) [
      | inl reviewed ↦
          subst Outcome
            (sym (install_review id status principal stored manifest checks db reviewed))
            (under_review reviewed)
      | inr h ↦ elim (Option-cases same_row) [
        | inl fresh ↦ Outcome-new fresh h
        | inr (v, e) ↦
            subst Outcome
              (sym (
                install_duplicate id status principal stored manifest checks db v h e
                ∙ bind_of_ok (get_version id v.id) _ db (duplicate_found v e)))
              (already_there v e
                (same_bytes-cases (find (is_at id current) db.versions)
                  (if is_proposed then find (is_at id pending) db.versions else none) stored.sha256
                  v e).1)
      ]
    ]
