-- ===== src/Tests/Versions.antt =====
-- backend/versions.js on the small catalog: a proposal, a moderator's upload, a restore.
use virtual_lab.Prelude.{
  ◌≤◌, true, false, some, none, [], ◌∷◌, ◌≡◌, ◌≢◌, ◌⊎◌, refl, find, keep, any, count_if, all,
}
use virtual_lab.JsText.{JsText, text_eq, number_of, number_from, is_digit}
use virtual_lab.Db.Rows.{Db, Scenario, Version, current, pending, archived, review, published}
use virtual_lab.Db.Tx.{ok, throw}
use virtual_lab.Db.Find.{find_scenario, update_scenario, is_at}
use virtual_lab.Versions.{
  promote, Installed, shown, install_upload, install_beside, insert_upload, insert_row,
  insert_version, get_version, point_scenario_at, delete_version, archive_current, archive_of,
  new_version, in_review, too_many, max_versions, of_scenario, is_version, get_version_by_param,
  is_version_id,
}
use virtual_lab.Versions.Invariant.{IsSound}
use virtual_lab.Versions.Promote.{promote_effect}
use virtual_lab.Versions.Uploaded.{
  install_upload-IsSound, proposal_stays_hidden, direct_upload_goes_live, install_upload_refused,
}
use virtual_lab.Tests.Data.{
  a, db, version_1, version_2, version_3, stored, an_author, a_moderator, scenario_a, scenario_b,
  db-IsSound, found_a,
}

-- The rows that the author's and the moderator's upload insert.
abbrev proposal : Version
proposal = new_version a an_author stored none none pending db

abbrev release : Version
release = new_version a a_moderator stored none none current db

abbrev proposal_db : Db
proposal_db = record db { versions = proposal ∷ version_2 ∷ version_1 ∷ []; next_version = 5 }

abbrev release_db : Db
release_db = record db {
  versions = release ∷ version_3 ∷ (record version_2 { state = archived }) ∷ version_1 ∷ [];
  next_version = 5;
  scenarios =
      record scenario_a { archive = archive_of release; updated_at = 100 } ∷ scenario_b ∷ [];
}

abbrev proposed : Installed
proposed = record { version = shown db.keys proposal; state = pending; changed = true }

abbrev released : Installed
released = record { version = shown db.keys release; state = current; changed = true }

proposes : install_upload a published an_author stored none none db ≡ ok (proposed, proposal_db)
unfolding install_upload install_beside insert_upload insert_row insert_version get_version
    delete_version keep find any text_eq
proposes = refl

releases : install_upload a published a_moderator stored none none db ≡ ok (released, release_db)
unfolding install_upload install_beside insert_upload insert_row insert_version get_version
    point_scenario_at update_scenario archive_current shown keep find any text_eq
releases = refl

install_upload-IsSound_example : IsSound proposal_db
unfolding any
install_upload-IsSound_example =
    install_upload-IsSound a published an_author stored none none db db-IsSound scenario_a found_a
      refl proposed proposal_db proposes

proposal_stays_hidden_example :
    (proposal_db.scenarios ≡ db.scenarios)
    × ((j : JsText)
        → find (is_at j current) proposal_db.versions ≡ find (is_at j current) db.versions)
    × (proposed.changed ≡ true
        → find (is_at a pending) proposal_db.versions ≡ some proposed.version.version)
unfolding any
proposal_stays_hidden_example =
    proposal_stays_hidden a published an_author stored none none db db-IsSound scenario_a found_a
      refl proposed proposal_db refl refl proposes

direct_upload_goes_live_example :
    (find (is_at a current) release_db.versions ≡ some released.version.version)
    × (find_scenario a release_db.scenarios
        ≡ some (record scenario_a {
          archive = archive_of released.version.version;
          updated_at = db.now;
        }))
unfolding any
direct_upload_goes_live_example =
    direct_upload_goes_live a published a_moderator stored none none db db-IsSound scenario_a
      found_a refl released release_db refl refl releases

refuses_review : install_upload a review an_author stored none none db ≡ throw in_review
unfolding install_upload
refuses_review = refl

install_upload_refused_example :
    ((in_review ≡ in_review) × (review ≡ review))
    ⊎ ((in_review ≡ too_many) × (max_versions ≤ count_if (of_scenario a) db.versions))
unfolding any
install_upload_refused_example =
    install_upload_refused a review an_author stored none none db db-IsSound scenario_a found_a refl
      in_review refuses_review

found_1 : find (is_version a 1) db.versions ≡ some version_1
unfolding find text_eq
found_1 = refl

not_current_1 : version_1.state ≢ current
not_current_1 h = cc

promote_effect_example :
    (db' : Db) × (promote a version_1 db ≡ ok (tt, db'))
    × IsSound db'
    × (find (is_at a current) db'.versions ≡ some (record version_1 { state = current }))
    × ((j : JsText)
        → text_eq a j ≡ false
        → find (is_at j current) db'.versions ≡ find (is_at j current) db.versions)
    × ((s : Scenario) → find_scenario a db'.scenarios ≡ some s → s.archive ≡ archive_of version_1)
promote_effect_example = promote_effect db db-IsSound a version_1 found_1 not_current_1

gets_1 : get_version_by_param a (b'1' ∷ []) db ≡ ok (shown db.keys version_1, db)
unfolding get_version_by_param get_version is_version_id number_of number_from all is_digit find
    text_eq
gets_1 = refl
