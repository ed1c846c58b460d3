-- ===== src/Versions/History.antt =====
-- backend/versions.js: reading the history, pointing the catalog at a version, promoting, removing.
use virtual_lab.Prelude.{
  ℕ, suc, Bool, true, false, not, ◌&&◌, ◌||◌, Option, none, some, List, [], ◌∷◌, map, if◌then◌else◌,
  leb, ltb, ◌==◌, find, keep, any, length, all,
}
use virtual_lab.JsText.{JsText, utf16, text_eq, is_digit, number_of}
use virtual_lab.HttpError.{Failure, http_error, unique_violation, foreign_key_violation}
use virtual_lab.Db.Rows.{Db, Archive, Version, current, archived, state_eq, Key}
use virtual_lab.Db.Tx.{Tx, gets, or_fail, throw_if, modify, ◌>>=◌, ◌>>◌}
use virtual_lab.Db.Find.{update_scenario, is_at}
use virtual_lab.Storage.{public_url}

abbrev pub max_versions : ℕ
max_versions = 50

-- The members of a validated manifest that a version keeps.
pub record Manifest : Type 0 where
  pub id : JsText
  pub version : JsText
  pub engine_version : Option JsText
  pub graded : Option Bool

-- A version as the API shows it.
pub record Shown : Type 0 where
  pub version : Version
  pub uploaded_by_label : Option JsText
  pub url : JsText

-- LEFT JOIN publish_keys k ON k.id = v.uploaded_by_key_id
unfoldable pub label_of : Option ℕ → List Key → Option JsText
label_of none keys = none
label_of (some id) [] = none
label_of (some id) (k ∷ keys) = if k.id == id then some k.label else label_of (some id) keys

unfoldable pub shown : List Key → Version → Shown
shown keys v = record {
  version = v;
  uploaded_by_label = label_of v.uploaded_by_key_id keys;
  url = public_url v.sha256;
}

-- ORDER BY v.uploaded_at DESC, v.id DESC
abbrev pub newer : Version → Version → Bool
newer v w = ltb w.uploaded_at v.uploaded_at || v.uploaded_at == w.uploaded_at && leb w.id v.id

unfoldable pub insert_newest : Version → List Version → List Version
insert_newest v [] = v ∷ []
insert_newest v (w ∷ ws) = if newer v w then v ∷ w ∷ ws else w ∷ insert_newest v ws

unfoldable pub newest_first : List Version → List Version
newest_first [] = []
newest_first (v ∷ vs) = insert_newest v (newest_first vs)

abbrev pub of_scenario : JsText → Version → Bool
of_scenario id v = text_eq v.scenario_id id

unfoldable pub list_versions : JsText → Db → List Shown
unfolding keep
list_versions id db = map (shown db.keys) (newest_first (keep (of_scenario id) db.versions))

unfoldable pub no_version : Failure
no_version = http_error 404 (utf16 "Версію не знайдено")

-- `v.id = $1 AND v.scenario_id = $2`
abbrev pub is_version : JsText → ℕ → Version → Bool
is_version id vid v = v.id == vid && text_eq v.scenario_id id

unfoldable pub get_version : JsText → ℕ → Tx Shown
unfolding find
get_version id vid = do
  row ← or_fail (← gets (λ db. find (is_version id vid) db.versions)) no_version
  gets (λ db. shown db.keys row)

-- `/^[1-9][0-9]{0,8}$/`
unfoldable pub is_version_id : JsText → Bool
unfolding all is_digit
is_version_id [] = false
is_version_id (c ∷ s) = leb b'1' c && leb c b'9' && all is_digit s && leb (length s) 8

unfoldable pub get_version_by_param : JsText → JsText → Tx Shown
get_version_by_param id raw = do
  throw_if (not (is_version_id raw)) no_version
  get_version id (number_of raw)

-- The columns that `pointScenarioAt` writes.
abbrev pub archive_of : Version → Archive
archive_of v = record {
  scenario_url = public_url v.sha256;
  sha256 = some v.sha256;
  bytes = some v.bytes;
  manifest_id = v.manifest_id;
  manifest_version = v.manifest_version;
  manifest_engine_version = v.engine_version;
  graded = v.graded;
  is_local = true;
}

unfoldable pub point_scenario_at : JsText → Version → Tx (Unit {0})
point_scenario_at id v = modify (λ db. record db {
  scenarios =
      update_scenario id (λ s. record s { archive = archive_of v; updated_at = db.now })
        db.scenarios;
})

-- UPDATE scenario_versions SET state = 'archived' WHERE scenario_id = $1 AND state = 'current'
abbrev pub archive_row : JsText → Version → Version
archive_row id v = if is_at id current v then record v { state = archived } else v

unfoldable pub archive_current : JsText → List Version → List Version
archive_current id [] = []
archive_current id (v ∷ vs) = archive_row id v ∷ archive_current id vs

-- DELETE FROM scenario_versions WHERE id = $1
unfoldable pub delete_version : ℕ → List Version → List Version
unfolding keep
delete_version vid = keep (λ v. not (v.id == vid))

-- UPDATE scenario_versions SET state = 'current' WHERE id = $1
abbrev pub current_row : ℕ → Version → Version
current_row vid v = if v.id == vid then record v { state = current } else v

unfoldable pub mark_current : ℕ → List Version → List Version
mark_current vid [] = []
mark_current vid (v ∷ vs) = current_row vid v ∷ mark_current vid vs

-- The same statement with idx_scenario_versions_one_current.
unfoldable pub set_current : ℕ → Tx (Unit {0})
unfolding find any
set_current vid = do
  row ← gets (λ db. find (λ v. v.id == vid) db.versions)
  clash ← gets (λ db. elim row [
    | none ↦ false
    | some v ↦ any (λ w. is_at v.scenario_id current w && not (w.id == vid)) db.versions
  ])
  throw_if clash unique_violation
  modify (λ db. record db { versions = mark_current vid db.versions })

abbrev pub key_exists : Option ℕ → List Key → Bool
key_exists none keys = true
key_exists (some id) keys = any (λ k. k.id == id) keys

-- INSERT INTO scenario_versions, with the two unique indexes and the two foreign keys.
unfoldable pub insert_version : Version → Tx (Unit {0})
unfolding any
insert_version v = do
  known ← gets (λ db. any (λ s. text_eq s.id v.scenario_id) db.scenarios)
  uploader ← gets (λ db. key_exists v.uploaded_by_key_id db.keys)
  throw_if (not (known && uploader)) foreign_key_violation
  clash ← gets (λ db. any (is_at v.scenario_id v.state) db.versions)
  throw_if (not (state_eq v.state archived) && clash) unique_violation
  modify (λ db. record db { versions = v ∷ db.versions; next_version = suc db.next_version })

-- Accept and restore: a pending or archived version becomes the current one.
unfoldable pub promote : JsText → Version → Tx (Unit {0})
promote id v = do
  modify (λ db. record db { versions = archive_current id db.versions })
  set_current v.id
  point_scenario_at id v

unfoldable pub remove_version : ℕ → Tx (Unit {0})
remove_version vid = modify (λ db. record db { versions = delete_version vid db.versions })
