-- ===== src/Versions/Uploads.antt =====
-- backend/versions.js: `installUpload`.
use virtual_lab.Prelude.{
  ℕ, ◌-◌, Bool, true, false, not, ◌&&◌, Option, none, some, List, if◌then◌else◌, leb, find, keep,
  length,
}
use virtual_lab.JsText.{JsText, utf16, text_eq}
use virtual_lab.HttpError.{Failure, http_error}
use virtual_lab.Db.Rows.{
  Db, Version, VersionState, current, pending, state_eq, Status, review, published, status_eq, Role,
  author, Checks,
}
use virtual_lab.Db.Tx.{Tx, pure, gets, throw_if, modify, ◌>>=◌, ◌>>◌}
use virtual_lab.Auth.{Principal}
use virtual_lab.Storage.{Stored}
use virtual_lab.Versions.History.{
  Manifest, Shown, archive_current, delete_version, get_version, insert_version, max_versions,
  of_scenario, point_scenario_at,
}

pub record Installed : Type 0 where
  pub version : Shown
  pub state : VersionState
  pub changed : Bool

abbrev pub has_sha : JsText → Option Version → Bool
has_sha sha none = false
has_sha sha (some v) = text_eq v.sha256 sha

abbrev pub is_some : Option Version → Bool
is_some none = false
is_some (some _) = true

-- `scenario.status === 'published' && principal.role === 'author'`
abbrev pub is_proposal : Status → Role → Bool
is_proposal published author = true
is_proposal _ _ = false

unfoldable pub in_review : Failure
in_review =
    http_error 409
      (utf16 "Сценарій на перевірці: відкличте з перевірки, щоб завантажити новий архів")

unfoldable pub too_many : Failure
too_many = http_error 409 (utf16 "Забагато версій: максимум 50 на сценарій, видаліть непотрібні")

abbrev pub manifest_id_of : Option Manifest → Option JsText
manifest_id_of none = none
manifest_id_of (some m) = some m.id

abbrev pub manifest_version_of : Option Manifest → Option JsText
manifest_version_of none = none
manifest_version_of (some m) = some m.version

abbrev pub engine_version_of : Option Manifest → Option JsText
engine_version_of none = none
engine_version_of (some m) = m.engine_version

-- `manifest?.graded === true`
abbrev pub graded_of : Option Manifest → Bool
graded_of none = false
graded_of (some m) = elim m.graded [ none ↦ false | some b ↦ b ]

-- `[current, asPending ? pending : null].find(v => v?.sha256 === stored.sha256)`
abbrev pub same_bytes : Option Version → Option Version → JsText → Option Version
same_bytes cur pend sha = if has_sha sha cur then cur else if has_sha sha pend then pend else none

-- `dropsPending`
abbrev pub drops_pending : Option Version → Status → Bool → Bool
drops_pending pend status as_pending =
    is_some pend && not (status_eq status published && not as_pending)

abbrev pub drop_row : Bool → Option Version → List Version → List Version
drop_row false pend vs = vs
drop_row true none vs = vs
drop_row true (some v) vs = delete_version v.id vs

-- The row that an upload inserts.
abbrev pub new_version :
    JsText → Principal → Stored → Option Manifest → Option Checks → VersionState → Db → Version
new_version id principal stored manifest checks state db = record {
  id = db.next_version;
  scenario_id = id;
  sha256 = stored.sha256;
  bytes = stored.bytes;
  manifest_id = manifest_id_of manifest;
  manifest_version = manifest_version_of manifest;
  engine_version = engine_version_of manifest;
  uploaded_by_key_id = principal.key_id;
  uploaded_at = db.now;
  state = state;
  checks = checks;
  graded = graded_of manifest;
  test_run = none;
}

-- The insertion of `row`, and what the catalog and the caller see of it.
unfoldable pub insert_row : JsText → Version → Bool → Tx Installed
insert_row id row as_pending = do
  insert_version row
  version ← get_version id row.id
  (if as_pending then pure tt else point_scenario_at id version.version)
  pure (record { version = version; state = row.state; changed = true })

-- From the insertion on: `asPending` has been decided, and room has been made.
unfoldable pub insert_upload :
    JsText → Principal → Stored → Option Manifest → Option Checks → Bool → Tx Installed
insert_upload id principal stored manifest checks as_pending = do
  let state = if as_pending then pending else current
  row ← gets (new_version id principal stored manifest checks state)
  insert_row id row as_pending

-- The statements that make room: the pending row that goes, and the current row that is archived.
abbrev pub make_room : JsText → Bool → Bool → Option Version → List Version → List Version
make_room id drops as_pending pend vs =
    let left = drop_row drops pend vs in if as_pending then left else archive_current id left

-- From the comparison of the bytes on, with the current and the pending row and the number of rows.
unfoldable pub install_beside :
    JsText
    → Status
    → Principal
    → Stored
    → Option Manifest
    → Option Checks
    → Option Version
    → Option Version
    → ℕ
    → Tx Installed
install_beside id status principal stored manifest checks cur pend count =
    let as_pending = is_proposal status principal.role in
    let drops = drops_pending pend status as_pending in
    elim (same_bytes cur (if as_pending then pend else none) stored.sha256) [
      | some same ↦ do
        version ← get_version id same.id
        pure (record { version = version; state = same.state; changed = false })
      | none ↦ do
        throw_if (leb max_versions (count - (if drops then 1 else 0))) too_many
        modify (λ db. record db { versions = make_room id drops as_pending pend db.versions })
        insert_upload id principal stored manifest checks as_pending
    ]

unfoldable pub install_upload :
    JsText → Status → Principal → Stored → Option Manifest → Option Checks → Tx Installed
unfolding keep find
install_upload id status principal stored manifest checks = do
  throw_if (status_eq status review) in_review
  existing ← gets (λ db. keep (of_scenario id) db.versions)
  let cur = find (λ v. state_eq v.state current) existing
  let pend = find (λ v. state_eq v.state pending) existing
  install_beside id status principal stored manifest checks cur pend (length existing)
