-- ===== src/Routes/Archives.antt =====
-- backend/routes/archives.js: the transaction of POST /api/scenarios/:id/archive, once the archive has
-- been validated and stored. The validator's report and the stored object are its arguments.
use virtual_lab.Prelude.{not, Option, some, List, [], ◌∷◌}
use virtual_lab.JsText.{JsText, utf16}
use virtual_lab.Db.Rows.{Checks, Detail, text, number, flag, state_name}
use virtual_lab.Db.Tx.{Tx, pure, throw_if, ◌>>=◌, ◌>>◌}
use virtual_lab.Auth.{Principal, can_edit_scenario}
use virtual_lab.Audit.{record_event}
use virtual_lab.Storage.{Stored}
use virtual_lab.Versions.{Manifest, Installed, install_upload}
use virtual_lab.Routes.Versions.{lock_scenario, not_yours}

unfoldable pub upload_details : Stored → Installed → List (JsText × Detail)
upload_details stored outcome =
    (utf16 "sha256", text stored.sha256)
    ∷ (utf16 "bytes", number stored.bytes)
    ∷ (utf16 "deduplicated", flag stored.deduplicated)
    ∷ (utf16 "state", text (state_name outcome.state))
    ∷ (utf16 "versionId", number outcome.version.version.id)
    ∷ []

unfoldable pub upload_work :
    Principal → JsText → Stored → Option Manifest → Option Checks → Tx Installed
upload_work principal id stored manifest checks = do
  row ← lock_scenario id
  throw_if (not (can_edit_scenario principal row.owner_key_id)) not_yours
  outcome ← install_upload id row.status principal stored manifest checks
  record_event principal (utf16 "scenario.archive") (some id) (upload_details stored outcome)
  pure outcome
