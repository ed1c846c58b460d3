-- ===== src/Routes/Intake.antt =====
-- backend/routes/archives.js: POST /api/scenarios/:id/archive from the received file to the answer. The
-- parameters are the ZIP reader, `parse` and the hash, as in ArchiveValidation and Storage.Commit, and
-- the two caps of backend/config.js.
pub mod Clean
use virtual_lab.Prelude.{
  ℕ, Bool, true, false, not, Option, none, some, List, [], ◌∷◌, if◌then◌else◌, ◌==◌,
}
use virtual_lab.JsText.{JsText, utf16}
use virtual_lab.HttpError.{Failure, http_error, Described}
use virtual_lab.Db.Rows.{Db, Checks, status_eq, review, Status}
use virtual_lab.Db.Tx.{Result, ok, throw, in_transaction}
use virtual_lab.Db.Find.{find_scenario}
use virtual_lab.Auth.{Principal, can_edit_scenario}
use virtual_lab.Json.{Json, flag, member, string_of}
use virtual_lab.ArchiveValidation.{
  Decoding, buffer_text, decoder_text, Entry, Stream, Validated, validate_scenario_archive,
}
use virtual_lab.ArchiveChecks.{checks_from_validation}
use virtual_lab.Storage.{Stored}
use virtual_lab.Storage.Collect.{Object}
use virtual_lab.Storage.Commit.{commit_archive}
use virtual_lab.Versions.{Manifest, Shown, Installed}
use virtual_lab.Routes.{Response, sent, failed}
use virtual_lab.Routes.Archives.{upload_work}

-- The tables, the objects of the store, the temp file of the request, and `consumed` of `archiveRoute`.
pub record Site : Type 0 where
  pub db : Db
  pub objects : List Object
  pub temp : Option (List ℕ)
  pub consumed : Bool

-- What multer made of the body: a file, none, a file that reached its limit, or another error of its.
pub data Received : Type 0 where
  file : List ℕ → Received
  no_file too_large malformed : Received

-- The body of the 201.
pub record Uploaded : Type 0 where
  pub id : JsText
  pub stored : Stored
  pub manifest_id : Option JsText
  pub warnings : List JsText
  pub version : Shown

-- The members of a validated manifest that the history keeps.
unfoldable pub manifest_of : Json → Manifest
manifest_of j = record {
  id = elim (string_of (member (utf16 "id") (some j))) [ none ↦ [] | some s ↦ s ];
  version = elim (string_of (member (utf16 "version") (some j))) [ none ↦ [] | some s ↦ s ];
  engine_version = string_of (member (utf16 "engineVersion") (some j));
  graded = elim (member (utf16 "graded") (some j)) [
    | none ↦ none
    | some g ↦ elim g [ flag b ↦ some b | _ ↦ none ]
  ];
}

abbrev refused : {A : Type 0} → ℕ → JsText → Response A
refused status message = failed (record { status = status; message = message })

-- The catch of `archiveRoute`: an error with a status is answered with it, any other with 500.
unfoldable pub caught : {A : Type 0} → Failure → Response A
caught (http_error status message) =
    refused status (if status == 500 then utf16 "Помилка сервера" else message)
caught _ = refused 500 (utf16 "Помилка сервера")

-- The `finally` of `archiveRoute`: `if (!consumed) await storage.discardTemp(file)`
unfoldable pub finish : Site → Site
finish site = if not site.consumed then record site { temp = none } else site

module _ (directory_of : List ℕ → Option (ℕ × List Entry)) (stream_of : List ℕ → Entry → Stream)
    (parse : Decoding → List ℕ → Option Json) (hash_of : List ℕ → JsText)
    (max_entry_bytes max_entries : ℕ) where
  -- The transaction, once the archive is stored.
  unfoldable pub install : Principal → JsText → Validated → Stored → Db → Result Installed × Db
  install principal id v stored = in_transaction (
      upload_work principal id stored (some (manifest_of v.manifest))
        (some (checks_from_validation v stored.bytes)))

  -- `commit` of `archiveRoute`: what `commitArchive` stores it renames or deletes.
  unfoldable pub commit : List ℕ → ℕ → Site → Result Stored × Site
  unfolding commit_archive
  commit bytes time site =
      let (result, objects) = commit_archive hash_of bytes time site.objects in
      elim result [
        | throw e ↦ (throw e, record site { objects = objects })
        | ok stored ↦ (ok stored, record site { objects = objects; temp = none; consumed = true })
      ]

  -- From the validated archive on: `commit`, then the transaction.
  unfoldable pub store_and_install :
      Principal → JsText → List ℕ → Validated → ℕ → Site → Response Uploaded × Site
  unfolding commit install
  store_and_install principal id bytes v time site =
      let (result, site') = commit bytes time site in
      elim result [
        | throw e ↦ (caught e, site')
        | ok stored ↦
            let (installed, db) = install principal id v stored site'.db in
            let after : Site = record site' { db = db } in
            elim installed [
              | throw e ↦ (caught e, after)
              | ok outcome ↦ (
                sent 201 (record {
                  id = id;
                  stored = stored;
                  manifest_id = string_of (member (utf16 "id") (some v.manifest));
                  warnings = v.warnings;
                  version = outcome.version;
                }),
                after,
              )
            ]
      ]

  -- `ingest` of the upload route, with a file.
  unfoldable pub ingest : Principal → JsText → List ℕ → ℕ → Site → Response Uploaded × Site
  ingest principal id bytes time site = elim (find_scenario id site.db.scenarios) [
    | none ↦ (refused 404 (utf16 "Сценарій не знайдено"), site)
    | some row ↦
        if not (can_edit_scenario principal row.owner_key_id)
        then (refused 403 (utf16 "Це не ваш сценарій"), site)
        else if status_eq row.status review
        then (
          refused 409
              (utf16 "Сценарій на перевірці: відкличте з перевірки, щоб завантажити новий архів"),
          site,
        )
        else elim (validate_scenario_archive directory_of stream_of parse bytes (some id)
            max_entry_bytes max_entries) [
              | throw e ↦ (caught e, site)
              | ok v ↦ store_and_install principal id bytes v time site
            ]
  ]

  -- `archiveRoute`
  unfoldable pub archive_route : Principal → JsText → List ℕ → ℕ → Site → Response Uploaded × Site
  archive_route principal id bytes time site =
      let (response, site') =
        ingest principal id bytes time (record site { temp = some bytes; consumed = false }) in
      (response, finish site')

  -- `receiveArchive`, then the route; `max_mib` is the cap on archives in its message.
  unfoldable pub post_archive :
      JsText → Principal → JsText → Received → ℕ → Site → Response Uploaded × Site
  post_archive too_large_answer principal id received time site = elim received [
    | too_large ↦ (refused 413 too_large_answer, site)
    | malformed ↦ (refused 400 (utf16 "Некоректне завантаження файлу"), site)
    | no_file ↦ (refused 400 (utf16 "Очікується файл у полі \"archive\""), site)
    | file bytes ↦ archive_route principal id bytes time site
  ]
