-- ===== src/Lib.antt =====
-- The publishing core of the backend of virtual-lab (backend/, Express over PostgreSQL): the status of
-- a scenario, the history of its archives, the checks that an archive and a catalog row pass, who may
-- change them, and the counters and caches around that.
--
-- A request is authenticated by Credentials, limited by RateLimits, and answered by a handler of
-- Routes, which runs its work in one transaction (Db.Tx). The work of a status route and of a bulk
-- request is Workflow.apply_transition; that of an upload is Versions.install_upload; accept and
-- restore are Versions.promote. Each change writes a row of the journal (Audit). An upload is
-- validated (ArchiveValidation) before its transaction, a body by CatalogInput. Safety puts the writes
-- of the catalog together: the requests that its steps name, among them those of categories and, of
-- catalog-admin.js, a creation, a deletion and a change, and covers; a moderator's change that gives
-- scenarioUrl sets it without a version, so it is no step, and a creation from an archive is not one.
--
--  Prelude, JsText    library names, list lemmas; JavaScript strings as UTF-16 code units
--  Json               JSON values: members, truthiness, JSON.stringify, String
--  CatalogInput       backend/catalog-input.js: the validators of bodies
--  PlayerFormats      backend/player-formats.js: what the student player reads
--  ArchiveValidation  backend/archive-validation.js: openArchive, validateScenarioArchive, the listing
--  ArchiveChecks      backend/archive-checks.js: the checks shown to a moderator
--  HttpError          backend/http-error.js: Failure is what is thrown, describe_error what is sent
--  Db                 the tables as records of lists (Db.Rows), backend/db.js (Db.Tx), shared statements
--  Auth, Credentials  backend/auth.js: rights; resolve_principal, authenticate, optional_authenticate
--  Audit              backend/audit.js: record, listActivity
--  TestRunInput       backend/test-run-input.js: validateTestRun
--  TrustProxy         backend/trust-proxy.js: parseTrustProxy
--  Workflow           backend/workflow.js: transitions, apply_transition, parse_reject_note
--  Storage            backend/storage.js, backend/routes/storage-admin.js: objects, commits, garbage collection
--  Versions           backend/versions.js: list, get, install_upload, promote, remove_version
--  Serving            what the writes of the history keep of what students see
--  Routes             backend/routes: workflow.js, versions.js, bulk.js, previews.js
--  Routes.Intake      backend/routes/archives.js: the upload, from the received file to the answer
--  Routes.Catalog     backend/routes/catalog-admin.js: POST, PUT and DELETE of a row
--  Routes.Categories  backend/routes/categories.js
--  Routes.Keys        backend/routes/keys.js
--  Safety             the invariant of the catalog over sequences of the requests that Steps names
--  RateLimits         backend/rate-limits.js: the window counter and the limit on uploads
--  GradeCache         backend/lti/grade-cache.js: the bounded maps and the tickets
--  PreviewImage       backend/preview-image.js: pngSize, jpegSize, inspectPreview
--  Tests              a small catalog on which definitions run and theorems are applied
--
-- State is passed explicitly. A transaction is a function from the tables to a failure or a value with
-- the new tables; in_transaction restores the tables on a failure. A SELECT is a search of a list, an
-- UPDATE a map over it, a DELETE a filter, an INSERT a new head with the next number of the sequence.
-- The partial unique indexes and the foreign keys of backend/migrations/010_status_and_versions.sql
-- are checked by insert_version and set_current, which throw as the driver would. SELECT … FOR UPDATE
-- orders the transactions on one scenario, so a history of requests is a sequence of steps
-- (Safety.Steps).
--
-- Every function is structurally recursive; fuel is taken in two places: JsText.decimal has one more
-- than the number, which is more than its digits, and PreviewImage.jpeg_size one more turn than there
-- are bytes, since each turn advances (jpeg_size-IsAnswer). Numbers are natural: times in
-- milliseconds, sizes in bytes. None of the modelled code works on integers of a fixed width.
--
-- Parameters: SHA-256 in hexadecimal and the UTF-8 bytes of a string (Credentials), the equality of
-- keys (RateLimits), the comparison of an aspect ratio (PreviewImage), the ZIP reader node-stream-zip
-- and the two ways that bytes become JSON, JSON.parse of a buffer and of the text of TextDecoder
-- (ArchiveValidation, PlayerFormats), the driver's text of a value that is no string (Routes.Catalog),
-- the collation of slugs (Routes.Categories), the random token of a key (Routes.Keys), isIP
-- (TrustProxy), what multer makes of a body (Routes.Intake, Routes.Previews). Not modelled: errors of
-- the database driver other than the constraints above, logging, the columns that only describe a
-- scenario's history (created_at), and the parts of the repository that the files here do not name,
-- among them from-archive uploads, LTI launches and the Angular frontend.
pub mod Prelude
pub mod JsText
pub mod Json
pub mod CatalogInput
pub mod PlayerFormats
pub mod HttpError
pub mod Db
pub mod Auth
pub mod Audit
pub mod Workflow
pub mod Storage
pub mod Versions
pub mod Serving
pub mod Routes
pub mod Safety
pub mod RateLimits
pub mod Credentials
pub mod TestRunInput
pub mod TrustProxy
pub mod GradeCache
pub mod PreviewImage
pub mod ArchiveValidation
pub mod ArchiveChecks
pub mod Tests
