-- ===== src/Routes/Previews.antt =====
-- backend/routes/previews.js: a scenario's cover, with `requireScenarioEditor` of backend/auth.js. The
-- comparison of the aspect ratio and the hash of the bytes are parameters, as in PreviewImage and
-- Storage.Commit.
use virtual_lab.Prelude.{ℕ, Bool, not, none, some, List, [], ◌∷◌, if◌then◌else◌}
use virtual_lab.JsText.{JsText, utf16, is_empty}
use virtual_lab.HttpError.{describe_error}
use virtual_lab.Db.Rows.{Db, Scenario, text, number, flag}
use virtual_lab.Db.Tx.{Tx, ok, throw, in_transaction, pure, throw_if, modify, ◌>>=◌, ◌>>◌}
use virtual_lab.Db.Find.{find_scenario, update_scenario}
use virtual_lab.Auth.{Principal, can_edit_scenario}
use virtual_lab.Audit.{record_event}
use virtual_lab.Storage.{Stored}
use virtual_lab.Storage.Collect.{Object}
use virtual_lab.Storage.Commit.{commit_preview}
use virtual_lab.PreviewImage.{Kind, png, jpg, Inspected, inspect_preview}
use virtual_lab.Workflow.{no_scenario}
use virtual_lab.Routes.{Response, failed, answer_with}
use virtual_lab.Routes.Versions.{lock_scenario, not_yours}

-- `requireScenarioEditor`, in front of a handler of any state in which the tables stand.
unfoldable pub require_scenario_editor :
    {A S : Type 0} → Principal → JsText → Db → (S → Response A × S) → S → Response A × S
require_scenario_editor principal id db handler s = elim (find_scenario id db.scenarios) [
  | none ↦ (failed (describe_error no_scenario), s)
  | some row ↦
      if can_edit_scenario principal row.owner_key_id
      then handler s
      else (failed (describe_error not_yours), s)
]

-- What multer made of the body.
pub data Received : Type 0 where
  file : List ℕ → Received
  no_file too_large malformed : Received

-- `lockEditable`
unfoldable pub lock_editable : JsText → Principal → Tx JsText
lock_editable id principal = do
  row ← lock_scenario id
  throw_if (not (can_edit_scenario principal row.owner_key_id)) not_yours
  pure row.card.image_url

-- UPDATE scenarios SET image_url = $2, updated_at = NOW()
abbrev pub covered : JsText → ℕ → Scenario → Scenario
covered url now s = record s { card = record s.card { image_url = url }; updated_at = now }

abbrev pub set_cover : JsText → JsText → Tx (Unit {0})
set_cover id url =
    modify (λ db. record db { scenarios = update_scenario id (covered url db.now) db.scenarios })

unfoldable pub cover_work : Principal → JsText → Stored → Inspected → Tx (Unit {0})
cover_work principal id stored info = do
  previous ← lock_editable id principal
  set_cover id stored.url
  record_event principal (utf16 "scenario.preview") (some id) (
      (utf16 "imageUrl", text stored.url)
      ∷ (utf16 "bytes", number stored.bytes)
      ∷ (utf16 "width", number info.width)
      ∷ (utf16 "height", number info.height)
      ∷ (utf16 "deduplicated", flag stored.deduplicated)
      ∷ (utf16 "previous", text previous)
      ∷ [])

unfoldable pub uncover_work : Principal → JsText → Tx (Unit {0})
uncover_work principal id = do
  previous ← lock_editable id principal
  if is_empty previous then pure tt else (do
    set_cover id []
    record_event principal (utf16 "scenario.preview.remove") (some id)
        ((utf16 "previous", text previous) ∷ []))

-- The tables and the objects of the store of covers.
pub record Gallery : Type 0 where
  pub db : Db
  pub objects : List Object

abbrev pub extension : Kind → JsText
extension png = utf16 "png"
extension jpg = utf16 "jpg"

abbrev refused : {A : Type 0} → JsText → Response A
refused message = failed (record { status = 400; message = message })

module _ (aspect_is_off : ℕ → ℕ → Bool) (hash_of : List ℕ → JsText) where
  -- The handler of POST, behind its gates; `{ imageUrl, warnings }` is its answer.
  unfoldable pub post_cover :
      Principal → JsText → List ℕ → ℕ → Gallery → Response (JsText × List JsText) × Gallery
  post_cover principal id bytes time g = elim (inspect_preview aspect_is_off bytes) [
    | throw e ↦ (failed (describe_error e), g)
    | ok info ↦
        let (stored, objects) = commit_preview hash_of bytes (extension info.kind) time g.objects in
        let (result, db) = in_transaction (cover_work principal id stored info) g.db in
        let (response, _) = answer_with (λ _. (stored.url, info.warnings)) (result, db) in
        (response, record { db = db; objects = objects })
  ]

  -- POST /api/scenarios/:id/preview, of a principal that is let in
  unfoldable pub post_preview :
      Principal → JsText → Received → ℕ → Gallery → Response (JsText × List JsText) × Gallery
  post_preview principal id received time g =
      require_scenario_editor principal id g.db
        (λ g. elim received [
          | too_large ↦ (refused (utf16 "Зображення завелике: максимум 5 МіБ"), g)
          | malformed ↦ (refused (utf16 "Некоректне завантаження файлу"), g)
          | no_file ↦ (refused (utf16 "Очікується файл у полі \"preview\""), g)
          | file bytes ↦ post_cover principal id bytes time g
        ])
        g

-- DELETE /api/scenarios/:id/preview
unfoldable pub delete_preview : Principal → JsText → Db → Response (Unit {0}) × Db
delete_preview principal id db =
    require_scenario_editor principal id db
      (λ db. answer_with (λ u. u) (in_transaction (uncover_work principal id) db)) db
