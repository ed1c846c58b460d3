-- ===== src/HttpError.antt =====
-- backend/http-error.js: failures that a route means to answer with a status.
use virtual_lab.Prelude.{ℕ, ◌&&◌, leb, ltb, if◌then◌else◌}
use virtual_lab.JsText.{JsText, utf16}

-- What a piece of the backend throws: `httpError(status, message)`; an error of the database driver with
-- code 23505 (a unique index refused the row) or 23503 (a foreign key did); any other error, with its
-- message.
pub data Failure : Type 0 where
  http_error : ℕ → JsText → Failure
  unique_violation : Failure
  foreign_key_violation : Failure
  error : JsText → Failure

pub record Described : Type 0 where
  pub status : ℕ
  pub message : JsText

-- An error of the driver or a bug has no `status`, so it is the logged 500 with no detail.
unfoldable pub describe_error : Failure → Described
describe_error (http_error status message) =
    if leb 400 status && ltb status 500
    then record { status = status; message = message }
    else record { status = 500; message = utf16 "Помилка сервера" }
describe_error _ = record { status = 500; message = utf16 "Помилка сервера" }
