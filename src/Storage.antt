-- ===== src/Storage.antt =====
-- backend/storage.js: the content-addressed stores of archives and cover images.
pub mod Collect
pub mod Collected
pub mod Commit
use virtual_lab.Prelude.{ℕ, Bool, ◌++◌}
use virtual_lab.JsText.{JsText, utf16}

-- `publicUrl(sha256)`, the address from which the web server serves an archive
unfoldable pub public_url : JsText → JsText
public_url sha256 = utf16 "/scenarios/" ++ (sha256 ++ utf16 ".zip")

-- The result of `commitArchive`.
pub record Stored : Type 0 where
  pub sha256 : JsText
  pub bytes : ℕ
  pub url : JsText
  pub deduplicated : Bool
