-- ===== src/Storage/Commit.antt =====
-- backend/storage.js: the commit of an uploaded archive and of a cover image. The hash of the bytes is a
-- parameter; errors of the file system are left out.
use virtual_lab.Prelude.{ℕ, Bool, ◌||◌, List, [], ◌∷◌, ◌++◌, length, if◌then◌else◌}
use virtual_lab.JsText.{JsText, utf16}
use virtual_lab.HttpError.{http_error}
use virtual_lab.Db.Tx.{Result, ok, throw}
use virtual_lab.Storage.{public_url, Stored}
use virtual_lab.Storage.Collect.{Object, put}
use virtual_lab.ArchiveValidation.{has_bytes}

-- `isZipFile`
unfoldable pub is_zip_file : List ℕ → Bool
unfolding has_bytes
is_zip_file file =
    has_bytes (0x50 ∷ 0x4b ∷ 0x03 ∷ 0x04 ∷ []) file
    || has_bytes (0x50 ∷ 0x4b ∷ 0x05 ∷ 0x06 ∷ []) file
    || has_bytes (0x50 ∷ 0x4b ∷ 0x07 ∷ 0x08 ∷ []) file

module _ (hash_of : List ℕ → JsText) where
  abbrev object_of : List ℕ → JsText → ℕ → Object
  object_of file ext now = record {
    name = hash_of file ++ utf16 "." ++ ext;
    sha256 = hash_of file;
    bytes = length file;
    mtime_ms = now;
  }

  -- `commitArchive`: the temp file goes into the store under its hash.
  unfoldable pub commit_archive : List ℕ → ℕ → List Object → Result Stored × List Object
  unfolding is_zip_file put public_url
  commit_archive file now objects =
      if is_zip_file file
      then (let (deduplicated, objects') = put (object_of file (utf16 "zip") now) now objects in
          (
            ok (record {
              sha256 = hash_of file;
              bytes = length file;
              url = public_url (hash_of file);
              deduplicated = deduplicated;
            }),
            objects',
          ))
      else (throw (http_error 400 (utf16 "Файл не є ZIP-архівом")), objects)

  -- `commitPreview`: the bytes of an image under their hash and the image's extension.
  unfoldable pub commit_preview : List ℕ → JsText → ℕ → List Object → Stored × List Object
  unfolding put
  commit_preview file ext now objects =
      let (deduplicated, objects') = put (object_of file ext now) now objects in
      (
        record {
          sha256 = hash_of file;
          bytes = length file;
          url = utf16 "/previews/" ++ hash_of file ++ utf16 "." ++ ext;
          deduplicated = deduplicated;
        },
        objects',
      )
