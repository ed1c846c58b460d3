-- ===== src/ArchiveValidation/Refused.antt =====
-- How an archive is refused.
use virtual_lab.Prelude.{ℕ, false, Option, some, List, ◌≡◌, ◌++◌}
use virtual_lab.JsText.{JsText, utf16, decimal}
use virtual_lab.HttpError.{Failure, http_error}
use virtual_lab.Db.Tx.{Result, ok, throw}
use virtual_lab.Json.{member, prints, Json, null}
use virtual_lab.ArchiveValidation.{Decoding, Entry, Stream, read_manifest}

-- Where something is thrown it is an error with status 400.
abbrev pub Refuses400 : {A : Type 0} → Result A → Type 0
Refuses400 r = (e : Failure) → r ≡ throw e → (message : JsText) × (e ≡ http_error 400 message)

crowded : ℕ → JsText
unfolding decimal
crowded max = utf16 "В архіві забагато файлів: максимум " ++ decimal max

module _ (directory_of : List ℕ → Option (ℕ × List Entry)) (stream_of : List ℕ → Entry → Stream)
    (parse : Decoding → List ℕ → Option Json) (file : List ℕ) where
  -- A manifest that the log line throws on: `null`, or one whose `id` or `entryPoint` is an object with a
  -- `toString` of its own, or an array with such an object in it.
  pub data Unloggable : Json → Type 0 where
    no_members : Unloggable null
    silent_id : {m : Json} → prints (member (utf16 "id") (some m)) ≡ false → Unloggable m
    silent_entry_point :
        {m : Json} → prints (member (utf16 "entryPoint") (some m)) ≡ false → Unloggable m

  -- The manifest of the archive is such a one.
  abbrev pub BadManifest : ℕ → Type 0
  BadManifest max =
      (entry : Entry) × (m : Json) × (read_manifest directory_of stream_of parse file entry max
        ≡ ok m)
      × Unloggable m
