-- ===== src/ArchiveValidation.antt =====
-- backend/archive-validation.js: the checks of an uploaded archive. A file is its bytes. Parameters: the
-- reader of ZIP archives (node-stream-zip), which answers how many records an archive's directory has,
-- and its entries in the order of its map, and streams one entry in pieces, and `parse`, the decoding of bytes as UTF-8 JSON.
pub mod EndRecord
pub mod Entries
pub mod Fields
pub mod Accepted
pub mod Refused
use virtual_lab.Prelude.{
  ℕ, zero, suc, ◌+◌, ◌-◌, ◌*◌, Bool, true, false, not, ◌&&◌, ◌||◌, Option, none, some, List, [],
  ◌∷◌, ◌++◌, map, if◌then◌else◌, leb, ltb, ◌==◌, any, keep, find, length, ◌orelse◌,
}
use virtual_lab.JsText.{JsText, utf16, text_eq, is_empty, decimal}
use virtual_lab.HttpError.{Failure, http_error, error}
use virtual_lab.Db.Tx.{Result, ok, throw}
use virtual_lab.Json.{
  Json, null, flag, text, member, string_of, is_truthy, string_from, is_given, has_text, prints,
}
use virtual_lab.PlayerFormats.{is_scene_file, scene_file_problem, manifest_version_problem}
use virtual_lab.PreviewImage.{byte}

abbrev pub manifest_name : JsText
manifest_name = utf16 "manifest.json"

-- `throw new ArchiveInvalid(message)`: an error with status 400
abbrev pub invalid : {A : Type 0} → JsText → Result A
invalid message = throw (http_error 400 message)

infixl 5 ◌>>=◌
unfoldable pub ◌>>=◌ : {A B : Type 0} → Result A → (A → Result B) → Result B
ok a >>= f = f a
throw e >>= f = throw e

-- `if (condition) throw new ArchiveInvalid(message)`
unfoldable pub refuse_if : Bool → JsText → Result (Unit {0})
refuse_if true message = invalid message
refuse_if false message = ok tt

-- EOCD_SIGNATURE, little-endian
abbrev pub signature : List ℕ
signature = 0x50 ∷ 0x4b ∷ 0x05 ∷ 0x06 ∷ []

abbrev pub search_bytes : ℕ
search_bytes = 22 + 0xffff

unfoldable pub drop_bytes : ℕ → List ℕ → List ℕ
drop_bytes zero b = b
drop_bytes (suc n) [] = []
drop_bytes (suc n) (_ ∷ b) = drop_bytes n b

-- Whether a buffer starts with the bytes.
unfoldable pub has_bytes : List ℕ → List ℕ → Bool
has_bytes [] b = true
has_bytes (_ ∷ _) [] = false
has_bytes (x ∷ xs) (y ∷ b) = x == y && has_bytes xs b

-- `tail.readUInt16LE(at)`
unfoldable pub read_u16le : List ℕ → ℕ → Option ℕ
unfolding byte
read_u16le b at = elim (byte b at) [
  | none ↦ none
  | some lo ↦ elim (byte b (suc at)) [ none ↦ none | some hi ↦ some (lo + hi * 256) ]
]

-- The loop over the `n` places below, from the last to the first.
unfoldable pub search_end : List ℕ → ℕ → Option ℕ
unfolding has_bytes drop_bytes read_u16le
search_end tail zero = none
search_end tail (suc at) =
    let rest = search_end tail at in
    if has_bytes signature (drop_bytes at tail) then read_u16le tail (at + 10) else rest

-- `declaredEntryCount`; the loop starts 22 bytes before the end.
unfoldable pub declared_entry_count : List ℕ → Option ℕ
unfolding search_end
declared_entry_count file =
    let tail = drop_bytes (length file - search_bytes) file in search_end tail (length tail - 21)

-- An entry of the central directory, by what it declares.
pub record Entry : Type 0 where
  pub name : JsText
  pub size : ℕ
  pub is_directory : Bool

-- What a stream delivers: pieces, then its end or an error.
pub data Stream : Type 0 where
  closed broken : Stream
  chunk : List ℕ → Stream → Stream

-- What was read of one entry: all of it, more than the cap, or an error on the way.
pub data Reading : Type 0 where
  complete : List ℕ → Reading
  too_large unreadable : Reading

-- The loop of `readEntryCapped`; `held` is what the pieces so far add up to.
unfoldable pub read_chunks : ℕ → List ℕ → Stream → Reading
read_chunks max held closed = complete held
read_chunks max held broken = unreadable
read_chunks max held (chunk piece s) =
    let rest = read_chunks max (held ++ piece) s in
    if ltb max (length held + length piece) then too_large else rest

-- `readEntryCapped`
unfoldable pub read_entry_capped : Entry → Stream → ℕ → Reading
unfolding read_chunks
read_entry_capped entry stream max =
    if ltb max entry.size then too_large else read_chunks max [] stream

unfoldable pub too_large_message : JsText → ℕ → JsText
unfolding decimal
too_large_message name max =
    utf16 "Файл \""
    ++ name
    ++ utf16 "\" завеликий: максимум "
    ++ decimal max
    ++ utf16 " байт після розпакування"

abbrev rebuild_hint : JsText
rebuild_hint = utf16 "Зберіть архів за допомогою ScenarioCreator."

abbrev not_text : JsText → JsText
not_text field =
    utf16 "Поле \"" ++ field ++ utf16 "\" у manifest.json має бути рядком. " ++ rebuild_hint

-- `typeof manifest[field] !== 'string'`
abbrev pub text_problem : JsText → Option Json → Option JsText
text_problem field j = elim (string_of j) [ some _ ↦ none | none ↦ some (not_text field) ]

-- `manifest[field] != null && typeof manifest[field] !== 'string'`
abbrev pub optional_text_problem : JsText → Option Json → Option JsText
optional_text_problem field none = none
optional_text_problem field (some null) = none
optional_text_problem field j = text_problem field j

-- `manifest[field] != null && manifest[field].length > max`, of a string
unfoldable pub length_problem : JsText → ℕ → Option Json → Option JsText
unfolding decimal
length_problem field max j = elim (string_of j) [
  | none ↦ none
  | some s ↦
      if ltb max (length s)
      then some (
          utf16 "Поле \""
          ++ field
          ++ utf16 "\" у manifest.json задовге: максимум "
          ++ decimal max
          ++ utf16 " символів")
      else none
]

-- `manifestFieldProblem`
unfoldable pub manifest_field_problem : Option Json → Option JsText
unfolding length_problem
manifest_field_problem m =
    text_problem (utf16 "id") (member (utf16 "id") m)
    orelse text_problem (utf16 "name") (member (utf16 "name") m)
    orelse text_problem (utf16 "version") (member (utf16 "version") m)
    orelse optional_text_problem (utf16 "engineVersion") (member (utf16 "engineVersion") m)
    orelse length_problem (utf16 "id") 255 (member (utf16 "id") m)
    orelse length_problem (utf16 "version") 50 (member (utf16 "version") m)
    orelse length_problem (utf16 "engineVersion") 100 (member (utf16 "engineVersion") m)

abbrev pub required_fields : List JsText
required_fields =
    utf16 "manifestVersion" ∷ utf16 "id" ∷ utf16 "name" ∷ utf16 "version" ∷ utf16 "entryPoint" ∷ []

-- `names.join(', ')`
unfoldable pub join_names : List JsText → JsText
join_names [] = []
join_names (s ∷ []) = s
join_names (s ∷ ss) = s ++ utf16 ", " ++ join_names ss

-- `.replace(/^\/+/, '')`
unfoldable pub drop_slashes : JsText → JsText
drop_slashes [] = []
drop_slashes (c ∷ s) = let rest = drop_slashes s in if c == b'/' then rest else c ∷ s

-- Where the entry point stands in the archive; it has a text, since it was logged.
unfoldable pub entry_path : Option Json → JsText
unfolding drop_slashes string_from
entry_path none = utf16 "scripts/undefined"
entry_path (some j) = utf16 "scripts/" ++ drop_slashes (string_from j)

-- `graded !== undefined && typeof graded !== 'boolean'`
abbrev pub is_not_flag : Option Json → Bool
is_not_flag none = false
is_not_flag (some (flag _)) = false
is_not_flag (some _) = true

unfoldable pub problem_of : Option JsText → Result (Unit {0})
problem_of none = ok tt
problem_of (some message) = invalid message

-- One check, then the next.
infixr 4 ◌andthen◌
unfoldable pub ◌andthen◌ : Result (Unit {0}) → Result (Unit {0}) → Result (Unit {0})
ok _ andthen m = m
throw e andthen m = throw e

-- How bytes become the text that is parsed: `JSON.parse(buffer)` keeps a byte order mark, which is no
-- JSON; `new TextDecoder().decode` drops it.
pub data Decoding : Type 0 where
  buffer_text decoder_text : Decoding

-- What an accepted archive is answered with.
pub record Validated : Type 0 where
  pub manifest : Json
  pub entries : List JsText
  pub warnings : List JsText

abbrev pub includes : List Entry → JsText → Bool
includes entries name = any (λ e. text_eq e.name name) entries

-- The log line in front of the checks: `null` has no members, and a member may have no text.
unfoldable pub log_manifest : Json → Result (Unit {0})
unfolding has_text member
log_manifest null = throw (error (utf16 "Cannot read properties of null (reading 'id')"))
log_manifest m =
    if prints (member (utf16 "id") (some m)) && prints (member (utf16 "entryPoint") (some m))
    then ok tt
    else throw (error (utf16 "Cannot convert object to primitive value"))

-- The checks of the manifest itself, up to the entry point.
unfoldable pub check_manifest : Json → List Entry → Result (Unit {0})
unfolding join_names manifest_field_problem manifest_version_problem entry_path
check_manifest manifest entries =
    let m : Option Json = some manifest in
    let missing = keep (λ field. not (is_truthy (member field m))) required_fields in
    let path = entry_path (member (utf16 "entryPoint") m) in
    refuse_if (ltb 0 (length missing))
      (utf16 "У manifest.json відсутні поля: " ++ join_names missing)
    andthen problem_of (manifest_field_problem m)
    andthen problem_of (manifest_version_problem (member (utf16 "manifestVersion") m))
    andthen refuse_if (is_not_flag (member (utf16 "graded") m))
        (utf16 "Поле graded у manifest.json має бути true або false")
    andthen refuse_if (not (includes entries path))
        (utf16 "Точка входу \"" ++ path ++ utf16 "\" відсутня в архіві")

-- The drift between the manifest's id and the catalog's.
unfoldable pub warnings_of : Option Json → Option JsText → List JsText
unfolding text_eq
warnings_of id none = []
warnings_of id (some catalog_id) = elim (string_of id) [
  | none ↦ []
  | some s ↦
      if is_empty catalog_id || text_eq s catalog_id
      then []
      else (utf16 "id у маніфесті (\""
          ++ s
          ++ utf16 "\") відрізняється від id у каталозі (\""
          ++ catalog_id
          ++ utf16 "\")")
        ∷ []
]

module _ (directory_of : List ℕ → Option (ℕ × List Entry)) where
  unfoldable pub too_many : {A : Type 0} → ℕ → Result A
  unfolding decimal
  too_many max = invalid (utf16 "В архіві забагато файлів: максимум " ++ decimal max)

  -- `await declaredEntryCount(…) > maxEntries`
  abbrev pub declares_more : List ℕ → ℕ → Bool
  declares_more file max = elim (declared_entry_count file) [ none ↦ false | some n ↦ ltb max n ]

  -- `openArchive`
  unfoldable pub open_archive : List ℕ → ℕ → Result (List Entry)
  unfolding declared_entry_count too_many
  open_archive file max =
      if declares_more file max then too_many max else elim (directory_of file) [
        | none ↦ invalid (utf16 "Файл не читається як ZIP-архів")
        | some (count, entries) ↦ if ltb max count then too_many max else ok entries
      ]

module _ (directory_of : List ℕ → Option (ℕ × List Entry)) (stream_of : List ℕ → Entry → Stream)
    (parse : Decoding → List ℕ → Option Json) where
  -- The manifest, as the catch around its reading leaves it.
  unfoldable pub read_manifest : List ℕ → Entry → ℕ → Result Json
  unfolding read_entry_capped too_large_message
  read_manifest file entry max = elim (read_entry_capped entry (stream_of file entry) max) [
    | too_large ↦ invalid (too_large_message entry.name max)
    | unreadable ↦ invalid (utf16 "manifest.json не є валідним JSON")
    | complete bytes ↦ elim (parse buffer_text bytes) [
      | none ↦ invalid (utf16 "manifest.json не є валідним JSON")
      | some j ↦ ok j
    ]
  ]

  -- One turn of the loop over the entries.
  unfoldable pub check_entry : List ℕ → ℕ → Entry → Result (Unit {0})
  unfolding read_entry_capped too_large_message scene_file_problem is_scene_file
  check_entry file max entry =
      if entry.is_directory || not (is_scene_file entry.name)
      then ok tt
      else elim (read_entry_capped entry (stream_of file entry) max) [
        | too_large ↦ invalid (too_large_message entry.name max)
        | unreadable ↦ invalid (
            utf16 "Файл \""
            ++ entry.name
            ++ utf16 "\" не читається з архіву (пошкоджений або стиснений непідтримуваним методом)")
        | complete bytes ↦ problem_of (scene_file_problem (parse decoder_text) entry.name bytes)
      ]

  unfoldable pub check_entries : List ℕ → ℕ → List Entry → Result (Unit {0})
  unfolding check_entry
  check_entries file max [] = ok tt
  check_entries file max (entry ∷ entries) =
      let rest = check_entries file max entries in check_entry file max entry andthen rest

  unfoldable pub validate_scenario_archive : List ℕ → Option JsText → ℕ → ℕ → Result Validated
  unfolding open_archive read_manifest log_manifest check_manifest check_entries warnings_of find
  validate_scenario_archive file catalog_id max_entry_bytes max_entries = do
    entries ← open_archive directory_of file max_entries
    entry ← elim (find (λ e. text_eq e.name manifest_name) entries) [
      | none ↦ invalid (utf16 "В архіві немає manifest.json у корені")
      | some e ↦ ok e
    ]
    manifest ← read_manifest file entry max_entry_bytes
    _ ← log_manifest manifest
    _ ← check_manifest manifest entries
    _ ← check_entries file max_entry_bytes entries
    ok (record {
      manifest = manifest;
      entries = map (λ e. e.name) entries;
      warnings = warnings_of (member (utf16 "id") (some manifest)) catalog_id;
    })
