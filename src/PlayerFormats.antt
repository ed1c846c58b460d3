-- ===== src/PlayerFormats.antt =====
-- backend/player-formats.js: what the deployed student player can read. The bytes of a file are of any
-- type `Data`; their decoding as UTF-8 and `JSON.parse` are the parameter `parse`.
pub mod Playable
pub mod Readable
use virtual_lab.Prelude.{
  ℕ, ◌+◌, Bool, true, false, not, ◌&&◌, ◌||◌, Option, none, some, List, [], ◌∷◌, ◌++◌, map,
  if◌then◌else◌, leb, ◌==◌, all, any,
}
use virtual_lab.JsText.{JsText, utf16, text_eq, starts_with, is_decimal, number_of}
use virtual_lab.Json.{
  Json, number, text, array, object, elements, member, string_of, is_integer, stringify,
  string_from, has_text, prints,
}
use virtual_lab.HttpError.{error}
use virtual_lab.Db.Tx.{Result, ok, throw}

-- One unit under the flag `i`.
abbrev lower : ℕ → ℕ
lower c = if leb b'A' c && leb c b'Z' then c + 32 else c

unfoldable pub has_suffix : JsText → JsText → Bool
unfolding text_eq
has_suffix suffix [] = text_eq suffix []
has_suffix suffix (c ∷ s) = text_eq suffix (c ∷ s) || has_suffix suffix s

-- `/\.(scene|prefab)\.json$/i`
unfoldable pub is_scene_name : JsText → Bool
unfolding has_suffix
is_scene_name name =
    has_suffix (utf16 ".scene.json") (map lower name)
    || has_suffix (utf16 ".prefab.json") (map lower name)

abbrev has_slash : JsText → Bool
has_slash = any (λ c. c == b'/')

-- `__MACOSX/`, or `._` and no `/` after it
unfoldable pub is_apple_part : JsText → Bool
unfolding starts_with any
is_apple_part s =
    starts_with (utf16 "__MACOSX/") s || starts_with (utf16 "._") s && not (has_slash s)

-- Such a part after some `/`.
unfoldable pub apple_after_slash : JsText → Bool
unfolding is_apple_part
apple_after_slash [] = false
apple_after_slash (c ∷ s) = c == b'/' && is_apple_part s || apple_after_slash s

-- APPLE_DOUBLE
unfoldable pub is_apple_double : JsText → Bool
unfolding apple_after_slash is_apple_part
is_apple_double s = is_apple_part s || apple_after_slash s

-- `isSceneFile`, of a string
unfoldable pub is_scene_file : JsText → Bool
unfolding is_scene_name is_apple_double
is_scene_file name = is_scene_name name && not (is_apple_double name)

-- `shown`
unfoldable pub shown : Option Json → JsText
unfolding stringify
shown none = utf16 "undefined"
shown (some (number s)) = s
shown (some j) = stringify j

-- `readsOnly` of the one version that each list holds.
abbrev reads_only : JsText
reads_only = utf16 "лише версію 1"

-- What a `version` or `schema` of a document is.
pub data Format : Type 0 where
  not_integer other_version : JsText → Format
  readable : Format

unfoldable pub format_of : Json → Format
unfolding is_integer text_eq shown
format_of (number s) =
    if not (is_integer s)
    then not_integer s
    else if text_eq s (utf16 "1")
    then readable
    else other_version s
format_of j = not_integer (shown (some j))

-- `префаба` or `сцени`
unfoldable pub kind_of : JsText → JsText
unfolding has_suffix
kind_of name =
    if has_suffix (utf16 ".prefab.json") (map lower name) then utf16 "префаба" else utf16 "сцени"

abbrev titled : JsText → JsText → JsText
titled kind name = kind ++ utf16 " \"" ++ name ++ utf16 "\" "

-- The problem with the version of a document, an absent one being 1.
unfoldable pub version_problem : JsText → JsText → Option Json → Option JsText
unfolding format_of
version_problem kind name none = none
version_problem kind name (some j) = elim (format_of j) [
  | readable ↦ none
  | not_integer s ↦ some (
      utf16 "У файлі "
      ++ titled kind name
      ++ utf16 "поле version має бути цілим числом, а не "
      ++ s
      ++ utf16 "; вʼюер платформи читає "
      ++ reads_only)
  | other_version s ↦ some (
      utf16 "Файл "
      ++ titled kind name
      ++ utf16 "має формат версії "
      ++ s
      ++ utf16 ", а вʼюер платформи читає "
      ++ reads_only)
]

-- The problem with a parsed scene or prefab; `none` is text that is no JSON.
unfoldable pub document_problem : JsText → Option Json → Option JsText
unfolding version_problem kind_of
document_problem name none =
    some (utf16 "Файл " ++ titled (kind_of name) name ++ utf16 "не є валідним JSON")
document_problem name (some (object fields)) =
    version_problem (kind_of name) name (member (utf16 "version") (some (object fields)))
document_problem name (some _) =
    some (utf16 "Файл " ++ titled (kind_of name) name ++ utf16 "має містити JSON-об'єкт")

-- The text in front of the first dot, and the texts between dots after it.
unfoldable pub split_dots : JsText → JsText × List JsText
split_dots [] = ([], [])
split_dots (c ∷ s) =
    let (part, parts) = split_dots s in if c == b'.' then ([], part ∷ parts) else (c ∷ part, parts)

-- `/^(\d+)(?:\.\d+)*$/`: the first group.
unfoldable pub major_of : JsText → Option JsText
unfolding split_dots is_decimal all
major_of s =
    let (part, parts) = split_dots s in
    if is_decimal part && all is_decimal parts then some part else none

-- The text that the pattern reads: of a string or a number.
abbrev version_text : Option Json → Option JsText
version_text (some (text s)) = some s
version_text (some (number s)) = some s
version_text _ = none

unfoldable pub manifest_version_problem : Option Json → Option JsText
unfolding major_of number_of shown
manifest_version_problem j =
    let no_version = some (
      utf16 "У manifest.json manifestVersion має бути номером версії на зразок \"1.0\", а не "
      ++ shown j) in
    elim (version_text j) [
      | none ↦ no_version
      | some s ↦ elim (major_of s) [
        | none ↦ no_version
        | some major ↦
            if number_of major == 1
            then none
            else some (
                utf16 "manifest.json має manifestVersion "
                ++ shown j
                ++ utf16 ", а вʼюер платформи читає "
                ++ reads_only
                ++ utf16 ".x")
      ]
    ]

-- The elements where `Array.isArray(value)`, else none.
abbrev pub elements_of : Option Json → List Json
elements_of (some (array items)) = elements items
elements_of _ = []

module _ {Data : Type 0} (parse : Data → Option Json) where
  -- `sceneFileProblem`
  unfoldable pub scene_file_problem : JsText → Data → Option JsText
  unfolding document_problem
  scene_file_problem name bytes = document_problem name (parse bytes)

  module _ (read_object : JsText → Option Data) where
    unfoldable pub lods_problem : JsText → List Json → Option JsText
    unfolding scene_file_problem
    lods_problem path [] = none
    lods_problem path (lod ∷ lods) =
        let rest = lods_problem path lods in
        elim (string_of (member (utf16 "url") (some lod))) [
          | none ↦ rest
          | some url ↦ elim (read_object url) [
            | none ↦ rest
            | some bytes ↦ elim (scene_file_problem path bytes) [
              | some problem ↦ some problem
              | none ↦ rest
            ]
          ]
        ]

    unfoldable pub assets_problem : List Json → Option JsText
    unfolding lods_problem is_scene_file elements
    assets_problem [] = none
    assets_problem (asset ∷ assets) =
        let rest = assets_problem assets in
        elim (string_of (member (utf16 "path") (some asset))) [
          | none ↦ rest
          | some path ↦
              if is_scene_file path
              then elim (lods_problem path (elements_of (member (utf16 "lods") (some asset)))) [
                | some problem ↦ some problem
                | none ↦ rest
              ]
              else rest
        ]

    -- `${manifest.id}`, where it has a text
    abbrev id_text : Option Json → JsText
    id_text none = utf16 "undefined"
    id_text (some j) = string_from j

    -- `streamingManifestProblem`, of a manifest that is an object
    unfoldable pub streaming_manifest_problem : Json → Result (Option JsText)
    unfolding assets_problem format_of elements string_from has_text
    streaming_manifest_problem manifest =
        let place = utf16 "У маніфесті \"" ++ id_text (member (utf16 "id") (some manifest)) in
        if not (prints (member (utf16 "id") (some manifest)))
        then throw (error (utf16 "Cannot convert object to primitive value"))
        else elim (member (utf16 "schema") (some manifest)) [
          | none ↦ ok (
              some (place ++ utf16 "\" поле schema відсутнє; вʼюер платформи читає " ++ reads_only))
          | some schema ↦ elim (format_of schema) [
            | not_integer s ↦ ok (
                some (
                  place
                  ++ utf16 "\" поле schema має бути цілим числом, а не "
                  ++ s
                  ++ utf16 "; вʼюер платформи читає "
                  ++ reads_only))
            | other_version s ↦ ok (
                some (
                  place
                  ++ utf16 "\" поле schema має значення "
                  ++ s
                  ++ utf16 ", а вʼюер платформи читає "
                  ++ reads_only))
            | readable ↦ ok (assets_problem (elements_of (member (utf16 "assets") (some manifest))))
          ]
        ]
