-- ===== src/Tests/Archives.antt =====
-- An archive of a manifest, a script and a scene, and a manifest of streamed assets.
use virtual_lab.Prelude.{
  ℕ, false, Option, some, none, List, [], ◌∷◌, ◌≡◌, ◌↔◌, refl, All, find, any, length, all, keep,
  if◌then◌else◌, ◌==◌, map, true,
}
use virtual_lab.JsText.{
  JsText, utf16, text_eq, is_digit, starts_with, is_decimal, number_of, number_from,
}
use virtual_lab.HttpError.{error}
use virtual_lab.Db.Tx.{ok, throw}
use virtual_lab.Json.{
  Json, null, number, text, array, object, empty, item, blank, field, member, field_of, is_truthy,
  string_from, has_text, prints,
}
use virtual_lab.PlayerFormats.{
  elements_of, streaming_manifest_problem, is_scene_file, is_scene_name, has_suffix,
  is_apple_double, is_apple_part, apple_after_slash, manifest_version_problem, major_of, split_dots,
}
use virtual_lab.PreviewImage.{byte}
use virtual_lab.PlayerFormats.Readable.{AssetReads, streaming_manifest_problem_iff}
use virtual_lab.ArchiveValidation.{
  Decoding, Entry, Stream, closed, chunk, Validated, ◌>>=◌, ◌andthen◌, refuse_if, problem_of,
  validate_scenario_archive, declared_entry_count, search_end, drop_bytes, has_bytes, read_u16le,
  entry_path, drop_slashes,
}
use virtual_lab.ArchiveValidation.Accepted.{IsScenario, validate_scenario_archive-IsScenario}
use virtual_lab.Routes.Intake.{Site, archive_route}
use virtual_lab.Routes.Intake.Clean.{IsTidy, archive_route-IsTidy}
use virtual_lab.Tests.Data.{a, b, db, a_moderator}

abbrev scene : Json
scene = object (field (utf16 "version") (number (utf16 "1")) blank)

abbrev streamed : Json
streamed = object (
    field (utf16 "schema") (number (utf16 "1")) (
      field (utf16 "assets")
        (array (
          item
            (object (
              field (utf16 "path") (text (utf16 "a.scene.json")) (
                field (utf16 "lods")
                  (array (item (object (field (utf16 "url") (text a) blank)) empty)) blank)))
            empty))
        blank))

abbrev behind : JsText → Option Json
behind url = some scene

streaming_manifest_problem_iff_example :
    (streaming_manifest_problem {Data = Json} (λ j. some j) behind streamed ≡ ok none) ↔ (
      (prints (member (utf16 "id") (some streamed)) ≡ true)
      × (member (utf16 "schema") (some streamed) ≡ some (number (utf16 "1")))
      × All
          (AssetReads {Data = Json} (λ j. some j) behind)
          (elements_of (member (utf16 "assets") (some streamed))))
streaming_manifest_problem_iff_example =
    streaming_manifest_problem_iff {Data = Json} (λ j. some j) behind streamed

abbrev entry : JsText → Entry
entry name = record { name = name; size = 1; is_directory = false }

abbrev entries : List Entry
entries =
    entry (utf16 "manifest.json")
    ∷ entry (utf16 "scripts/main.js")
    ∷ entry (utf16 "a.scene.json")
    ∷ []

abbrev directory_of : List ℕ → Option (ℕ × List Entry)
directory_of file = some (3, entries)

abbrev stream_of : List ℕ → Entry → Stream
stream_of file e = chunk (length e.name ∷ []) closed

abbrev manifest : Json
manifest = object (
    field (utf16 "manifestVersion") (text (utf16 "1.0")) (
      field (utf16 "id") (text a) (
        field (utf16 "name") (text a) (
          field (utf16 "version") (text a)
            (field (utf16 "entryPoint") (text (utf16 "/main.js")) blank)))))

-- The manifest is the file whose byte is 13, the length of its name.
abbrev parse : Decoding → List ℕ → Option Json
parse decoding bytes = elim bytes [
  | [] ↦ none
  | n ∷ _ ↦ if n == 13 then some manifest else some scene
]

abbrev validated : Validated
validated = record { manifest = manifest; entries = map (λ e. e.name) entries; warnings = [] }

accepted : validate_scenario_archive directory_of stream_of parse [] none 100 10 ≡ ok validated
unfolding validate_scenario_archive ◌>>=◌ ◌andthen◌ refuse_if problem_of utf16 text_eq any all
    member field_of is_digit keep is_truthy
accepted = refl

validate_scenario_archive-IsScenario_example :
    IsScenario directory_of stream_of parse [] 100 10 validated
validate_scenario_archive-IsScenario_example =
    validate_scenario_archive-IsScenario directory_of stream_of parse [] 100 10 none validated
      accepted

abbrev no_directory : List ℕ → Option (ℕ × List Entry)
no_directory file = none

-- The JSON text `null` as a manifest is an error of the program.
abbrev null_text : Decoding → List ℕ → Option Json
null_text decoding bytes = some null

tests_null_manifest :
    validate_scenario_archive directory_of stream_of null_text [] none 100 10
    ≡ throw (error (utf16 "Cannot read properties of null (reading 'id')"))
unfolding validate_scenario_archive ◌>>=◌ utf16 text_eq find
tests_null_manifest = refl

-- So is an id whose `toString` is no function.
abbrev silent_id : Decoding → List ℕ → Option Json
silent_id decoding bytes = some (
    object
      (field (utf16 "id") (object (field (utf16 "toString") (number (utf16 "1")) blank)) blank))

tests_silent_id :
    validate_scenario_archive directory_of stream_of silent_id [] none 100 10
    ≡ throw (error (utf16 "Cannot convert object to primitive value"))
unfolding validate_scenario_archive ◌>>=◌ utf16 text_eq find member field_of has_text
tests_silent_id = refl

abbrev zip : List ℕ
zip = 0x50 ∷ 0x4b ∷ 3 ∷ 4 ∷ []

abbrev hash : List ℕ → JsText
hash bytes = a

abbrev site : Site
site = record { db = db; objects = []; temp = none; consumed = false }

archive_route-IsTidy_example :
    IsTidy directory_of stream_of parse hash 100 10 a_moderator b 5 zip site
      (archive_route directory_of stream_of parse hash 100 10 a_moderator b zip 5 site)
archive_route-IsTidy_example =
    archive_route-IsTidy directory_of stream_of parse hash 100 10 a_moderator b 5 zip site

abbrev end_record : List ℕ
end_record =
    0x50 ∷ 0x4b ∷ 0x05 ∷ 0x06 ∷ 0 ∷ 0 ∷ 0 ∷ 0 ∷ 7 ∷ 0 ∷ 7 ∷ 1 ∷ 0 ∷ 0 ∷ 0 ∷ 0 ∷ 0 ∷ 0 ∷ 0 ∷ 0 ∷ 0
    ∷ 0 ∷ []

tests_declared_entry_count : declared_entry_count (1 ∷ 2 ∷ end_record) ≡ some 263
unfolding declared_entry_count search_end drop_bytes has_bytes read_u16le byte
tests_declared_entry_count = refl

tests_no_record : declared_entry_count zip ≡ none
unfolding declared_entry_count search_end drop_bytes
tests_no_record = refl

tests_is_scene_file :
    (is_scene_file (utf16 "a/B.SCENE.json") ≡ true)
    × (is_scene_file (utf16 "a/._B.scene.json") ≡ false)
    × (is_scene_file (utf16 "__MACOSX/B.scene.json") ≡ false)
    × (is_scene_file (utf16 "a/b.scene.json/") ≡ false)
unfolding is_scene_file is_scene_name has_suffix is_apple_double is_apple_part apple_after_slash
    starts_with any text_eq utf16
tests_is_scene_file = (refl, refl, refl, refl)

tests_manifest_version_problem :
    (manifest_version_problem (some (text (utf16 "1.0.2"))) ≡ none)
    × (manifest_version_problem (some (number (utf16 "1"))) ≡ none)
    × (major_of (utf16 "1..0") ≡ none)
    × (major_of (utf16 "12.3") ≡ some (utf16 "12"))
unfolding manifest_version_problem major_of split_dots is_decimal is_digit all number_of number_from
    utf16
tests_manifest_version_problem = (refl, refl, refl, refl)

tests_entry_path : entry_path (some (text (utf16 "//main.js"))) ≡ utf16 "scripts/main.js"
unfolding entry_path drop_slashes string_from utf16
tests_entry_path = refl
