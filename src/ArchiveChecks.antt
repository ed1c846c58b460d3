-- ===== src/ArchiveChecks.antt =====
-- backend/archive-checks.js: the static checks that a moderator reads. The parameters are those of
-- ArchiveValidation.
use virtual_lab.Prelude.{
  ℕ, true, false, not, Option, none, some, List, [], ◌∷◌, ◌++◌, map, count_if, if◌then◌else◌,
}
use virtual_lab.JsText.{JsText, utf16, decimal}
use virtual_lab.HttpError.{http_error}
use virtual_lab.Db.Rows.{Checks, CheckItem, Level}
use virtual_lab.Db.Tx.{Result, throw}
use virtual_lab.Json.{Json, member, is_truthy, string_from}
use virtual_lab.PlayerFormats.{has_suffix}
use virtual_lab.ArchiveValidation.{Decoding, Entry, Stream, Validated, validate_scenario_archive}

abbrev check_item : Level → JsText → JsText → CheckItem
check_item level label note = record { level = level; label = label; note = note }

-- `${value}`, of a manifest that was accepted, whose members here have a text
abbrev shown : Option Json → JsText
shown none = utf16 "undefined"
shown (some j) = string_from j

unfoldable pub engine_item : Option Json → CheckItem
unfolding is_truthy string_from
engine_item j =
    if is_truthy j
    then check_item Level.ok (utf16 "Версія рушія") (shown j)
    else check_item Level.warning (utf16 "Версія рушія")
        (utf16 "Маніфест не вказує engineVersion: невідомо, під який рушій зібрано сценарій")

-- `checksFromValidation`
unfoldable pub checks_from_validation : Validated → ℕ → Checks
unfolding engine_item has_suffix decimal count_if
checks_from_validation v bytes =
    let m : Option Json = some v.manifest in
    record {
      is_ok = true;
      items =
          check_item Level.ok (utf16 "Маніфест") (
              utf16 "id \""
              ++ shown (member (utf16 "id") m)
              ++ utf16 "\", версія "
              ++ shown (member (utf16 "version") m)
              ++ utf16 ", точка входу "
              ++ shown (member (utf16 "entryPoint") m))
            ∷ check_item Level.ok (utf16 "Файли") (
                decimal (count_if (λ name. not (has_suffix (utf16 "/") name)) v.entries)
                ++ utf16 " файл(ів), "
                ++ decimal bytes
                ++ utf16 " байт")
            ∷ map (λ w. check_item Level.warning (utf16 "Ідентифікатор") w) v.warnings
          ++ engine_item (member (utf16 "engineVersion") m) ∷ [];
    }

unfoldable pub failed_checks : JsText → Checks
failed_checks message = record {
  is_ok = false;
  items = check_item Level.error (utf16 "Перевірка архіву") message ∷ [];
}

module _ (directory_of : List ℕ → Option (ℕ × List Entry)) (stream_of : List ℕ → Entry → Stream)
    (parse : Decoding → List ℕ → Option Json) where
  -- `runArchiveChecks`: a refusal of the validator is an item, any other error goes on.
  unfoldable pub run_archive_checks : List ℕ → Option JsText → ℕ → ℕ → ℕ → Result Checks
  unfolding validate_scenario_archive checks_from_validation failed_checks
  run_archive_checks file catalog_id bytes max_entry_bytes max_entries =
      elim (validate_scenario_archive directory_of stream_of parse file catalog_id max_entry_bytes
        max_entries) [
          | Result.ok v ↦ Result.ok (checks_from_validation v bytes)
          | throw e ↦ elim e [
            | http_error status message ↦ Result.ok (failed_checks message)
            | other ↦ throw other
          ]
        ]
