-- ===== src/TestRunInput.antt =====
-- backend/test-run-input.js: the report of a moderator's test run. A number is kept by its text, as in
-- Json; the comparison with a bound reads that text.
pub mod Ranges
pub mod Reports
use virtual_lab.Prelude.{
  ℕ, Bool, true, false, not, ◌&&◌, ◌||◌, Option, none, some, List, [], ◌∷◌, ◌++◌, ◌≡◌, refl, ◌==◌,
  if◌then◌else◌, ltb, any, keep, length,
}
use virtual_lab.JsText.{JsText, utf16, text_eq, decimal, number_of}
use virtual_lab.Json.{
  Json, null, flag, number, text, array, object, Fields, blank, field, member, string_of, is_given,
  is_integer,
}
use virtual_lab.CatalogInput.{Checked, value, refused}
use virtual_lab.ArchiveValidation.{join_names}

-- A field with the largest value, or the largest length, that it may have.
pub record Bound : Type 0 where
  pub name : JsText
  pub max : ℕ

-- `NUMERIC_RANGES`: every minimum is 0.
abbrev pub numeric_ranges : List Bound
numeric_ranges =
    record { name = utf16 "timeToFirstFrameMs"; max = 600000 }
    ∷ record { name = utf16 "avgFps"; max = 1000 }
    ∷ record { name = utf16 "gpuMemoryBytes"; max = 68719476736 }
    ∷ record { name = utf16 "consoleErrors"; max = 100000 }
    ∷ []

-- The texts that a report names its build and browser with.
abbrev pub text_limits : List Bound
text_limits =
    record { name = utf16 "engineBuild"; max = 100 }
    ∷ record { name = utf16 "userAgent"; max = 300 }
    ∷ []

abbrev pub error_limit : Bound
error_limit = record { name = utf16 "error"; max = 1000 }

-- The digits in front of the point.
unfoldable pub whole_part : JsText → JsText
whole_part [] = []
whole_part (c ∷ s) = let rest = whole_part s in if c == b'.' then [] else c ∷ rest

abbrev starts_minus : JsText → Bool
starts_minus [] = false
starts_minus (c ∷ _) = c == b'-'

-- `Number.isFinite(number) && 0 <= number && number <= max`, for a number by its text and a maximum from
-- 1 on and under 10^21: a text with an exponent is at least 10^21, with a plus sign, or under 10^-6.
unfoldable pub is_within : ℕ → JsText → Bool
unfolding any text_eq utf16 whole_part number_of
is_within max s =
    not (starts_minus s)
    && not (text_eq s (utf16 "Infinity"))
    && not (any (λ c. c == b'+') s)
    && (any (λ c. c == b'e') s
        || ltb (number_of (whole_part s)) max
        || number_of (whole_part s) == max && not (any (λ c. c == b'.') s))

-- `textProblem`, or the text.
unfoldable pub text_within : Bound → Option Json → Checked JsText
unfolding decimal utf16
text_within bound j =
    let message : JsText =
      bound.name ++ utf16 ": рядок не довший за " ++ decimal bound.max ++ utf16 " символів" in
    elim (string_of j) [
      | none ↦ refused message
      | some s ↦ if ltb bound.max (length s) then refused message else value s
    ]

-- A number of a report.
unfoldable pub number_within : Bound → Option Json → Checked JsText
unfolding is_within decimal utf16
number_within bound (some (number s)) =
    if is_within bound.max s
    then value s
    else refused (bound.name ++ utf16 ": число від 0 до " ++ decimal bound.max)
number_within bound _ = refused (bound.name ++ utf16 ": число від 0 до " ++ decimal bound.max)

-- `value[name] = …` in front of what the rest of the report gives.
abbrev pub with_field : JsText → Json → Checked Fields → Checked Fields
with_field name j (refused message) = refused message
with_field name j (value fields) = value (field name j fields)

-- The loop over the texts; `optional` leaves out the ones that are not given.
unfoldable pub take_texts : Bool → List Bound → Option Json → Checked Fields
unfolding text_within member
take_texts optional [] body = value blank
take_texts optional (bound ∷ bounds) body =
    let rest = take_texts optional bounds body in
    let given = member bound.name body in
    if optional && not (is_given given) then rest else elim (text_within bound given) [
      | refused message ↦ refused message
      | value s ↦ with_field bound.name (text s) rest
    ]

-- The loop over the numbers, and then `rest`.
unfoldable pub take_numbers : List Bound → Option Json → Checked Fields → Checked Fields
unfolding number_within member
take_numbers [] body rest = rest
take_numbers (bound ∷ bounds) body rest =
    let after = take_numbers bounds body rest in
    elim (number_within bound (member bound.name body)) [
      | refused message ↦ refused message
      | value s ↦ with_field bound.name (number s) after
    ]

-- `Number.isInteger(value.consoleErrors)`
unfoldable pub counts_errors : Option Json → Bool
unfolding is_integer member utf16
counts_errors body = elim (member (utf16 "consoleErrors") body) [
  | some (number s) ↦ is_integer s
  | _ ↦ false
]

names : List Bound → List JsText
names [] = []
names (b ∷ bs) = b.name ∷ names bs

-- `if (numericGiven.length > 0) return …`, else `rest`
unfoldable pub refuse_numbers : List Bound → Checked Fields → Checked Fields
unfolding join_names utf16 names
refuse_numbers [] rest = rest
refuse_numbers (b ∷ bs) rest =
    refused (utf16 "Результат із помилкою не може містити числа: " ++ join_names (names (b ∷ bs)))

-- The report of a run that failed.
unfoldable pub failed_run : Option Json → Checked Fields
unfolding keep member refuse_numbers text_within take_texts utf16
failed_run body =
    refuse_numbers (keep (λ b. is_given (member b.name body)) numeric_ranges)
      (elim (text_within error_limit (member (utf16 "error") body)) [
        | refused message ↦ refused message
        | value s ↦ with_field (utf16 "error") (text s) (take_texts true text_limits body)
      ])

-- `validateTestRun`
unfoldable pub validate_test_run : Option Json → Checked Fields
unfolding failed_run take_numbers take_texts counts_errors member utf16
validate_test_run (some (object fields)) =
    let body : Option Json = some (object fields) in
    if is_given (member (utf16 "error") body)
    then failed_run body
    else take_numbers numeric_ranges body (
        if counts_errors body
        then take_texts false text_limits body
        else refused (utf16 "consoleErrors: ціле число"))
validate_test_run _ = refused (utf16 "Очікується JSON-об'єкт")
