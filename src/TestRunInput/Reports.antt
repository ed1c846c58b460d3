-- ===== src/TestRunInput/Reports.antt =====
-- What validateTestRun stores.
use virtual_lab.Prelude.{◌≤◌, Bool, true, false, Option, some, List, [], ◌∷◌, ◌≡◌, length}
use virtual_lab.JsText.{JsText, utf16}
use virtual_lab.Json.{Json, number, text, Fields, blank, field, member, is_integer}
use virtual_lab.CatalogInput.{Checked, value}
use virtual_lab.TestRunInput.{Bound, text_limits, is_within}

-- The first number of a report that is accepted, and the rest.
record Opening (b : Bound) (body : Option Json) (rest : Checked Fields) (fields : Fields)
    : Type 0 where
  digits : JsText
  given : member b.name body ≡ some (number digits)
  within : is_within b.max digits ≡ true
  others : Fields
  more : rest ≡ value others
  whole : fields ≡ field b.name (number digits) others

-- Texts of a report: each within its length, the optional ones perhaps missing.
pub data AreTexts (optional : Bool) : List Bound → Fields → Type 0 where
  done : AreTexts optional [] blank
  without :
      {b : Bound} {bs : List Bound} {fs : Fields}
      → optional ≡ true
      → AreTexts optional bs fs
      → AreTexts optional (b ∷ bs) fs
  with :
      {b : Bound} {bs : List Bound} {fs : Fields} (s : JsText)
      → length s ≤ b.max
      → AreTexts optional bs fs
      → AreTexts optional (b ∷ bs) (field b.name (text s) fs)

-- A report is a measurement, with its four numbers within their ranges and both texts, or a failure,
-- with its error and no number.
pub data IsReport : Fields → Type 0 where
  measured :
      {first fps memory errors : JsText} {texts : Fields}
      → is_within 600000 first ≡ true
      → is_within 1000 fps ≡ true
      → is_within 68719476736 memory ≡ true
      → is_within 100000 errors ≡ true
      → is_integer errors ≡ true
      → AreTexts false text_limits texts
      → IsReport (
          field (utf16 "timeToFirstFrameMs") (number first) (
            field (utf16 "avgFps") (number fps) (
              field
                (utf16 "gpuMemoryBytes")
                (number memory)
                (field (utf16 "consoleErrors") (number errors) texts))))
  broken :
      {message : JsText} {texts : Fields}
      → length message ≤ 1000
      → AreTexts true text_limits texts
      → IsReport (field (utf16 "error") (text message) texts)

abbrev first_frame : Bound
first_frame = record { name = utf16 "timeToFirstFrameMs"; max = 600000 }

abbrev avg_fps : Bound
avg_fps = record { name = utf16 "avgFps"; max = 1000 }

abbrev gpu_memory : Bound
gpu_memory = record { name = utf16 "gpuMemoryBytes"; max = 68719476736 }

abbrev console_errors : Bound
console_errors = record { name = utf16 "consoleErrors"; max = 100000 }
