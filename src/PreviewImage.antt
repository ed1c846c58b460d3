-- ===== src/PreviewImage.antt =====
-- backend/preview-image.js: the inspection of a cover image from its bytes. A buffer is a list of
-- bytes. The comparison of the aspect ratio, which is on floating-point numbers, is a parameter.
pub mod Walk
pub mod Inspect
use virtual_lab.Prelude.{
  ℕ, zero, suc, ◌+◌, ◌*◌, Bool, true, false, not, ◌&&◌, ◌||◌, Option, some, none, List, [], ◌∷◌,
  ◌++◌, if◌then◌else◌, leb, ltb, ◌==◌, length,
}
use virtual_lab.JsText.{JsText, utf16, decimal, starts_with}
use virtual_lab.HttpError.{Failure, http_error, error}
use virtual_lab.Db.Tx.{Result, ok, throw}

-- `buffer[i]`; none is out of range.
unfoldable pub byte : List ℕ → ℕ → Option ℕ
byte [] i = none
byte (x ∷ xs) zero = some x
byte (x ∷ xs) (suc i) = byte xs i

-- `buffer.readUInt16BE(i)`; none is its range error.
unfoldable pub read_u16 : List ℕ → ℕ → Option ℕ
read_u16 b i = elim (byte b i) [
  | none ↦ none
  | some hi ↦ elim (byte b (i + 1)) [ none ↦ none | some lo ↦ some (hi * 256 + lo) ]
]

-- `isStartOfFrame`
abbrev pub is_start_of_frame : ℕ → Bool
is_start_of_frame m = leb 0xc0 m && leb m 0xcf && not (m == 0xc4 || m == 0xc8 || m == 0xcc)

-- How the walk of `jpegSize` ends: with a width and a height, with null, with a range error, or not
-- within the fuel.
pub data Scan : Type 0 where
  found : ℕ → ℕ → Scan
  absent out_of_range out_of_fuel : Scan

pub data Next : Type 0 where
  stop : Scan → Next
  go : ℕ → Next

-- The dimensions in a frame header at `at`.
unfoldable pub frame : List ℕ → ℕ → Scan
frame b at = if not (leb (at + 9) (length b)) then absent else elim (read_u16 b (at + 5)) [
  | none ↦ out_of_range
  | some height ↦ elim (read_u16 b (at + 7)) [
    | none ↦ out_of_range
    | some width ↦ found width height
  ]
]

-- A segment with a length.
unfoldable pub sized : List ℕ → ℕ → ℕ → Next
sized b at marker = elim (read_u16 b (at + 2)) [
  | none ↦ stop out_of_range
  | some len ↦
      if ltb len 2
      then stop absent
      else if is_start_of_frame marker
      then stop (frame b at)
      else go (at + (2 + len))
]

-- One turn of the loop.
unfoldable pub segment : List ℕ → ℕ → Next
segment b at = if not (leb (at + 4) (length b)) then stop absent else elim (byte b at) [
  | none ↦ stop out_of_range
  | some lead ↦ if not (lead == 0xff) then stop absent else elim (byte b (at + 1)) [
    | none ↦ stop out_of_range
    | some marker ↦
        if marker == 0xff
        then go (at + 1)
        else if marker == 0xd8 || marker == 0x01 || leb 0xd0 marker && leb marker 0xd7
        then go (at + 2)
        else if marker == 0xd9 || marker == 0xda
        then stop absent
        else sized b at marker
  ]
]

unfoldable pub walk : ℕ → List ℕ → ℕ → Scan
walk zero b at = out_of_fuel
walk (suc fuel) b at = elim (segment b at) [ stop s ↦ s | go next ↦ walk fuel b next ]

-- `jpegSize`; each turn advances, so one turn more than there are bytes is enough.
unfoldable pub jpeg_size : List ℕ → Scan
jpeg_size b = walk (suc (length b)) b 2

abbrev pub preview_max_bytes : ℕ
preview_max_bytes = 5 * 1024 * 1024

abbrev pub preview_min_width : ℕ
preview_min_width = 800

abbrev pub preview_max_dimension : ℕ
preview_max_dimension = 8192

-- `buffer.readUInt32BE(i)`
unfoldable pub read_u32 : List ℕ → ℕ → Option ℕ
read_u32 b i = elim (read_u16 b i) [
  | none ↦ none
  | some hi ↦ elim (read_u16 b (i + 2)) [ none ↦ none | some lo ↦ some (hi * 65536 + lo) ]
]

abbrev pub has_byte : List ℕ → ℕ → ℕ → Bool
has_byte b i x = elim (byte b i) [ none ↦ false | some y ↦ x == y ]

-- `pngSize`
unfoldable pub png_size : List ℕ → Scan
png_size b =
    if ltb (length b) 24
      || not (has_byte b 12 b'I' && has_byte b 13 b'H' && has_byte b 14 b'D' && has_byte b 15 b'R')
    then absent
    else elim (read_u32 b 16) [
      | none ↦ out_of_range
      | some width ↦ elim (read_u32 b 20) [ none ↦ out_of_range | some height ↦ found width height ]
    ]

pub data Kind : Type 0 where
  png jpg : Kind

abbrev pub png_signature : List ℕ
png_signature = 0x89 ∷ 0x50 ∷ 0x4e ∷ 0x47 ∷ 0x0d ∷ 0x0a ∷ 0x1a ∷ 0x0a ∷ []

abbrev pub jpeg_signature : List ℕ
jpeg_signature = 0xff ∷ 0xd8 ∷ 0xff ∷ []

pub record Inspected : Type 0 where
  pub kind : Kind
  pub width : ℕ
  pub height : ℕ
  pub warnings : List JsText

abbrev pub truncated : Failure
truncated = http_error 400 (utf16 "Файл зображення пошкоджений або обрізаний")

abbrev pub too_wide : Failure
too_wide = http_error 400 (utf16 "Зображення завелике: не більше 8192 пікселів з кожного боку")

abbrev pub too_heavy : Failure
too_heavy = http_error 400 (utf16 "Зображення завелике: максимум 5 МіБ")

abbrev pub other_type : Failure
other_type = http_error 400 (utf16 "Дозволені лише зображення PNG та JPEG")

unfoldable pub aspect_warning : ℕ → ℕ → JsText
aspect_warning width height =
    utf16 "Співвідношення сторін "
    ++ (decimal width
        ++ (utf16 "×"
            ++ (decimal height ++ utf16 " відрізняється від 16:10 — картку буде обрізано")))

unfoldable pub narrow : ℕ → Failure
narrow width =
    http_error 400
      (utf16 "Ширина зображення " ++ (decimal width ++ utf16 " px: потрібно щонайменше 800 px"))

module _ (is_off_aspect : ℕ → ℕ → Bool) where
  -- The checks of a size that was read. A range error is the driver's: it is no `httpError`.
  unfoldable pub checked : Kind → Scan → Result Inspected
  checked kind absent = throw truncated
  checked kind out_of_range = throw (error (utf16 "ERR_OUT_OF_RANGE"))
  checked kind out_of_fuel = throw (error (utf16 "out of fuel"))
  checked kind (found width height) =
      if ltb width 1 || ltb height 1
      then throw truncated
      else if ltb preview_max_dimension width || ltb preview_max_dimension height
      then throw too_wide
      else if ltb width preview_min_width
      then throw (narrow width)
      else ok (record {
        kind = kind;
        width = width;
        height = height;
        warnings = if is_off_aspect width height then aspect_warning width height ∷ [] else [];
      })

  unfoldable pub inspect_preview : List ℕ → Result Inspected
  inspect_preview b =
      if ltb preview_max_bytes (length b)
      then throw too_heavy
      else if starts_with png_signature b
      then checked png (png_size b)
      else if starts_with jpeg_signature b
      then checked jpg (jpeg_size b)
      else throw other_type
