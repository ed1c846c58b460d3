-- ===== src/JsText.antt =====
-- JavaScript strings: lists of UTF-16 code units, with the operations of `String.prototype` that the
-- backend calls. `s.length` is the length of the list.
pub mod Laws
use Prim.Native.Char.{code}
use Prim.Native.String.{String}
use virtual_lab.Prelude.{
  ℕ, zero, suc, ◌+◌, ◌-◌, ◌*◌, ◌/◌, ◌%◌, Bool, true, false, ◌&&◌, ◌||◌, Option, none, some, List,
  [], ◌∷◌, ◌++◌, ◌≡◌, refl, if◌then◌else◌, leb, ltb, ◌==◌, all,
}

abbrev pub JsText : Type 0
JsText = List ℕ

-- The code units of one code point: one, or a surrogate pair above U+FFFF.
code_units : ℕ → JsText
code_units c =
    if ltb c 0x10000
    then c ∷ []
    else (0xD800 + (c - 0x10000) / 0x400) ∷ (0xDC00 + (c - 0x10000) % 0x400) ∷ []

-- A string literal of the source.
unfoldable pub utf16 : String → JsText
unfolding code_units
utf16 String.[] = []
utf16 (String.◌∷◌ c s) = code_units (code c) ++ utf16 s

-- `a === b`
unfoldable pub text_eq : JsText → JsText → Bool
text_eq [] [] = true
text_eq [] (_ ∷ _) = false
text_eq (_ ∷ _) [] = false
text_eq (a ∷ s) (b ∷ t) = a == b && text_eq s t

-- `!s`, of a string
abbrev pub is_empty : JsText → Bool
is_empty [] = true
is_empty (_ ∷ _) = false

-- `s.startsWith(p)`
unfoldable pub starts_with : JsText → JsText → Bool
starts_with [] s = true
starts_with (_ ∷ _) [] = false
starts_with (a ∷ p) (b ∷ s) = a == b && starts_with p s

-- The code units that `trim` removes: WhiteSpace and LineTerminator of ECMAScript.
unfoldable pub is_space : ℕ → Bool
is_space c =
    leb 9 c && leb c 13
    || c == 32
    || c == 0xA0
    || c == 0x1680
    || leb 0x2000 c && leb c 0x200A
    || c == 0x2028
    || c == 0x2029
    || c == 0x202F
    || c == 0x205F
    || c == 0x3000
    || c == 0xFEFF

unfoldable pub trim_start : JsText → JsText
trim_start [] = []
trim_start (c ∷ s) = let rest = trim_start s in if is_space c then rest else c ∷ s

unfoldable pub trim_end : JsText → JsText
trim_end [] = []
trim_end (c ∷ s) = elim (trim_end s) [ [] ↦ if is_space c then [] else c ∷ [] | d ∷ t ↦ c ∷ d ∷ t ]

-- `s.trim()`
unfoldable pub trim : JsText → JsText
unfolding trim_start trim_end is_space
trim s = trim_end (trim_start s)

unfoldable pub is_digit : ℕ → Bool
is_digit c = leb b'0' c && leb c b'9'

-- `Number(s)`, for a string of decimal digits
unfoldable pub number_from : ℕ → JsText → ℕ
number_from acc [] = acc
number_from acc (c ∷ s) = number_from (acc * 10 + (c - b'0')) s

unfoldable pub number_of : JsText → ℕ
unfolding number_from
number_of s = number_from 0 s

-- `/^\d+$/.test(s)`
unfoldable pub is_decimal : JsText → Bool
unfolding is_digit
is_decimal [] = false
is_decimal (c ∷ s) = all is_digit (c ∷ s)

-- `String(n)`, for an integer that is not negative; the fuel exceeds the number of digits
unfoldable pub digits_from : ℕ → ℕ → JsText → JsText
digits_from zero n acc = acc
digits_from (suc fuel) n acc =
    let acc' = (b'0' + n % 10) ∷ acc in
    let rest = digits_from fuel (n / 10) acc' in if ltb n 10 then acc' else rest

unfoldable pub decimal : ℕ → JsText
unfolding digits_from
decimal n = digits_from (suc n) n []

tests_trim : trim (utf16 " \tок ") ≡ utf16 "ок"
unfolding trim utf16
tests_trim = refl

tests_decimal : decimal 2090 ≡ utf16 "2090"
unfolding decimal utf16
tests_decimal = refl
