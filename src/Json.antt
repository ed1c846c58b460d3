-- ===== src/Json.antt =====
-- JSON values as `express.json()` and `JSON.parse` make them, and what the backend asks of one. A number
-- is kept by the text that `String` answers for it, which tells finite doubles apart.
use virtual_lab.Prelude.{
  ℕ, suc, ◌+◌, ◌-◌, ◌/◌, ◌%◌, Bool, true, false, not, ◌&&◌, ◌||◌, Option, none, some, List, [], ◌∷◌,
  ◌++◌, ◌≡◌, refl, ◌==◌, leb, ltb, all, any, if◌then◌else◌,
}
use virtual_lab.JsText.{JsText, text_eq, is_digit, decimal, utf16}

mutual
  pub data Json : Type 0 where
    null : Json
    flag : Bool → Json
    number : JsText → Json
    text : JsText → Json
    array : Items → Json
    object : Fields → Json

  pub data Items : Type 0 where
    empty : Items
    item : Json → Items → Items

  pub data Fields : Type 0 where
    blank : Fields
    field : JsText → Json → Fields → Fields

-- The elements of an array.
unfoldable pub elements : Items → List Json
elements empty = []
elements (item j js) = j ∷ elements js

unfoldable pub field_of : JsText → Fields → Option Json
field_of name blank = none
field_of name (field key j js) = if text_eq key name then some j else field_of name js

-- `value?.[name]`, for a name that no built-in prototype has; `none` is `undefined`
unfoldable pub member : JsText → Option Json → Option Json
unfolding field_of
member name (some (object fields)) = field_of name fields
member name _ = none

-- `value !== null && typeof value === 'object' && !Array.isArray(value)`
abbrev pub is_plain_object : Json → Bool
is_plain_object (object _) = true
is_plain_object _ = false

-- The value where `typeof value === 'string'`.
abbrev pub string_of : Option Json → Option JsText
string_of (some (text s)) = some s
string_of _ = none

-- `value !== undefined`
abbrev pub is_given : Option Json → Bool
is_given none = false
is_given (some _) = true

-- `!!value`; the only falsy number of a JSON text is 0
unfoldable pub is_truthy : Option Json → Bool
unfolding text_eq
is_truthy none = false
is_truthy (some null) = false
is_truthy (some (flag b)) = b
is_truthy (some (number s)) = if text_eq s (b'0' ∷ []) then false else true
is_truthy (some (text [])) = false
is_truthy (some _) = true

unfoldable pub field_names : Fields → List JsText
field_names blank = []
field_names (field key _ js) = key ∷ field_names js

-- "0", "1", …
indices : {A : Type 0} → ℕ → List A → List JsText
unfolding decimal
indices from [] = []
indices from (_ ∷ xs) = decimal from ∷ indices (suc from) xs

-- `Object.keys(value ?? {})`
unfoldable pub keys_of : Option Json → List JsText
unfolding field_names indices elements
keys_of (some (object fields)) = field_names fields
keys_of (some (array items)) = indices 0 (elements items)
keys_of (some (text s)) = indices 0 s
keys_of _ = []

-- `Number.isInteger`, of a number by its text: an integer has digits and a sign only, or, from 10^21 on,
-- an exponent with a plus sign.
unfoldable pub is_integer : JsText → Bool
unfolding is_digit any all
is_integer s = any (λ c. c == b'+') s || all (λ c. is_digit c || c == b'-') s

-- `JSON.stringify`: the escapes of one unit; a surrogate without its partner is escaped too.
hex_digit : ℕ → ℕ
hex_digit d = if ltb d 10 then b'0' + d else b'a' + (d - 10)

unit_escape : ℕ → JsText
unit_escape c =
    b'\\'
    ∷ b'u'
    ∷ hex_digit (c / 0x1000)
    ∷ hex_digit (c / 0x100 % 16)
    ∷ hex_digit (c / 16 % 16)
    ∷ hex_digit (c % 16)
    ∷ []

is_high : ℕ → Bool
is_high c = leb 0xD800 c && leb c 0xDBFF

is_low : ℕ → Bool
is_low c = leb 0xDC00 c && leb c 0xDFFF

-- Whether a text starts with the second half of a pair.
starts_low : JsText → Bool
unfolding is_low
starts_low [] = false
starts_low (c ∷ _) = is_low c

-- The units of a string literal; `paired` says that the unit before starts a pair.
escaped : Bool → JsText → JsText
unfolding unit_escape hex_digit is_high is_low starts_low
escaped paired [] = []
escaped paired (c ∷ s) =
    let opens = is_high c && starts_low s in
    let rest = escaped opens s in
    if c == b'"' || c == b'\\'
    then b'\\' ∷ c ∷ rest
    else if c == 8
    then b'\\' ∷ b'b' ∷ rest
    else if c == 9
    then b'\\' ∷ b't' ∷ rest
    else if c == 10
    then b'\\' ∷ b'n' ∷ rest
    else if c == 12
    then b'\\' ∷ b'f' ∷ rest
    else if c == 13
    then b'\\' ∷ b'r' ∷ rest
    else if ltb c 32 || is_high c && not opens || is_low c && not paired
    then unit_escape c ++ rest
    else c ∷ rest

quoted : JsText → JsText
unfolding escaped
quoted s = b'"' ∷ escaped false s ++ b'"' ∷ []

flag_text : Bool → JsText
unfolding utf16
flag_text true = utf16 "true"
flag_text false = utf16 "false"

-- A number of a text is infinite where its literal is too large; `JSON.stringify` has no such number.
number_json : JsText → JsText
unfolding utf16 text_eq
number_json s =
    if text_eq s (utf16 "Infinity") || text_eq s (utf16 "-Infinity") then utf16 "null" else s

-- A comma in front of what is not first.
after_comma : Bool → JsText → JsText
after_comma first s = if first then s else b',' ∷ s

-- `JSON.stringify(value)`
unfoldable mutual
  unfolding quoted flag_text number_json after_comma utf16

  pub stringify : Json → JsText
  stringify null = utf16 "null"
  stringify (flag b) = flag_text b
  stringify (number s) = number_json s
  stringify (text s) = quoted s
  stringify (array items) = b'[' ∷ stringify_items true items ++ b']' ∷ []
  stringify (object fields) = b'{' ∷ stringify_fields true fields ++ b'}' ∷ []

  stringify_items : Bool → Items → JsText
  stringify_items first empty = []
  stringify_items first (item j js) = after_comma first (stringify j) ++ stringify_items false js

  stringify_fields : Bool → Fields → JsText
  stringify_fields first blank = []
  stringify_fields first (field key j js) =
      after_comma first (quoted key) ++ b':' ∷ stringify j ++ stringify_fields false js

-- Whether `String(value)` answers: it throws a TypeError on an object with its own `toString`, which a
-- JSON text can only make a value that is no function, there or in an array.
unfoldable mutual
  unfolding field_of utf16

  pub has_text : Json → Bool
  has_text null = true
  has_text (flag _) = true
  has_text (number _) = true
  has_text (text _) = true
  has_text (array items) = all_have_text items
  has_text (object fields) = elim (field_of (utf16 "toString") fields) [
    | none ↦ true
    | some _ ↦ false
  ]

  all_have_text : Items → Bool
  all_have_text empty = true
  all_have_text (item j js) = has_text j && all_have_text js

-- `${value}` answers; `undefined` is printed.
abbrev pub prints : Option Json → Bool
prints none = true
prints (some j) = has_text j

-- `String(value)`, where `has_text`; in an array `null` is the empty text.
unfoldable mutual
  unfolding flag_text after_comma utf16

  pub string_from : Json → JsText
  string_from null = utf16 "null"
  string_from (flag b) = flag_text b
  string_from (number s) = s
  string_from (text s) = s
  string_from (array items) = join_items true items
  string_from (object fields) = utf16 "[object Object]"

  join_items : Bool → Items → JsText
  join_items first empty = []
  join_items first (item null js) = after_comma first [] ++ join_items false js
  join_items first (item j js) = after_comma first (string_from j) ++ join_items false js

tests_stringify :
    stringify (array (item (text (utf16 "a\"b")) (item null empty))) ≡ utf16 "[\"a\\\"b\",null]"
unfolding stringify utf16
tests_stringify = refl
