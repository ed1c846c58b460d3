-- ===== src/CatalogInput.antt =====
-- backend/catalog-input.js: validation of the catalog JSON that authors and moderators send.
pub mod Features
pub mod Widths
use virtual_lab.Prelude.{
  ℕ, zero, suc, ◌+◌, ◌*◌, Bool, true, false, not, ◌&&◌, ◌||◌, Option, none, some, List, [], ◌∷◌,
  ◌++◌, if◌then◌else◌, leb, ltb, ◌==◌, all, any, keep, length,
}
use virtual_lab.JsText.{JsText, utf16, text_eq, is_empty, starts_with, is_digit, trim, decimal}
use virtual_lab.Db.Rows.{Feature}
use virtual_lab.Json.{
  Json, null, flag, text, array, object, Items, empty, item, blank, field, elements, member,
  is_plain_object, string_of, is_given, keys_of,
}

-- `{ value }` or `{ error }`
pub data Checked (A : Type 0) : Type 0 where
  value : A → Checked A
  refused : JsText → Checked A

infixl 5 ◌>>=◌
abbrev pub ◌>>=◌ : {A B : Type 0} → Checked A → (A → Checked B) → Checked B
value a >>= f = f a
refused e >>= f = refused e

abbrev pub max_features : ℕ
max_features = 6

abbrev pub max_feature_title : ℕ
max_feature_title = 60

abbrev pub max_feature_subtitle : ℕ
max_feature_subtitle = 90

abbrev pub max_category_label : ℕ
max_category_label = 100

-- `[a-z0-9-]`
unfoldable pub is_slug_unit : ℕ → Bool
unfolding is_digit
is_slug_unit c = leb b'a' c && leb c b'z' || is_digit c || c == b'-'

-- `/^[a-z0-9-]{1,40}$/`
unfoldable pub is_icon : JsText → Bool
unfolding is_slug_unit all
is_icon s = all is_slug_unit s && leb 1 (length s) && leb (length s) 40

-- `/^[a-z0-9-]{2,50}$/`
unfoldable pub is_category_slug : JsText → Bool
unfolding is_slug_unit all
is_category_slug s = all is_slug_unit s && leb 2 (length s) && leb (length s) 50

-- `/^[a-z0-9][a-z0-9-]{1,99}$/`
unfoldable pub is_scenario_id : JsText → Bool
unfolding is_slug_unit all
is_scenario_id [] = false
is_scenario_id (c ∷ s) =
    is_slug_unit c && not (c == b'-') && all is_slug_unit s && leb 1 (length s) && leb (length s) 99

-- `typeof value === 'string' ? value.trim() : ''`
abbrev pub trimmed : Option Json → JsText
trimmed j = elim (string_of j) [ none ↦ [] | some s ↦ trim s ]

unfoldable pub icon_of : JsText → Option Json → Checked JsText
icon_of at j = elim (string_of j) [
  | none ↦ refused (at ++ utf16 "icon: 1–40 символів a-z, 0-9 та \"-\"")
  | some s ↦
      if is_icon s then value s else refused (at ++ utf16 "icon: 1–40 символів a-z, 0-9 та \"-\"")
]

unfoldable pub title_of : JsText → Option Json → Checked JsText
title_of at j =
    let title = trimmed j in
    if ltb (length title) 1 || ltb max_feature_title (length title)
    then refused (at ++ utf16 ".title: від 1 до 60 символів")
    else value title

unfoldable pub subtitle_of : JsText → Option Json → Checked (Option JsText)
subtitle_of at none = value none
subtitle_of at (some null) = value none
subtitle_of at (some (text s)) =
    if ltb max_feature_subtitle (length s)
    then refused (at ++ utf16 ".subtitle: не більше 90 символів")
    else value (some s)
subtitle_of at (some _) = refused (at ++ utf16 ".subtitle: не більше 90 символів")

-- One pass of the loop over the list.
unfoldable pub feature_of : JsText → Json → Checked Feature
unfolding icon_of title_of subtitle_of
feature_of at j =
    if is_plain_object j
    then (do
      icon ← icon_of (at ++ utf16 ".") (member (utf16 "icon") (some j))
      title ← title_of at (member (utf16 "title") (some j))
      subtitle ← subtitle_of at (member (utf16 "subtitle") (some j))
      value (record { icon = icon; title = title; subtitle = subtitle }))
    else refused (at ++ utf16 ": очікується об'єкт")

unfoldable pub features_from : ℕ → List Json → Checked (List Feature)
unfolding feature_of
features_from index [] = value []
features_from index (j ∷ js) = do
  feature ← feature_of (utf16 "features[" ++ decimal index ++ utf16 "]") j
  rest ← features_from (suc index) js
  value (feature ∷ rest)

unfoldable pub validate_features : Json → Checked (List Feature)
unfolding features_from elements
validate_features (array items) =
    if ltb max_features (length (elements items))
    then refused (utf16 "features: не більше 6 елементів")
    else features_from 0 (elements items)
validate_features _ = refused (utf16 "features має бути масивом")

-- `{ icon, title, subtitle? }` as a body that is read back.
unfoldable pub feature_json : Feature → Json
feature_json f = object (
    field (utf16 "icon") (text f.icon) (
      field (utf16 "title") (text f.title)
        (elim f.subtitle [ none ↦ blank | some s ↦ field (utf16 "subtitle") (text s) blank ])))

unfoldable pub features_json : List Feature → Items
unfolding feature_json
features_json [] = empty
features_json (f ∷ fs) = item (feature_json f) (features_json fs)

-- The fields of a category that a body gives, cleaned.
pub record CategoryInput : Type 0 where
  pub slug : Option JsText
  pub label : Option JsText
  pub icon : Option JsText
  pub is_visible : Option Bool

unfoldable pub slug_of : Bool → Option Json → Checked (Option JsText)
slug_of false j = value none
slug_of true j = elim (string_of j) [
  | none ↦ refused (utf16 "slug: 2–50 символів a-z, 0-9 та \"-\"")
  | some s ↦
      if is_category_slug s
      then value (some s)
      else refused (utf16 "slug: 2–50 символів a-z, 0-9 та \"-\"")
]

unfoldable pub label_of : Bool → Option Json → Checked (Option JsText)
label_of create j =
    let label = trimmed j in
    if not (is_given j || create)
    then value none
    else if ltb (length label) 1 || ltb max_category_label (length label)
    then refused (utf16 "label: від 1 до 100 символів")
    else value (some label)

unfoldable pub category_icon_of : Bool → Option Json → Checked (Option JsText)
unfolding icon_of
category_icon_of create none = value (if create then some (utf16 "folder") else none)
category_icon_of create (some j) = do icon ← icon_of [] (some j); value (some icon)

unfoldable pub visible_of : Option Json → Checked (Option Bool)
visible_of none = value none
visible_of (some (flag b)) = value (some b)
visible_of (some _) = refused (utf16 "isVisible має бути булевим")

-- `Object.keys(value).length === 0`
abbrev pub is_blank : CategoryInput → Bool
is_blank c = elim c.slug [
  | some _ ↦ false
  | none ↦ elim c.label [
    | some _ ↦ false
    | none ↦ elim c.icon [
      | some _ ↦ false
      | none ↦ elim c.is_visible [ some _ ↦ false | none ↦ true ]
    ]
  ]
]

unfoldable pub validate_category : Option Json → Bool → Checked CategoryInput
unfolding slug_of label_of category_icon_of visible_of
validate_category body create = do
  slug ← slug_of create (member (utf16 "slug") body)
  label ← label_of create (member (utf16 "label") body)
  icon ← category_icon_of create (member (utf16 "icon") body)
  is_visible ← visible_of (member (utf16 "isVisible") body)
  let input : CategoryInput = record {
    slug = slug;
    label = label;
    icon = icon;
    is_visible = is_visible;
  }
  if not create && is_blank input
      then refused (utf16 "Не вказано жодного поля для оновлення")
      else value input

abbrev pub author_forbidden_fields : List JsText
author_forbidden_fields =
    utf16 "scenarioUrl"
    ∷ utf16 "manifestUrl"
    ∷ utf16 "imageUrl"
    ∷ utf16 "author"
    ∷ utf16 "isPublished"
    ∷ []

unfoldable pub is_forbidden : JsText → Bool
unfolding any
is_forbidden key = any (text_eq key) author_forbidden_fields || starts_with (utf16 "archive") key

-- The names in a body that an author may not send.
unfoldable pub forbidden_author_fields : Option Json → List JsText
unfolding keep keys_of is_forbidden
forbidden_author_fields body = keep is_forbidden (keys_of body)

-- `[0-9a-f]`
unfoldable pub is_hex : ℕ → Bool
unfolding is_digit
is_hex c = is_digit c || leb b'a' c && leb c b'f'

-- `n` hexadecimal digits, then `.png` or `.jpg`
unfoldable pub is_preview_name : ℕ → JsText → Bool
unfolding is_hex
is_preview_name zero s = text_eq s (utf16 ".png") || text_eq s (utf16 ".jpg")
is_preview_name (suc n) [] = false
is_preview_name (suc n) (c ∷ s) = is_hex c && is_preview_name n s

-- `PREVIEW_URL` of backend/storage.js
unfoldable pub is_preview_url : JsText → Bool
unfolding is_preview_name
is_preview_url url = strip (utf16 "/previews/") url
  where
    strip : JsText → JsText → Bool
    strip [] s = is_preview_name 64 s
    strip (_ ∷ _) [] = false
    strip (a ∷ p) (b ∷ s) = a == b && strip p s

-- Why a moderator may not set `imageUrl`, or `none`.
unfoldable pub image_url_problem : Json → JsText → Option JsText
unfolding is_preview_url text_eq
image_url_problem (text url) current =
    if is_empty url || text_eq url current || is_preview_url url
    then none
    else some (
        utf16
          "imageUrl змінюється завантаженням зображення; дозволено лише порожнє значення, поточне або шлях /previews/…")
image_url_problem _ current = some (utf16 "imageUrl має бути рядком")

abbrev pub is_high_surrogate : ℕ → Bool
is_high_surrogate c = leb 0xD800 c && leb c 0xDBFF

abbrev pub is_low_surrogate : ℕ → Bool
is_low_surrogate c = leb 0xDC00 c && leb c 0xDFFF

-- The code points of a string that follows a unit which may start a pair.
unfoldable pub points_after : Bool → JsText → ℕ
points_after high [] = 0
points_after high (c ∷ s) =
    let rest = points_after (is_high_surrogate c) s in
    if high && is_low_surrogate c then rest else suc rest

-- `Array.from(s).length`
unfoldable pub code_points : JsText → ℕ
unfolding points_after
code_points s = points_after false s

unfoldable pub exceeds_width : JsText → ℕ → Bool
unfolding code_points
exceeds_width s max =
    if leb (length s) max then false else ltb (max * 2) (length s) || ltb max (code_points s)

-- An entry of SCENARIO_TEXT_LIMITS.
pub record Limit : Type 0 where
  pub name : JsText
  pub max : ℕ
  pub nullable : Bool

abbrev limit : JsText → ℕ → Bool → Limit
limit name max nullable = record { name = name; max = max; nullable = nullable }

abbrev pub scenario_text_limits : List Limit
scenario_text_limits =
    limit (utf16 "id") 100 false
    ∷ limit (utf16 "title") 255 false
    ∷ limit (utf16 "category") 50 false
    ∷ limit (utf16 "categoryLabel") 100 false
    ∷ limit (utf16 "version") 20 true
    ∷ limit (utf16 "author") 255 true
    ∷ limit (utf16 "manifestUrl") 300 true
    ∷ []

-- What is wrong with the value of one field, if anything.
unfoldable pub text_problem : Limit → Option Json → Option JsText
unfolding exceeds_width
text_problem l none = none
text_problem l (some null) = if l.nullable then none else some (l.name ++ utf16 " має бути рядком")
text_problem l (some (text s)) =
    if exceeds_width s l.max
    then some (l.name ++ utf16 ": не більше " ++ decimal l.max ++ utf16 " символів")
    else none
text_problem l (some _) = some (l.name ++ utf16 " має бути рядком")

unfoldable pub first_problem : List Limit → Option Json → Option JsText
unfolding text_problem
first_problem [] body = none
first_problem (l ∷ ls) body =
    let rest = first_problem ls body in
    elim (text_problem l (member l.name body)) [ some problem ↦ some problem | none ↦ rest ]

-- Why a body carries a text wider than its column, or of the wrong type; `none` is `null`.
unfoldable pub scenario_text_problem : Option Json → Option JsText
unfolding first_problem
scenario_text_problem body = first_problem scenario_text_limits body
