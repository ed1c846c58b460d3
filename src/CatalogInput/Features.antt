-- ===== src/CatalogInput/Features.antt =====
-- The list of what a scenario has inside, after its validation.
use virtual_lab.Prelude.{
  ℕ, suc, ◌≤◌, ◌<◌, true, false, Option, none, some, List, [], ◌∷◌, ◌++◌, ◌≡◌, ◌⊎◌, inl, inr, refl,
  ap, arith, length, All, Bool-cases, Option-cases,
}
use virtual_lab.JsText.{JsText, utf16, trim, trim_start, trim_end, is_space, decimal, text_eq}
use virtual_lab.Json.{
  Json, null, flag, number, text, array, object, Fields, elements, member, field_of,
}
use virtual_lab.Db.Rows.{Feature}
use virtual_lab.CatalogInput.{
  Checked, value, refused, icon_of, title_of, subtitle_of, feature_of, features_from, feature_json,
  features_json, validate_features, is_icon, trimmed,
}

trim_end_idem : (s : JsText) → trim_end (trim_end s) ≡ trim_end s
unfolding trim_end
trim_end_idem [] = refl
trim_end_idem (c ∷ s) = ground (arith, trim_end_idem s)

List-cases : (s : JsText) → (s ≡ []) ⊎ ((c : ℕ) × (t : JsText) × (s ≡ c ∷ t))
List-cases [] = inl refl
List-cases (c ∷ t) = inr (c, t, refl)

-- What has no space in front keeps none when its end is trimmed.
front_kept :
    (c : ℕ) (s : JsText) → is_space c ≡ false → trim_start (trim_end (c ∷ s)) ≡ trim_end (c ∷ s)
unfolding trim_start trim_end
front_kept c s h = elim (List-cases (trim_end s)) [
  | inl e ↦ ground arith
  | inr (d, t, e) ↦ ground arith
]

trim_start-trim_end : (s : JsText) → trim_start (trim_end (trim_start s)) ≡ trim_end (trim_start s)
unfolding trim_start trim_end
trim_start-trim_end [] = refl
trim_start-trim_end (c ∷ s) = elim (Bool-cases (is_space c)) [
  | inl space ↦ ground (arith, trim_start-trim_end s)
  | inr other ↦ rw other (front_kept c s other)
]

pub trim_idem : (s : JsText) → trim (trim s) ≡ trim s
unfolding trim
trim_idem s = rw (trim_start-trim_end s) (trim_end_idem (trim_start s))

-- What a stored feature satisfies.
pub record IsFeature (f : Feature) : Type 0 where
  pub icon : is_icon f.icon ≡ true
  pub filled : 0 < length f.title
  pub short : length f.title ≤ 60
  pub clean : trim f.title ≡ f.title
  pub subtitle : (s : JsText) → f.subtitle ≡ some s → length s ≤ 90

pub Checked-cases :
    {A : Type 0} (c : Checked A) → ((a : A) × (c ≡ value a)) ⊎ ((e : JsText) × (c ≡ refused e))
Checked-cases (value a) = inl (a, refl)
Checked-cases (refused e) = inr (e, refl)

icon_of-value :
    (at : JsText) (j : Option Json) (s : JsText) → icon_of at j ≡ value s → is_icon s ≡ true
unfolding icon_of
icon_of-value at none s h = cc
icon_of-value at (some (text t)) s h = ground arith
icon_of-value at (some null) s h = cc
icon_of-value at (some (flag _)) s h = cc
icon_of-value at (some (number _)) s h = cc
icon_of-value at (some (array _)) s h = cc
icon_of-value at (some (object _)) s h = cc

trimmed-clean : (j : Option Json) → trim (trimmed j) ≡ trimmed j
unfolding trim trim_start trim_end
trimmed-clean none = refl
trimmed-clean (some (text s)) = trim_idem s
trimmed-clean (some null) = refl
trimmed-clean (some (flag _)) = refl
trimmed-clean (some (number _)) = refl
trimmed-clean (some (array _)) = refl
trimmed-clean (some (object _)) = refl

title_of-value :
    (at : JsText) (j : Option Json) (t : JsText)
    → title_of at j ≡ value t
    → (0 < length t) × (length t ≤ 60) × (trim t ≡ t)
unfolding title_of
title_of-value at j t h = (ground arith, ground arith, ground (arith, trimmed-clean j))

subtitle_of-value :
    (at : JsText) (j : Option Json) (o : Option JsText) (s : JsText)
    → subtitle_of at j ≡ value o
    → o ≡ some s
    → length s ≤ 90
unfolding subtitle_of
subtitle_of-value at none o s h e = cc
subtitle_of-value at (some (text t)) o s h e = ground arith
subtitle_of-value at (some null) o s h e = cc
subtitle_of-value at (some (flag _)) o s h e = cc
subtitle_of-value at (some (number _)) o s h e = cc
subtitle_of-value at (some (array _)) o s h e = cc
subtitle_of-value at (some (object _)) o s h e = cc

-- The parts of a feature that passed.
record Parts (at : JsText) (j : Json) (f : Feature) : Type 0 where
  fields : Fields
  plain : j ≡ object fields
  icon : icon_of (at ++ utf16 ".") (member (utf16 "icon") (some j)) ≡ value f.icon
  title : title_of at (member (utf16 "title") (some j)) ≡ value f.title
  subtitle : subtitle_of at (member (utf16 "subtitle") (some j)) ≡ value f.subtitle

parts : (at : JsText) (j : Json) (f : Feature) → feature_of at j ≡ value f → Parts at j f
unfolding feature_of
parts at (object fields) f h =
    elim (Checked-cases
      (icon_of (at ++ utf16 ".") (member (utf16 "icon") (some (object fields))))) [
        | inr (e, hi) ↦ absurd (ground arith)
        | inl (i, hi) ↦
            elim (Checked-cases (title_of at (member (utf16 "title") (some (object fields))))) [
              | inr (e, ht) ↦ absurd (ground arith)
              | inl (t, ht) ↦
                  elim (Checked-cases
                    (subtitle_of at (member (utf16 "subtitle") (some (object fields))))) [
                      | inr (e, hs) ↦ absurd (ground arith)
                      | inl (o, hs) ↦ record {
                        fields = fields;
                        plain = refl;
                        icon = ground arith;
                        title = ground arith;
                        subtitle = ground arith;
                      }
                    ]
            ]
      ]
parts at null f h = absurd (ground arith)
parts at (flag _) f h = absurd (ground arith)
parts at (number _) f h = absurd (ground arith)
parts at (text _) f h = absurd (ground arith)
parts at (array _) f h = absurd (ground arith)

feature_of-IsFeature :
    (at : JsText) (j : Json) (f : Feature) → feature_of at j ≡ value f → IsFeature f
feature_of-IsFeature at j f h =
    let p = parts at j f h in
    let (filled, short, clean) =
      title_of-value at (member (utf16 "title") (some j)) f.title p.title in
    record {
      icon = icon_of-value (at ++ utf16 ".") (member (utf16 "icon") (some j)) f.icon p.icon;
      filled = filled;
      short = short;
      clean = clean;
      subtitle = λ s e.
          subtitle_of-value at (member (utf16 "subtitle") (some j)) f.subtitle s p.subtitle e;
    }

-- A list that passed, one element at a time.
features_cons :
    (index : ℕ) (j : Json) (js : List Json) (fs : List Feature)
    → features_from index (j ∷ js) ≡ value fs
    → (f : Feature) × (rest : List Feature) × (at : JsText) × (feature_of at j ≡ value f)
      × (features_from (suc index) js ≡ value rest)
      × (fs ≡ f ∷ rest)
unfolding features_from
features_cons index j js fs h =
    let at = utf16 "features[" ++ decimal index ++ utf16 "]" in
    elim (Checked-cases (feature_of at j)) [
      | inr (e, hf) ↦ absurd (ground arith)
      | inl (f, hf) ↦ elim (Checked-cases (features_from (suc index) js)) [
        | inr (e, hr) ↦ absurd (ground arith)
        | inl (rest, hr) ↦ (f, rest, at, hf, hr, ground arith)
      ]
    ]

features_from-IsFeature :
    (index : ℕ) (js : List Json) (fs : List Feature)
    → features_from index js ≡ value fs
    → All IsFeature fs × (length fs ≡ length js)
unfolding features_from
features_from-IsFeature index [] [] h = (tt, refl)
features_from-IsFeature index [] (_ ∷ _) h = absurd (ground arith)
features_from-IsFeature index (j ∷ js) fs h =
    let (f, rest, at, hf, hr, e) = features_cons index j js fs h in
    let (good, same) = features_from-IsFeature (suc index) js rest hr in
    rw e ((feature_of-IsFeature at j f hf, good), ap suc same)

title_again :
    (at : JsText) (f : Feature) → IsFeature f → title_of at (some (text f.title)) ≡ value f.title
unfolding title_of
title_again at f h = ground (arith, h.filled, h.short, h.clean)

feature_again : (at : JsText) (f : Feature) → IsFeature f → feature_of at (feature_json f) ≡ value f
unfolding feature_of feature_json icon_of subtitle_of member field_of text_eq utf16
feature_again at f h = elim (Option-cases f.subtitle) [
  | inl e ↦ ground (arith, h.icon, title_again at f h)
  | inr (s, e) ↦ ground (arith, h.icon, title_again at f h, h.subtitle s e)
]

features_again :
    (index : ℕ) (fs : List Feature)
    → All IsFeature fs
    → features_from index (elements (features_json fs)) ≡ value fs
unfolding features_from features_json elements
features_again index [] h = refl
features_again index (f ∷ fs) h = ground (
  arith,
  feature_again (utf16 "features[" ++ decimal index ++ utf16 "]") f h.0,
  features_again (suc index) fs h.1,
)

length-features_json : (fs : List Feature) → length (elements (features_json fs)) ≡ length fs
unfolding elements features_json
length-features_json [] = refl
length-features_json (f ∷ fs) = ap suc (length-features_json fs)

-- A list that is accepted has at most six features, each with an icon name of 1 to 40 of the letters,
-- digits and dashes, a trimmed title of 1 to 60 units and a subtitle, where there is one, of at most 90.
pub validate_features-IsFeature :
    (j : Json) (fs : List Feature)
    → validate_features j ≡ value fs
    → (length fs ≤ 6) × All IsFeature fs
unfolding validate_features
validate_features-IsFeature (array items) fs h =
    let (good, same) = features_from-IsFeature 0 (elements items) fs (ground arith) in
    (ground (arith, same), good)
validate_features-IsFeature null fs h = absurd (ground arith)
validate_features-IsFeature (flag _) fs h = absurd (ground arith)
validate_features-IsFeature (number _) fs h = absurd (ground arith)
validate_features-IsFeature (text _) fs h = absurd (ground arith)
validate_features-IsFeature (object _) fs h = absurd (ground arith)

-- What an accepted list is stored as is accepted again, unchanged.
validate_features_again :
    (j : Json) (fs : List Feature)
    → validate_features j ≡ value fs
    → validate_features (array (features_json fs)) ≡ value fs
unfolding validate_features
validate_features_again j fs h =
    let (few, good) = validate_features-IsFeature j fs h in
    ground (arith, length-features_json fs, features_again 0 fs good)
