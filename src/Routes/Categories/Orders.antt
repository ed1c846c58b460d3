-- ===== src/Routes/Categories/Orders.antt =====
-- The `slugs` that a reorder request may send.
use virtual_lab.Prelude.{
  false, not, Option, none, some, List, [], ◌∷◌, map, ◌≡◌, ◌↔◌, inl, inr, refl, ap, arith, ◌∙◌, any,
  keep, length, ==_iff, Option-cases,
}
use virtual_lab.JsText.{JsText, text_eq}
use virtual_lab.Json.{Json, null, flag, number, text, array, object, Items, elements}
use virtual_lab.Routes.Bulk.{distinct}
use virtual_lab.Routes.Categories.{listed_in, all_strings, reorder_slugs}
use virtual_lab.Routes.Categories.Sets.{IsDistinct, no_repeats}

-- An array of exactly these strings, no two the same.
pub record IsOrder (j : Option Json) (slugs : List JsText) : Type 0 where
  pub items : Items
  pub is_array : j ≡ some (array items)
  pub strings : elements items ≡ map text slugs
  pub unrepeated : IsDistinct slugs

-- Dropping what is not there drops nothing.
keep_unlisted :
    (x : JsText) (ys : List JsText) → listed_in ys x ≡ false → keep (λ y. not (text_eq y x)) ys ≡ ys
unfolding keep any
keep_unlisted x [] h = refl
keep_unlisted x (y ∷ ys) h = ground (arith, keep_unlisted x ys)

distinct_self : (xs : List JsText) → IsDistinct xs → distinct xs ≡ xs
unfolding distinct
distinct_self [] h = refl
distinct_self (x ∷ xs) h = ground (arith, distinct_self xs h.1, keep_unlisted x xs h.0)

strings_taken : (js : List Json) (ss : List JsText) → all_strings js ≡ some ss → js ≡ map text ss
unfolding all_strings
strings_taken [] ss h = ground arith
strings_taken (text s ∷ js) ss h = elim (Option-cases (all_strings js)) [
  | inl e ↦ absurd (ground arith)
  | inr (rest, e) ↦
      ap (λ ts. text s ∷ ts) (strings_taken js rest e)
      ∙ ap (map text) {x = s ∷ rest} {y = ss} (ground arith)
]
strings_taken (null ∷ js) ss h = absurd (ground arith)
strings_taken (flag _ ∷ js) ss h = absurd (ground arith)
strings_taken (number _ ∷ js) ss h = absurd (ground arith)
strings_taken (array _ ∷ js) ss h = absurd (ground arith)
strings_taken (object _ ∷ js) ss h = absurd (ground arith)

all_strings-text : (ss : List JsText) → all_strings (map text ss) ≡ some ss
unfolding all_strings
all_strings-text [] = refl
all_strings-text (s ∷ ss) = ground (arith, all_strings-text ss)

array_of_slugs :
    (j : Option Json) (slugs : List JsText) → reorder_slugs j ≡ some slugs → IsOrder j slugs
unfolding reorder_slugs
array_of_slugs (some (array items)) slugs h = elim (Option-cases (all_strings (elements items))) [
  | inl e ↦ absurd (ground arith)
  | inr (ss, e) ↦ record {
    items = items;
    is_array = refl;
    strings = strings_taken (elements items) slugs (ground arith);
    unrepeated = no_repeats slugs (ground (arith, ==_iff (length (distinct ss)) (length ss)));
  }
]
array_of_slugs none slugs h = absurd (ground arith)
array_of_slugs (some null) slugs h = absurd (ground arith)
array_of_slugs (some (flag _)) slugs h = absurd (ground arith)
array_of_slugs (some (number _)) slugs h = absurd (ground arith)
array_of_slugs (some (text _)) slugs h = absurd (ground arith)
array_of_slugs (some (object _)) slugs h = absurd (ground arith)

slugs_of_array :
    (j : Option Json) (slugs : List JsText) → IsOrder j slugs → reorder_slugs j ≡ some slugs
unfolding reorder_slugs
slugs_of_array j slugs o = ground (
  arith,
  o.is_array,
  o.strings,
  all_strings-text slugs,
  distinct_self slugs o.unrepeated,
  ==_iff (length slugs) (length slugs),
)

pub reorder_slugs_iff :
    (j : Option Json) (slugs : List JsText) → (reorder_slugs j ≡ some slugs) ↔ IsOrder j slugs
reorder_slugs_iff j slugs = (array_of_slugs j slugs, slugs_of_array j slugs)
