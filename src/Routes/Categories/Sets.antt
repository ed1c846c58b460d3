-- ===== src/Routes/Categories/Sets.antt =====
-- Lists of slugs as sets: how lengths and membership of lists without repetition bear on one another.
use virtual_lab.Prelude.{
  suc, ◌≤◌, ◌<◌, true, false, not, List, [], ◌∷◌, ◌≡◌, refl, arith, if◌then◌else◌, any, keep,
  length, Bool-cases, inl, inr,
}
use virtual_lab.JsText.{JsText, text_eq}
use virtual_lab.JsText.Laws.{text_eq_iff}
use virtual_lab.Routes.Bulk.{distinct}
use virtual_lab.Routes.Categories.{listed_in}

-- No slug stands twice.
abbrev pub IsDistinct : List JsText → Type 0
IsDistinct [] = Unit
IsDistinct (x ∷ xs) = (listed_in xs x ≡ false) × IsDistinct xs

listed-keep :
    (x s : JsText) (ys : List JsText)
    → text_eq x s ≡ false
    → listed_in (keep (λ y. not (text_eq y x)) ys) s ≡ listed_in ys s
unfolding any keep
listed-keep x s [] h = refl
listed-keep x s (y ∷ ys) h =
    ground (arith, listed-keep x s ys h, text_eq_iff y x, text_eq_iff y s, text_eq_iff x s)

pub listed-distinct : (xs : List JsText) (s : JsText) → listed_in (distinct xs) s ≡ listed_in xs s
unfolding any distinct
listed-distinct [] s = refl
listed-distinct (x ∷ xs) s = elim (Bool-cases (text_eq x s)) [
  | inl hit ↦ ground arith
  | inr miss ↦ ground (arith, listed-keep x s (distinct xs) miss, listed-distinct xs s)
]

dropped : (x : JsText) (ys : List JsText) → listed_in (keep (λ y. not (text_eq y x)) ys) x ≡ false
unfolding any keep
dropped x [] = refl
dropped x (y ∷ ys) = ground (arith, dropped x ys)

still_unlisted :
    (x s : JsText) (ys : List JsText)
    → listed_in ys s ≡ false
    → listed_in (keep (λ y. not (text_eq y x)) ys) s ≡ false
unfolding any keep
still_unlisted x s [] h = refl
still_unlisted x s (y ∷ ys) h = ground (arith, still_unlisted x s ys)

IsDistinct-keep :
    (x : JsText) (ys : List JsText) → IsDistinct ys → IsDistinct (keep (λ y. not (text_eq y x)) ys)
unfolding keep
IsDistinct-keep x [] h = tt
IsDistinct-keep x (y ∷ ys) h = elim (Bool-cases (text_eq y x)) [
  | inl hit ↦ rw hit (IsDistinct-keep x ys h.1)
  | inr miss ↦ rw miss (still_unlisted x y ys h.0, IsDistinct-keep x ys h.1)
]

pub distinct-IsDistinct : (xs : List JsText) → IsDistinct (distinct xs)
unfolding distinct
distinct-IsDistinct [] = tt
distinct-IsDistinct (x ∷ xs) =
    (dropped x (distinct xs), IsDistinct-keep x (distinct xs) (distinct-IsDistinct xs))

keep-le : (x : JsText) (ys : List JsText) → length (keep (λ y. not (text_eq y x)) ys) ≤ length ys
unfolding keep
keep-le x [] = omega arith
keep-le x (y ∷ ys) = ground (arith, keep-le x ys)

keep-lt :
    (x : JsText) (ys : List JsText)
    → listed_in ys x ≡ true
    → length (keep (λ y. not (text_eq y x)) ys) < length ys
unfolding keep any
keep-lt x [] h = absurd (ground arith)
keep-lt x (y ∷ ys) h = ground (arith, keep-lt x ys, keep-le x ys)

length-distinct-le : (xs : List JsText) → length (distinct xs) ≤ length xs
unfolding distinct
length-distinct-le [] = omega arith
length-distinct-le (x ∷ xs) = omega (arith, keep-le x (distinct xs), length-distinct-le xs)

-- A list that loses nothing as a set repeats nothing.
pub no_repeats : (xs : List JsText) → length (distinct xs) ≡ length xs → IsDistinct xs
unfolding distinct
no_repeats [] h = tt
no_repeats (x ∷ xs) h = (
  ground (arith, listed-distinct xs x, keep-lt x (distinct xs), length-distinct-le xs),
  no_repeats xs (omega (arith, keep-le x (distinct xs), length-distinct-le xs)),
)

drop_one : JsText → List JsText → List JsText
drop_one x [] = []
drop_one x (y ∷ ys) = let rest = drop_one x ys in if text_eq y x then ys else y ∷ rest

length-drop_one :
    (x : JsText) (ys : List JsText)
    → listed_in ys x ≡ true
    → suc (length (drop_one x ys)) ≡ length ys
unfolding drop_one any
length-drop_one x [] h = absurd (ground arith)
length-drop_one x (y ∷ ys) h = ground (arith, length-drop_one x ys)

listed-drop_one :
    (x s : JsText) (ys : List JsText)
    → text_eq x s ≡ false
    → listed_in ys s ≡ true
    → listed_in (drop_one x ys) s ≡ true
unfolding drop_one any
listed-drop_one x s [] n h = h
listed-drop_one x s (y ∷ ys) n h =
    ground (arith, listed-drop_one x s ys n, text_eq_iff y x, text_eq_iff y s, text_eq_iff x s)

-- All that is listed in the one is listed in the other.
abbrev pub Within : List JsText → List JsText → Type 0
Within xs ys = (s : JsText) → listed_in xs s ≡ true → listed_in ys s ≡ true

-- What is left of a list without repetition is within what is left of the other.
rest_subset :
    (x : JsText) (xs ys : List JsText)
    → listed_in xs x ≡ false
    → Within (x ∷ xs) ys
    → Within xs (drop_one x ys)
unfolding any
rest_subset x xs ys new within s h = elim (Bool-cases (text_eq x s)) [
  | inl same ↦ absurd (ground (arith, text_eq_iff x s))
  | inr other ↦ listed-drop_one x s ys other (within s (ground arith))
]

head_listed : (x : JsText) (xs : List JsText) → listed_in (x ∷ xs) x ≡ true
unfolding any
head_listed x xs = ground (arith, text_eq_iff x x)

pub length_of_subset : (xs ys : List JsText) → IsDistinct xs → Within xs ys → length xs ≤ length ys
length_of_subset [] ys d within = omega arith
length_of_subset (x ∷ xs) ys d within = omega (
  arith,
  length_of_subset xs (drop_one x ys) d.1 (rest_subset x xs ys d.0 within),
  length-drop_one x ys (within x (head_listed x xs)),
)

-- A list without repetition within another that is no longer has all of it.
pub subset_back :
    (xs ys : List JsText) → IsDistinct xs → Within xs ys → length ys ≤ length xs → Within ys xs
unfolding any
subset_back [] [] d within short s h = h
subset_back [] (y ∷ ys) d within short s h = absurd (omega (arith, short))
subset_back (x ∷ xs) ys d within short s h = elim (Bool-cases (text_eq x s)) [
  | inl same ↦ ground arith
  | inr other ↦
      let left =
        subset_back xs (drop_one x ys) d.1 (rest_subset x xs ys d.0 within)
          (omega (arith, short, length-drop_one x ys (within x (head_listed x xs)))) s
          (listed-drop_one x s ys other h) in
      ground arith
]
