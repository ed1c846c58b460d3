-- ===== src/Prelude/Search.antt =====
-- Searches, counts and filters by Boolean tests: how they bear on one another.
use virtual_lab.Prelude.Lists.{find, keep, count_if, any, length, All}
use virtual_lab.Prelude.Tests.{Bool-cases}
use Prim.Native.Nat.{◌≤◌, ◌<◌}
use mathlib.Core.Path.{◌≡◌, refl, subst}
use mathlib.Core.Logic.{inl, inr}
use mathlib.Core.Bool.{Bool, true, false, not, ◌&&◌}
use mathlib.Core.Option.{none, some}
use mathlib.Core.List.{List, [], ◌∷◌}
use native.Mathlib.Omega.{arith}

module _ {A : Type 0} (p : A → Bool) where
  -- Where a count is zero nothing is found, and where it is not, something is.
  pub find_of_count_zero : (xs : List A) → count_if p xs ≡ 0 → find p xs ≡ none
  unfolding count_if find
  find_of_count_zero [] h = refl
  find_of_count_zero (x ∷ xs) h = ground (arith, find_of_count_zero xs)

  pub count_of_find-none : (xs : List A) → find p xs ≡ none → count_if p xs ≡ 0
  unfolding count_if find
  count_of_find-none [] h = refl
  count_of_find-none (x ∷ xs) h = ground (arith, count_of_find-none xs)

  pub find_holds : (xs : List A) (x : A) → find p xs ≡ some x → p x ≡ true
  unfolding find
  find_holds [] x h = cc
  find_holds (y ∷ xs) x h = ground (arith, find_holds xs x)

  pub any_iff_find : (xs : List A) → any p xs ≡ false → find p xs ≡ none
  unfolding any find
  any_iff_find [] h = refl
  any_iff_find (x ∷ xs) h = ground (arith, any_iff_find xs)

  -- A count of at most one makes what is found the only one.
  none_left : (xs : List A) (x : A) → count_if p xs ≡ 0 → All (λ y. p y ≡ true → y ≡ x) xs
  unfolding count_if
  none_left [] x h = tt
  none_left (y ∷ xs) x h = (λ e. ground arith, none_left xs x (ground arith))

  pub unique_of_count :
      (xs : List A) (x : A)
      → count_if p xs ≤ 1
      → find p xs ≡ some x
      → All (λ y. p y ≡ true → y ≡ x) xs
  unfolding count_if find
  unique_of_count [] x c h = tt
  unique_of_count (y ∷ xs) x c h = elim (Bool-cases (p y)) [
    | inl hit ↦ (λ e. ground arith, none_left xs x (ground arith))
    | inr miss ↦ (λ e. cc, unique_of_count xs x (ground arith) (ground arith))
  ]

module _ {A : Type 0} (p q : A → Bool) where
  pub count-keep-le : (xs : List A) → count_if p (keep q xs) ≤ count_if p xs
  unfolding count_if keep
  count-keep-le [] = omega arith
  count-keep-le (x ∷ xs) = ground (arith, count-keep-le xs)

  -- A filter that keeps what the search looks for does not change the search.
  pub find-keep :
      (xs : List A) → All (λ x. p x ≡ true → q x ≡ true) xs → find p (keep q xs) ≡ find p xs
  unfolding find keep
  find-keep [] h = refl
  find-keep (x ∷ xs) h = ground (arith, h.0, find-keep xs h.1)

module _ {A : Type 0} {P : A → Type 0} {Q : A → Type 0} (f : (a : A) → P a → Q a) where
  pub All-mono : (xs : List A) → All P xs → All Q xs
  All-mono [] h = tt
  All-mono (x ∷ xs) h = (f x h.0, All-mono xs h.1)

-- A stronger test `p` against a weaker one `q`.
module _ {A : Type 0} (p q : A → Bool) (weaker : (a : A) → p a ≡ true → q a ≡ true) where
  pub count_mono : (xs : List A) → count_if p xs ≤ count_if q xs
  unfolding count_if
  count_mono [] = omega arith
  count_mono (x ∷ xs) = ground (arith, count_mono xs, weaker x)

  pub count_pos_of_find : (xs : List A) (x : A) → find p xs ≡ some x → 0 < count_if q xs
  unfolding find count_if
  count_pos_of_find [] x h = cc
  count_pos_of_find (y ∷ xs) x h = ground (arith, count_pos_of_find xs x, weaker y)

  -- Where at most one element passes the weaker test, it is what the stronger one found.
  pub find_weaker :
      (xs : List A) (x : A) → count_if q xs ≤ 1 → find p xs ≡ some x → find q xs ≡ some x
  unfolding find count_if
  find_weaker [] x c h = cc
  find_weaker (y ∷ xs) x c h = ground (arith, find_weaker xs x, count_pos_of_find xs x, weaker y)

module _ {A : Type 0} (P : A → Type 0) (q : A → Bool) where
  pub All-keep : (xs : List A) → All P xs → All P (keep q xs)
  unfolding keep
  All-keep [] h = tt
  All-keep (x ∷ xs) h = ground (arith, All-keep xs h.1)

module _ {A : Type 0} (p : A → Bool) where
  pub count_zero_of_All : (xs : List A) → All (λ x. p x ≡ false) xs → count_if p xs ≡ 0
  unfolding count_if
  count_zero_of_All [] h = refl
  count_zero_of_All (x ∷ xs) h = ground (arith, count_zero_of_All xs h.1)

  -- Nothing passes a test that asks for more than one that nothing passes.
  pub any_of_count_zero :
      (more : A → Bool) (xs : List A) → count_if p xs ≡ 0 → any (λ x. p x && more x) xs ≡ false
  unfolding count_if any
  any_of_count_zero more [] h = refl
  any_of_count_zero more (x ∷ xs) h = ground (arith, any_of_count_zero more xs)

  pub any_of_find : (xs : List A) (x : A) → find p xs ≡ some x → any p xs ≡ true
  unfolding find any
  any_of_find [] x h = cc
  any_of_find (y ∷ xs) x h = ground (arith, any_of_find xs x)

  pub find_of_any : (xs : List A) → any p xs ≡ true → (x : A) × (find p xs ≡ some x)
  unfolding find any
  find_of_any [] h = cc
  find_of_any (y ∷ xs) h = elim (Bool-cases (p y)) [
    | inl hit ↦ (y, ground arith)
    | inr miss ↦ let (x, found) = find_of_any xs (ground arith) in (x, ground arith)
  ]

-- What holds of every element holds of the one that a search finds.
module _ {A : Type 0} (P : A → Type 0) (q : A → Bool) where
  pub All-find : (xs : List A) (x : A) → All P xs → find q xs ≡ some x → P x
  unfolding find
  All-find [] x h e = cc
  All-find (y ∷ xs) x h e = elim (Bool-cases (q y)) [
    | inl hit ↦ subst P (ground arith) h.0
    | inr miss ↦ All-find xs x h.1 (ground arith)
  ]

module _ {A : Type 0} (p q : A → Bool) where
  -- A search in a filtered list is a search for both tests.
  pub find-of_keep : (xs : List A) → find p (keep q xs) ≡ find (λ x. q x && p x) xs
  unfolding find keep
  find-of_keep [] = refl
  find-of_keep (x ∷ xs) = ground (arith, find-of_keep xs)

module _ {A : Type 0} (q : A → Bool) where
  pub length-keep : (xs : List A) → length (keep q xs) ≡ count_if q xs
  unfolding keep count_if
  length-keep [] = refl
  length-keep (x ∷ xs) = ground (arith, length-keep xs)

  pub All-false_of_count_zero : (xs : List A) → count_if q xs ≡ 0 → All (λ x. q x ≡ false) xs
  unfolding count_if
  All-false_of_count_zero [] h = tt
  All-false_of_count_zero (x ∷ xs) h = (ground arith, All-false_of_count_zero xs (ground arith))

module _ {A : Type 0} (p q : A → Bool) where
  -- A filter that drops all that passes a test leaves none that does.
  pub count-keep_zero :
      (xs : List A) → All (λ x. p x ≡ true → q x ≡ false) xs → count_if p (keep q xs) ≡ 0
  unfolding count_if keep
  count-keep_zero [] h = refl
  count-keep_zero (x ∷ xs) h = ground (arith, h.0, count-keep_zero xs h.1)

  -- A filter that drops an element with the test lowers the count.
  pub count-keep-lt :
      (xs : List A) (x : A)
      → find (λ y. p y && not (q y)) xs ≡ some x
      → count_if p (keep q xs) < count_if p xs
  unfolding count_if keep find
  count-keep-lt [] x h = cc
  count-keep-lt (y ∷ xs) x h = ground (arith, count-keep-lt xs x, count-keep-le p q xs)

-- Tests that agree find the same.
pub find-same :
    {A : Type 0} (p q : A → Bool) → ((a : A) → q a ≡ p a) → (xs : List A) → find q xs ≡ find p xs
unfolding find
find-same p q same [] = refl
find-same p q same (x ∷ xs) = ground (arith, same x, find-same p q same xs)

module _ {A : Type 0} (p : A → Bool) where
  pub none_of_count_zero : (xs : List A) → count_if p xs ≡ 0 → any p xs ≡ false
  unfolding count_if any
  none_of_count_zero [] h = refl
  none_of_count_zero (x ∷ xs) h = ground (arith, none_of_count_zero xs)
