-- ===== src/TestRunInput/Ranges.antt =====
-- What the range test of a test run's number means.
use virtual_lab.Prelude.{
  ℕ, suc, zero, ◌+◌, ◌%◌, ◌/◌, ◌≤◌, true, false, [], ◌∷◌, ◌≡◌, ◌↔◌, refl, arith, all, any, ltb,
  ◌==◌, Bool-cases, inl, inr,
}
use virtual_lab.JsText.{JsText, utf16, text_eq, is_digit, decimal, digits_from}
use virtual_lab.TestRunInput.{whole_part, is_within, starts_minus}
use virtual_lab.Versions.Param.{number_of-decimal}

digit_of : (n : ℕ) → is_digit (b'0' + n % 10) ≡ true
unfolding is_digit
digit_of n = ground arith

all-digits_from :
    (fuel n : ℕ) (acc : JsText)
    → all is_digit acc ≡ true
    → all is_digit (digits_from fuel n acc) ≡ true
unfolding digits_from all
all-digits_from zero n acc h = h
all-digits_from (suc fuel) n acc h = elim (Bool-cases (ltb n 10)) [
  | inl small ↦ ground (arith, digit_of n)
  | inr big ↦ ground (
    arith,
    digit_of n,
    all-digits_from fuel (n / 10) ((b'0' + n % 10) ∷ acc) (ground (arith, digit_of n)),
  )
]

all-decimal : (n : ℕ) → all is_digit (decimal n) ≡ true
unfolding decimal all
all-decimal n = all-digits_from (suc n) n [] refl

-- What a text of digits does not have.
record Numeral (s : JsText) : Type 0 where
  whole : whole_part s ≡ s
  no_plus : any (λ c. c == b'+') s ≡ false
  no_exponent : any (λ c. c == b'e') s ≡ false
  no_point : any (λ c. c == b'.') s ≡ false
  no_minus : starts_minus s ≡ false
  finite : text_eq s (utf16 "Infinity") ≡ false

digits_only : (s : JsText) → all is_digit s ≡ true → Numeral s
unfolding whole_part any all is_digit text_eq utf16
digits_only [] h = record {
  whole = refl;
  no_plus = refl;
  no_exponent = refl;
  no_point = refl;
  no_minus = refl;
  finite = refl;
}
digits_only (c ∷ s) h =
    let rest = digits_only s (ground arith) in
    record {
      whole = ground (arith, rest.whole);
      no_plus = ground (arith, rest.no_plus);
      no_exponent = ground (arith, rest.no_exponent);
      no_point = ground (arith, rest.no_point);
      no_minus = ground arith;
      finite = ground arith;
    }

-- The text of a whole number passes exactly when the number is no larger than the maximum.
pub is_within-decimal : (max n : ℕ) → (is_within max (decimal n) ≡ true) ↔ (n ≤ max)
unfolding is_within
is_within-decimal max n =
    let d = digits_only (decimal n) (all-decimal n) in
    (
      λ h. ground (
        arith,
        d.whole,
        d.no_plus,
        d.no_exponent,
        d.no_point,
        d.no_minus,
        d.finite,
        number_of-decimal n,
      ),
      λ h. ground (
        arith,
        d.whole,
        d.no_plus,
        d.no_exponent,
        d.no_point,
        d.no_minus,
        d.finite,
        number_of-decimal n,
      ),
    )
