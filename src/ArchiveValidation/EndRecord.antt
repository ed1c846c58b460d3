-- ===== src/ArchiveValidation/EndRecord.antt =====
-- The search for the end record of a ZIP archive.
use virtual_lab.Prelude.{
  ℕ, zero, suc, ◌+◌, ◌<◌, true, false, none, List, ◌≡◌, ◌⊎◌, inl, inr, refl, arith, Bool-cases,
  ◌==◌,
}
use virtual_lab.ArchiveValidation.{signature, has_bytes, drop_bytes, read_u16le, search_end}

-- The signature stands at `at`, and nowhere after it below `n`.
pub record IsLast (tail : List ℕ) (n at : ℕ) : Type 0 where
  pub within : at < n
  pub here : has_bytes signature (drop_bytes at tail) ≡ true
  pub last : (k : ℕ) → at < k → k < n → has_bytes signature (drop_bytes k tail) ≡ false

below_cases : (k n : ℕ) → k < suc n → (k ≡ n) ⊎ (k < n)
below_cases k n h = elim (Bool-cases (k == n)) [
  | inl same ↦ inl (ground arith)
  | inr other ↦ inr (ground arith)
]

search-cases :
    (tail : List ℕ) (n : ℕ)
    → ((at : ℕ) × IsLast tail n at × (search_end tail n ≡ read_u16le tail (at + 10)))
      ⊎ (((k : ℕ) → k < n → has_bytes signature (drop_bytes k tail) ≡ false)
          × (search_end tail n ≡ none))
unfolding search_end
search-cases tail zero = inr (λ k h. absurd (omega (arith, h)), refl)
search-cases tail (suc n) = elim (Bool-cases (has_bytes signature (drop_bytes n tail))) [
  | inl hit ↦ inl (
    n,
    record { within = omega arith; here = hit; last = λ k a b. absurd (omega (arith, a, b)) },
    ground arith,
  )
  | inr miss ↦ elim (search-cases tail n) [
    | inl (at, l, e) ↦ inl (
      at,
      record {
        within = omega (arith, l.within);
        here = l.here;
        last = λ k a b. elim (below_cases k n b) [
          | inl same ↦ ground arith
          | inr other ↦ l.last k a other
        ];
      },
      ground arith,
    )
    | inr (nowhere, e) ↦ inr (
      λ k b. elim (below_cases k n b) [ inl same ↦ ground arith | inr other ↦ nowhere k other ],
      ground arith,
    )
  ]
]
