-- ===== src/Versions/Param.antt =====
-- Version ids in a path: what `getVersionByParam` accepts.
use virtual_lab.Prelude.{
  ℕ, zero, suc, ◌+◌, ◌*◌, ◌/◌, ◌%◌, ◌≤◌, ◌<◌, Bool, true, false, [], ◌∷◌, ◌≡◌, refl, arith, length,
  all, leb, ltb, ◌&&◌, ◌-◌, find, Option-cases, inl, inr, Bool-cases,
}
use virtual_lab.Prelude.Search.{find_holds}
use virtual_lab.JsText.{JsText, is_digit, number_of, number_from, decimal, digits_from}
use virtual_lab.JsText.Laws.{text_eq_iff}
use virtual_lab.Db.Rows.{Db}
use virtual_lab.Db.Tx.{ok}
use virtual_lab.Versions.{
  is_version_id, is_version, get_version_by_param, get_version, Shown, shown,
}

-- The largest number that `n` digits can follow `b` to.
grow : ℕ → ℕ → ℕ
grow b zero = b
grow b (suc n) = grow (b * 10 + 9) n

grow-le : (b n m : ℕ) → n ≤ m → grow b n ≤ grow b m
unfolding grow
grow-le b zero zero h = omega arith
grow-le b zero (suc m) h = omega (arith, grow-le (b * 10 + 9) zero m (omega arith))
grow-le b (suc n) (suc m) h = grow-le (b * 10 + 9) n m (omega arith)
grow-le b (suc n) zero h = absurd (omega arith)

number_from-le :
    (acc b : ℕ) (s : JsText)
    → all is_digit s ≡ true
    → acc ≤ b
    → number_from acc s ≤ grow b (length s)
unfolding number_from grow all is_digit
number_from-le acc b [] h le = le
number_from-le acc b (c ∷ s) h le =
    number_from-le (acc * 10 + (c - b'0')) (b * 10 + 9) s (ground arith) (ground arith)

number_from-ge : (acc : ℕ) (s : JsText) → acc ≤ number_from acc s
unfolding number_from
number_from-ge acc [] = omega arith
number_from-ge acc (c ∷ s) = omega (arith, number_from-ge (acc * 10 + (c - b'0')) s)

-- An accepted id is a positive number that a PostgreSQL `integer` holds.
is_version_id_bounds :
    (s : JsText) → is_version_id s ≡ true → (1 ≤ number_of s) × (number_of s ≤ 999999999)
unfolding is_version_id number_of number_from grow
is_version_id_bounds [] h = cc
is_version_id_bounds (c ∷ s) h = (
  ground (arith, number_from-ge (c - b'0') s),
  ground (
    arith,
    number_from-le (c - b'0') 9 s (ground arith) (ground arith),
    grow-le 9 (length s) 8 (ground arith),
  ),
)

-- A version that is found is the scenario's own, with the id that the path spells, and the id is in
-- the range of a PostgreSQL `integer`; nothing is written.
pub get_version_by_param_found :
    (id raw : JsText) (db db' : Db) (w : Shown)
    → get_version_by_param id raw db ≡ ok (w, db')
    → (db' ≡ db)
      × (w.version.scenario_id ≡ id)
      × (w.version.id ≡ number_of raw)
      × (1 ≤ w.version.id)
      × (w.version.id ≤ 999999999)
unfolding get_version_by_param get_version shown
get_version_by_param_found id raw db db' w h = elim (Bool-cases (is_version_id raw)) [
  | inr malformed ↦ ground arith
  | inl good ↦ elim (Option-cases (find (is_version id (number_of raw)) db.versions)) [
    | inl missing ↦ ground arith
    | inr (v, e) ↦
        let hit = find_holds (is_version id (number_of raw)) db.versions v e in
        let bounds = is_version_id_bounds raw good in
        (
          ground arith,
          ground (arith, text_eq_iff v.scenario_id id),
          ground arith,
          ground arith,
          ground arith,
        )
  ]
]

digits_number :
    (fuel n : ℕ) (acc : JsText)
    → n < fuel
    → number_from 0 (digits_from fuel n acc) ≡ number_from n acc
unfolding number_from digits_from
digits_number zero n acc h = absurd (omega arith)
digits_number (suc fuel) n acc h = elim (Bool-cases (ltb n 10)) [
  | inl small ↦ ground arith
  | inr big ↦ ground (arith, digits_number fuel (n / 10) ((b'0' + n % 10) ∷ acc) (ground arith))
]

-- The number that a decimal numeral spells.
pub number_of-decimal : (n : ℕ) → number_of (decimal n) ≡ n
unfolding number_of decimal number_from
number_of-decimal n = digits_number (suc n) n [] (omega arith)

leads : JsText → Bool
leads [] = false
leads (c ∷ s) = leb b'1' c && leb c b'9'

digits_leads :
    (fuel n : ℕ) (acc : JsText) → n < fuel → 1 ≤ n → leads (digits_from fuel n acc) ≡ true
unfolding leads digits_from
digits_leads zero n acc h pos = absurd (omega arith)
digits_leads (suc fuel) n acc h pos = elim (Bool-cases (ltb n 10)) [
  | inl small ↦ ground arith
  | inr big ↦
      ground
        (arith, digits_leads fuel (n / 10) ((b'0' + n % 10) ∷ acc) (ground arith) (ground arith))
]

digits_digits :
    (fuel n : ℕ) (acc : JsText)
    → all is_digit acc ≡ true
    → all is_digit (digits_from fuel n acc) ≡ true
unfolding all is_digit digits_from
digits_digits zero n acc h = h
digits_digits (suc fuel) n acc h = elim (Bool-cases (ltb n 10)) [
  | inl small ↦ ground arith
  | inr big ↦ ground (arith, digits_digits fuel (n / 10) ((b'0' + n % 10) ∷ acc) (ground arith))
]

top : ℕ → ℕ
top zero = 9
top (suc k) = top k * 10 + 9

digits_length :
    (fuel n k : ℕ) (acc : JsText) → n ≤ top k → length (digits_from fuel n acc) ≤ suc k + length acc
unfolding top digits_from
digits_length zero n k acc h = omega arith
digits_length (suc fuel) n zero acc h = ground arith
digits_length (suc fuel) n (suc k) acc h = elim (Bool-cases (ltb n 10)) [
  | inl small ↦ ground arith
  | inr big ↦ ground (arith, digits_length fuel (n / 10) k ((b'0' + n % 10) ∷ acc) (ground arith))
]

is_version_id_of :
    (s : JsText) → leads s ≡ true → all is_digit s ≡ true → length s ≤ 9 → is_version_id s ≡ true
unfolding is_version_id leads all
is_version_id_of [] h d l = cc
is_version_id_of (c ∷ s) h d l = ground arith

-- The path that a client builds from a version's id reaches that version.
pub get_version_by_param-decimal :
    (id : JsText) (vid : ℕ) (db : Db)
    → 1 ≤ vid
    → vid ≤ 999999999
    → get_version_by_param id (decimal vid) db ≡ get_version id vid db
unfolding get_version_by_param decimal top all
get_version_by_param-decimal id vid db low high = ground (
  arith,
  is_version_id_of (decimal vid) (digits_leads (suc vid) vid [] (omega arith) low)
      (digits_digits (suc vid) vid [] refl) (digits_length (suc vid) vid 8 [] high),
  number_of-decimal vid,
)
