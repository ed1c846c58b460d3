-- ===== src/PreviewImage/Walk.antt =====
-- The walk over the segments of a JPEG ends, and stays inside the buffer.
use virtual_lab.Prelude.{
  ℕ, zero, suc, ◌+◌, ◌*◌, ◌≤◌, ◌<◌, ◌&&◌, ◌||◌, some, List, [], ◌∷◌, ◌≡◌, ◌⊎◌, inl, inr, refl,
  arith, subst, leb, ltb, ◌==◌, length, Bool-cases,
}
use virtual_lab.PreviewImage.{
  byte, read_u16, is_start_of_frame, Scan, found, absent, Next, stop, go, frame, sized, segment,
  walk, jpeg_size,
}

byte-inside : (b : List ℕ) (i : ℕ) → i < length b → (x : ℕ) × (byte b i ≡ some x)
unfolding byte
byte-inside [] i h = absurd (omega arith)
byte-inside (x ∷ xs) zero h = (x, refl)
byte-inside (x ∷ xs) (suc i) h = byte-inside xs i (omega arith)

pub read_u16-inside : (b : List ℕ) (i : ℕ) → i + 1 < length b → (x : ℕ) × (read_u16 b i ≡ some x)
unfolding read_u16
read_u16-inside b i h =
    let (hi, e) = byte-inside b i (omega arith) in
    let (lo, f) = byte-inside b (i + 1) h in (hi * 256 + lo, ground (arith, e, f))

-- An end of the walk that the code has: null, or a size.
abbrev pub IsAnswer : Scan → Type 0
IsAnswer s = (s ≡ absent) ⊎ ((w : ℕ) × (h : ℕ) × (s ≡ found w h))

-- One turn answers, or goes on further in.
abbrev IsTurn : List ℕ → ℕ → Next → Type 0
IsTurn b at n =
    ((s : Scan) × (n ≡ stop s) × IsAnswer s) ⊎ ((k : ℕ) × (n ≡ go k) × (at < k) × (at < length b))

frame-IsAnswer : (b : List ℕ) (at : ℕ) → IsAnswer (frame b at)
unfolding frame
frame-IsAnswer b at = elim (Bool-cases (leb (at + 9) (length b))) [
  | inr short ↦ inl (ground arith)
  | inl enough ↦
      let (h, e) = read_u16-inside b (at + 5) (ground arith) in
      let (w, f) = read_u16-inside b (at + 7) (ground arith) in inr (w, h, ground (arith, e, f))
]

sized-IsTurn : (b : List ℕ) (at marker : ℕ) → at + 4 ≤ length b → IsTurn b at (sized b at marker)
unfolding sized
sized-IsTurn b at marker inside =
    let (len, e) = read_u16-inside b (at + 2) (omega arith) in
    elim (Bool-cases (ltb len 2)) [
      | inl tiny ↦ inl (absent, ground (arith, e), inl refl)
      | inr proper ↦ elim (Bool-cases (is_start_of_frame marker)) [
        | inl header ↦ inl (frame b at, ground (arith, e), frame-IsAnswer b at)
        | inr skipped ↦ inr (at + (2 + len), ground (arith, e), omega arith, omega arith)
      ]
    ]

segment-IsTurn : (b : List ℕ) (at : ℕ) → IsTurn b at (segment b at)
unfolding segment
segment-IsTurn b at = elim (Bool-cases (leb (at + 4) (length b))) [
  | inr short ↦ inl (absent, ground arith, inl refl)
  | inl enough ↦
      let (lead, e) = byte-inside b at (ground arith) in
      let (m, f) = byte-inside b (at + 1) (ground arith) in
      elim (Bool-cases (lead == 0xff)) [
        | inr garbage ↦ inl (absent, ground (arith, e), inl refl)
        | inl marked ↦ elim (Bool-cases (m == 0xff)) [
          | inl fill ↦ inr (at + 1, ground (arith, e, f), omega arith, ground arith)
          | inr solid ↦ elim (Bool-cases (m == 0xd8 || m == 0x01 || leb 0xd0 m && leb m 0xd7)) [
            | inl bare ↦ inr (at + 2, ground (arith, e, f), omega arith, ground arith)
            | inr long ↦ elim (Bool-cases (m == 0xd9 || m == 0xda)) [
              | inl final ↦ inl (absent, ground (arith, e, f), inl refl)
              | inr middle ↦
                  subst (IsTurn b at) {x = sized b at m} (ground (arith, e, f))
                    (sized-IsTurn b at m (ground arith))
            ]
          ]
        ]
      ]
]

walk-IsAnswer :
    (fuel : ℕ) (b : List ℕ) (at : ℕ) → length b < at + fuel → 1 ≤ fuel → IsAnswer (walk fuel b at)
unfolding walk
walk-IsAnswer zero b at h pos = absurd (omega arith)
walk-IsAnswer (suc fuel) b at h pos = elim (segment-IsTurn b at) [
  | inl (s, e, answer) ↦ subst IsAnswer {x = s} (ground (arith, e)) answer
  | inr (k, e, further, inside) ↦
      subst IsAnswer {x = walk fuel b k} (ground (arith, e))
        (walk-IsAnswer fuel b k (omega arith) (omega arith))
]

-- For any bytes at all the walk ends with null or a size: the fuel is enough, whatever lengths the
-- segments claim, and no read is outside the buffer.
pub jpeg_size-IsAnswer : (b : List ℕ) → IsAnswer (jpeg_size b)
unfolding jpeg_size
jpeg_size-IsAnswer b = walk-IsAnswer (suc (length b)) b 2 (omega arith) (omega arith)
