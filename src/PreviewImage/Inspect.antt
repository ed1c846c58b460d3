-- ===== src/PreviewImage/Inspect.antt =====
-- What the inspection of a cover image admits, and how it refuses.
use virtual_lab.Prelude.{
  ℕ, ◌+◌, ◌*◌, ◌≤◌, ◌<◌, Bool, false, not, ◌&&◌, ◌||◌, some, List, [], ◌∷◌, ◌≡◌, ◌⊎◌, inl, inr,
  refl, arith, subst, if◌then◌else◌, ltb, length, Bool-cases,
}
use virtual_lab.JsText.{starts_with}
use virtual_lab.HttpError.{Failure, describe_error}
use virtual_lab.Db.Tx.{Result, ok, throw}
use virtual_lab.PreviewImage.{
  read_u32, Scan, png_size, jpeg_size, Kind, png, jpg, Inspected, checked, inspect_preview,
  preview_max_bytes, preview_max_dimension, preview_min_width, truncated, narrow, too_wide,
  too_heavy, other_type, aspect_warning, png_signature, jpeg_signature, has_byte,
}
use virtual_lab.PreviewImage.Walk.{IsAnswer, jpeg_size-IsAnswer, read_u16-inside}

read_u32-inside : (b : List ℕ) (i : ℕ) → i + 3 < length b → (x : ℕ) × (read_u32 b i ≡ some x)
unfolding read_u32
read_u32-inside b i h =
    let (hi, e) = read_u16-inside b i (omega arith) in
    let (lo, f) = read_u16-inside b (i + 2) (omega arith) in (hi * 65536 + lo, ground (arith, e, f))

png_size-IsAnswer : (b : List ℕ) → IsAnswer (png_size b)
unfolding png_size
png_size-IsAnswer b =
    elim (Bool-cases (
      ltb (length b) 24
      || not
          (has_byte b 12 b'I' && has_byte b 13 b'H' && has_byte b 14 b'D' && has_byte b 15 b'R'))) [
            | inl bad ↦ inl (ground arith)
            | inr good ↦
                let (w, e) = read_u32-inside b 16 (ground arith) in
                let (h, f) = read_u32-inside b 20 (ground arith) in inr (w, h, ground (arith, e, f))
          ]

-- A size in the bounds of the configuration.
abbrev pub IsAdmitted : ℕ → ℕ → Type 0
IsAdmitted w h =
    (preview_min_width ≤ w) × (w ≤ preview_max_dimension) × (1 ≤ h) × (h ≤ preview_max_dimension)

module _ (is_off_aspect : ℕ → ℕ → Bool) where
  -- Admitted with a size in the bounds, or refused with 400.
  abbrev pub IsVerdict : Result Inspected → Type 0
  IsVerdict r =
      ((i : Inspected) × (r ≡ ok i) × IsAdmitted i.width i.height)
      ⊎ ((e : Failure) × (r ≡ throw e) × ((describe_error e).status ≡ 400))

  checked-IsVerdict :
      (kind : Kind) (s : Scan) → IsAnswer s → IsVerdict (checked is_off_aspect kind s)
  unfolding checked describe_error narrow
  checked-IsVerdict kind s (inl e) = inr (truncated, ground (arith, e), refl)
  checked-IsVerdict kind s (inr (w, h, e)) = elim (Bool-cases (ltb w 1 || ltb h 1)) [
    | inl zero_size ↦ inr (truncated, ground (arith, e), refl)
    | inr positive ↦
        elim (Bool-cases (ltb preview_max_dimension w || ltb preview_max_dimension h)) [
          | inl huge ↦ inr (too_wide, ground (arith, e), refl)
          | inr bounded ↦ elim (Bool-cases (ltb w preview_min_width)) [
            | inl thin ↦ inr (narrow w, ground (arith, e), refl)
            | inr wide ↦ inl (
              record {
                kind = kind;
                width = w;
                height = h;
                warnings = if is_off_aspect w h then aspect_warning w h ∷ [] else [];
              },
              ground (arith, e),
              (ground arith, ground arith, ground arith, ground arith),
            )
          ]
        ]
  ]

  -- For any bytes at all the inspection ends: it admits an image whose sides are in the bounds of the
  -- configuration, from at most `preview_max_bytes`, or it refuses with 400. It is never a 500.
  pub inspect_preview-IsVerdict :
      (b : List ℕ)
      → IsVerdict (inspect_preview is_off_aspect b)
        × ((i : Inspected) → inspect_preview is_off_aspect b ≡ ok i → length b ≤ preview_max_bytes)
  unfolding inspect_preview describe_error
  inspect_preview-IsVerdict b = elim (Bool-cases (ltb preview_max_bytes (length b))) [
    | inl heavy ↦ (inr (too_heavy, ground arith, refl), λ i h. ground arith)
    | inr light ↦ (kinds light, λ i h. ground arith)
  ]
    where
      kinds : ltb preview_max_bytes (length b) ≡ false → IsVerdict (inspect_preview is_off_aspect b)
      kinds light = elim (Bool-cases (starts_with png_signature b)) [
        | inl is_png ↦
            subst IsVerdict {x = checked is_off_aspect png (png_size b)} (ground arith)
              (checked-IsVerdict png (png_size b) (png_size-IsAnswer b))
        | inr not_png ↦ elim (Bool-cases (starts_with jpeg_signature b)) [
          | inl is_jpeg ↦
              subst IsVerdict {x = checked is_off_aspect jpg (jpeg_size b)} (ground arith)
                (checked-IsVerdict jpg (jpeg_size b) (jpeg_size-IsAnswer b))
          | inr neither ↦ inr (other_type, ground arith, refl)
        ]
      ]
