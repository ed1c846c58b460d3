-- ===== src/Tests/Images.antt =====
-- A JPEG of a frame header alone: 1280 by 800.
use virtual_lab.Prelude.{ℕ, ◌≤◌, Bool, false, List, [], ◌∷◌, ◌≡◌, refl, length}
use virtual_lab.Db.Tx.{ok}
use virtual_lab.PreviewImage.{
  byte, read_u16, frame, sized, segment, walk, jpeg_size, found, inspect_preview, Inspected,
  preview_max_bytes,
}
use virtual_lab.PreviewImage.Walk.{IsAnswer, jpeg_size-IsAnswer}
use virtual_lab.PreviewImage.Inspect.{IsVerdict, inspect_preview-IsVerdict}

abbrev bytes : List ℕ
bytes = 0xff ∷ 0xd8 ∷ 0xff ∷ 0xc0 ∷ 0 ∷ 17 ∷ 8 ∷ 3 ∷ 32 ∷ 5 ∷ 0 ∷ []

tests_jpeg_size : jpeg_size bytes ≡ found 1280 800
unfolding jpeg_size walk segment sized frame read_u16 byte
tests_jpeg_size = refl

jpeg_size-IsAnswer_example : IsAnswer (jpeg_size bytes)
jpeg_size-IsAnswer_example = jpeg_size-IsAnswer bytes

abbrev never : ℕ → ℕ → Bool
never w h = false

inspect_preview-IsVerdict_example :
    IsVerdict never (inspect_preview never bytes)
    × ((i : Inspected) → inspect_preview never bytes ≡ ok i → length bytes ≤ preview_max_bytes)
inspect_preview-IsVerdict_example = inspect_preview-IsVerdict never bytes
