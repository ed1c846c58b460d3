-- ===== src/Workflow/Note.antt =====
-- The note of a rejection.
use virtual_lab.Prelude.{◌≤◌, ◌<◌, ◌≡◌, arith, length}
use virtual_lab.JsText.{JsText}
use virtual_lab.Workflow.{
  RawNote, absent, string, other, value, parse_reject_note, max_note_length, default_reject_note,
}

-- The note that is stored is never empty and at most `max_note_length` long.
pub parse_reject_note_bounds :
    (raw : RawNote) (n : JsText)
    → parse_reject_note raw ≡ value n
    → (0 < length n) × (length n ≤ max_note_length)
unfolding parse_reject_note default_reject_note
parse_reject_note_bounds absent n h = ground arith
parse_reject_note_bounds (string raw) n h = ground arith
parse_reject_note_bounds other n h = cc
