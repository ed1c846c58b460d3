-- ===== src/ArchiveValidation/Entries.antt =====
-- Reading within a cap, and the listing of an archive's contents.
use virtual_lab.Prelude.{
  ℕ, ◌≤◌, Bool, true, false, ◌&&◌, ◌||◌, Option, List, [], ◌∷◌, ◌++◌, map, ◌≡◌, arith,
  if◌then◌else◌, ltb, ◌==◌, length, length-append,
}
use virtual_lab.JsText.{JsText}
use virtual_lab.Db.Tx.{Result, ok}
use virtual_lab.ArchiveValidation.{
  Entry, Stream, closed, broken, chunk, complete, read_chunks, read_entry_capped, open_archive,
  ◌>>=◌,
}

-- What a stream delivers, all its pieces together.
abbrev pub delivered : Stream → List ℕ
delivered closed = []
delivered broken = []
delivered (chunk piece s) = piece ++ delivered s

chunks_bounded :
    (max : ℕ) (held : List ℕ) (s : Stream) (bytes : List ℕ)
    → length held ≤ max
    → read_chunks max held s ≡ complete bytes
    → length bytes ≤ max
unfolding read_chunks
chunks_bounded max held closed bytes small h = ground arith
chunks_bounded max held broken bytes small h = absurd (ground arith)
chunks_bounded max held (chunk piece s) bytes small h =
    chunks_bounded max (held ++ piece) s bytes (ground (arith, length-append held piece))
      (ground arith)

-- What is read of an entry never exceeds the cap, whatever size the entry declares.
pub read_entry_capped-le :
    (entry : Entry) (s : Stream) (max : ℕ) (bytes : List ℕ)
    → read_entry_capped entry s max ≡ complete bytes
    → length bytes ≤ max
unfolding read_entry_capped
read_entry_capped-le entry s max bytes h =
    chunks_bounded max [] s bytes (omega arith) (ground arith)

-- `a < b`, of strings: by code units
unfoldable pub text_lt : JsText → JsText → Bool
text_lt s [] = false
text_lt [] (_ ∷ _) = true
text_lt (a ∷ s) (b ∷ t) = ltb a b || a == b && text_lt s t

-- `{ path, bytes, dir }`
pub record Listed : Type 0 where
  pub path : JsText
  pub bytes : ℕ
  pub dir : Bool

abbrev listed : Entry → Listed
listed e = record {
  path = e.name;
  bytes = if e.is_directory then 0 else e.size;
  dir = e.is_directory;
}

unfoldable pub place : Listed → List Listed → List Listed
unfolding text_lt
place l [] = l ∷ []
place l (m ∷ ms) = let rest = place l ms in if text_lt m.path l.path then m ∷ rest else l ∷ m ∷ ms

-- `.sort(…)` by path
unfoldable pub sorted : List Listed → List Listed
unfolding place
sorted [] = []
sorted (l ∷ ls) = place l (sorted ls)

-- `listArchiveEntries`
unfoldable pub list_archive_entries :
    (List ℕ → Option (ℕ × List Entry)) → List ℕ → ℕ → Result (List Listed)
unfolding open_archive sorted
list_archive_entries directory_of file max =
    open_archive directory_of file max >>= λ entries. ok (sorted (map listed entries))
