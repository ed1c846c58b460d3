-- ===== src/ArchiveValidation/Fields.antt =====
-- The checks of a manifest's members, and chains of checks that succeed.
use virtual_lab.Prelude.{
  ℕ, ◌≤◌, Bool, true, false, Option, none, some, List, ◌≡◌, ◌⊎◌, inl, inr, refl, arith, length,
  ◌orelse◌,
}
use virtual_lab.JsText.{JsText, utf16}
use virtual_lab.Db.Tx.{Result, ok, throw}
use virtual_lab.Json.{Json, null, flag, number, text, array, object, member}
use virtual_lab.ArchiveValidation.{
  ◌>>=◌, ◌andthen◌, refuse_if, complete, too_large, unreadable, Reading, text_problem,
  optional_text_problem, length_problem, manifest_field_problem, is_not_flag, problem_of,
}

-- A chain that succeeds does so at each link.
pub and_then :
    {A B : Type 0} (m : Result A) (f : A → Result B) (b : B)
    → m >>= f ≡ ok b
    → (a : A) × (m ≡ ok a) × (f a ≡ ok b)
unfolding ◌>>=◌
and_then (ok a) f b h = (a, refl, h)
and_then (throw e) f b h = absurd (ground arith)

pub both_ok : (m n : Result (Unit {0})) → (m andthen n) ≡ ok tt → (m ≡ ok tt) × (n ≡ ok tt)
unfolding ◌andthen◌
both_ok (ok _) n h = (refl, h)
both_ok (throw _) n h = absurd (ground arith)

pub refuse_ok : (b : Bool) (message : JsText) → refuse_if b message ≡ ok tt → b ≡ false
unfolding refuse_if
refuse_ok true message h = absurd (ground arith)
refuse_ok false message h = refl

orelse_none : (p q : Option JsText) → (p orelse q) ≡ none → (p ≡ none) × (q ≡ none)
orelse_none none q h = (refl, h)
orelse_none (some _) q h = absurd (ground arith)

string_given :
    (field : JsText) (j : Option Json)
    → text_problem field j ≡ none
    → (s : JsText) × (j ≡ some (text s))
string_given field (some (text s)) h = (s, refl)
string_given field none h = absurd (ground arith)
string_given field (some null) h = absurd (ground arith)
string_given field (some (flag _)) h = absurd (ground arith)
string_given field (some (number _)) h = absurd (ground arith)
string_given field (some (array _)) h = absurd (ground arith)
string_given field (some (object _)) h = absurd (ground arith)

pub Reading-cases :
    (r : Reading) → ((bytes : List ℕ) × (r ≡ complete bytes)) ⊎ ((r ≡ too_large) ⊎ (r ≡ unreadable))
Reading-cases (complete bytes) = inl (bytes, refl)
Reading-cases too_large = inr (inl refl)
Reading-cases unreadable = inr (inr refl)

-- A text of at most so many units.
abbrev pub TextUpTo : ℕ → Option Json → Type 0
TextUpTo max j = (s : JsText) × (j ≡ some (text s)) × (length s ≤ max)

short :
    (field : JsText) (max : ℕ) (j : Option Json) (s : JsText)
    → length_problem field max j ≡ none
    → j ≡ some (text s)
    → length s ≤ max
unfolding length_problem
short field max j s h e = ground arith

optional_string :
    (field : JsText) (j : Option Json)
    → optional_text_problem field j ≡ none
    → (j ≡ none) ⊎ ((j ≡ some null) ⊎ ((s : JsText) × (j ≡ some (text s))))
optional_string field none h = inl refl
optional_string field (some null) h = inr (inl refl)
optional_string field (some (text s)) h = inr (inr (s, refl))
optional_string field (some (flag _)) h = absurd (ground arith)
optional_string field (some (number _)) h = absurd (ground arith)
optional_string field (some (array _)) h = absurd (ground arith)
optional_string field (some (object _)) h = absurd (ground arith)

-- The texts of a manifest that the tables copy fit their columns.
pub record HasFields (m : Option Json) : Type 0 where
  pub id : TextUpTo 255 (member (utf16 "id") m)
  pub version : TextUpTo 50 (member (utf16 "version") m)
  pub engine_version :
      (member (utf16 "engineVersion") m ≡ none)
      ⊎ ((member (utf16 "engineVersion") m ≡ some null)
          ⊎ TextUpTo 100 (member (utf16 "engineVersion") m))

pub fields_of : (m : Option Json) → manifest_field_problem m ≡ none → HasFields m
unfolding manifest_field_problem
fields_of m h =
    let (i, h1) = orelse_none _ _ h in
    let (_, h2) = orelse_none _ _ h1 in
    let (v, h3) = orelse_none _ _ h2 in
    let (e, h4) = orelse_none _ _ h3 in
    let (li, h5) = orelse_none _ _ h4 in
    let (lv, le) = orelse_none _ _ h5 in
    let (si, ei) = string_given (utf16 "id") (member (utf16 "id") m) i in
    let (sv, ev) = string_given (utf16 "version") (member (utf16 "version") m) v in
    record {
      id = (si, ei, short (utf16 "id") 255 (member (utf16 "id") m) si li ei);
      version = (sv, ev, short (utf16 "version") 50 (member (utf16 "version") m) sv lv ev);
      engine_version =
          elim (optional_string (utf16 "engineVersion") (member (utf16 "engineVersion") m) e) [
            | inl absent ↦ inl absent
            | inr (inl cleared) ↦ inr (inl cleared)
            | inr (inr (s, es)) ↦ inr (
                inr (
                  s,
                  es,
                  short (utf16 "engineVersion") 100 (member (utf16 "engineVersion") m) s le es,
                ))
          ];
    }

pub problem_ok : (p : Option JsText) → problem_of p ≡ ok tt → p ≡ none
unfolding problem_of
problem_ok none h = refl
problem_ok (some _) h = absurd (ground arith)

pub flag_given :
    (j : Option Json) → is_not_flag j ≡ false → (j ≡ none) ⊎ ((b : Bool) × (j ≡ some (flag b)))
flag_given none h = inl refl
flag_given (some (flag b)) h = inr (b, refl)
flag_given (some null) h = absurd (ground arith)
flag_given (some (number _)) h = absurd (ground arith)
flag_given (some (text _)) h = absurd (ground arith)
flag_given (some (array _)) h = absurd (ground arith)
flag_given (some (object _)) h = absurd (ground arith)
