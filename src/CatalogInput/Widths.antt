-- ===== src/CatalogInput/Widths.antt =====
-- The widths of the texts of a catalog body.
use virtual_lab.Prelude.{
  ℕ, ◌+◌, ◌*◌, ◌≤◌, Bool, true, false, Option, none, some, List, [], ◌∷◌, ◌≡◌, ◌↔◌, refl, arith,
  if◌then◌else◌, ltb, length, All,
}
use virtual_lab.JsText.{JsText, utf16}
use virtual_lab.Json.{Json, null, flag, number, text, array, object, member}
use virtual_lab.CatalogInput.{
  is_high_surrogate, points_after, code_points, exceeds_width, Limit, text_problem, first_problem,
  scenario_text_problem,
}

points_after-le : (high : Bool) (s : JsText) → points_after high s ≤ length s
unfolding points_after
points_after-le high [] = omega arith
points_after-le high (c ∷ s) = ground (arith, points_after-le (is_high_surrogate c) s)

half-le-points_after :
    (high : Bool) (s : JsText) → length s ≤ 2 * points_after high s + (if high then 1 else 0)
unfolding points_after
half-le-points_after high [] = omega arith
half-le-points_after true (c ∷ s) = ground (arith, half-le-points_after (is_high_surrogate c) s)
half-le-points_after false (c ∷ s) = ground (arith, half-le-points_after (is_high_surrogate c) s)

-- The test that spares most texts the count of code points answers what the count would.
pub exceeds_width-code_points :
    (s : JsText) (max : ℕ) → exceeds_width s max ≡ ltb max (code_points s)
unfolding exceeds_width code_points
exceeds_width-code_points s max =
    ground (arith, points_after-le false s, half-le-points_after false s)

-- The value of a field fits its column: absent, `null` where the column may be, or a string of at most
-- that many code points.
pub data Fits (l : Limit) : Option Json → Type 0 where
  absent : Fits l none
  cleared : l.nullable ≡ true → Fits l (some null)
  narrow : (s : JsText) → code_points s ≤ l.max → Fits l (some (text s))

fits_of_none : (l : Limit) (j : Option Json) → text_problem l j ≡ none → Fits l j
unfolding text_problem
fits_of_none l none h = absent
fits_of_none l (some null) h = cleared (ground arith)
fits_of_none l (some (text s)) h = narrow s (ground (arith, exceeds_width-code_points s l.max))
fits_of_none l (some (flag _)) h = cc
fits_of_none l (some (number _)) h = cc
fits_of_none l (some (array _)) h = cc
fits_of_none l (some (object _)) h = cc

none_of_fits : (l : Limit) (j : Option Json) → Fits l j → text_problem l j ≡ none
unfolding text_problem
none_of_fits l j absent = refl
none_of_fits l j (cleared h) = ground arith
none_of_fits l j (narrow s h) = ground (arith, exceeds_width-code_points s l.max)

-- The columns of `scenarios` that a body is copied to, with their VARCHAR widths (db/init.sql and
-- migrations 005 and 006), and whether a null is let through.
abbrev pub columns : List Limit
columns =
    record { name = utf16 "id"; max = 100; nullable = false }
    ∷ record { name = utf16 "title"; max = 255; nullable = false }
    ∷ record { name = utf16 "category"; max = 50; nullable = false }
    ∷ record { name = utf16 "categoryLabel"; max = 100; nullable = false }
    ∷ record { name = utf16 "version"; max = 20; nullable = true }
    ∷ record { name = utf16 "author"; max = 255; nullable = true }
    ∷ record { name = utf16 "manifestUrl"; max = 300; nullable = true }
    ∷ []

module _ (body : Option Json) where
  -- Each listed field of the body fits its column.
  abbrev pub AllFit : List Limit → Type 0
  AllFit ls = All (λ l. Fits l (member l.name body)) ls

  all_of_none : (ls : List Limit) → first_problem ls body ≡ none → AllFit ls
  unfolding first_problem
  all_of_none [] h = tt
  all_of_none (l ∷ ls) h =
      (fits_of_none l (member l.name body) (ground arith), all_of_none ls (ground arith))

  none_of_all : (ls : List Limit) → AllFit ls → first_problem ls body ≡ none
  unfolding first_problem
  none_of_all [] h = refl
  none_of_all (l ∷ ls) h =
      ground (arith, none_of_fits l (member l.name body) h.0, none_of_all ls h.1)

  -- A body passes `scenarioTextProblem` exactly when its `id` has at most 100 code points, its `title`
  -- 255, `category` 50, `categoryLabel` 100, `version` 20, `author` 255 and `manifestUrl` 300, each a
  -- string where it is given; the last three may be null.
  pub scenario_text_problem_iff : (scenario_text_problem body ≡ none) ↔ AllFit columns
  unfolding scenario_text_problem
  scenario_text_problem_iff = (all_of_none columns, none_of_all columns)
