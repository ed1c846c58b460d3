-- ===== src/GradeCache/Tickets.antt =====
-- Tickets: an answer asked for before an invalidation is not stored after it.
use virtual_lab.Prelude.{
  ℕ, suc, ◌≤◌, ◌<◌, Bool, Option, List, [], ◌∷◌, ◌≡◌, refl, arith, if◌then◌else◌, any, true, false,
}
use virtual_lab.JsText.{JsText}
use virtual_lab.GradeCache.{
  GradeCache, set_token, begin_result, set_result, delete_result, get, remove,
}

-- What a router does to the cache between a question and its answer.
pub data Use : Type 0 where
  token : JsText → JsText → ℕ → ℕ → Use
  token_gone : JsText → Use
  result : JsText → Option ℕ → ℕ → ℕ → Use
  invalidated : JsText → Use
  token_asked : JsText → ℕ → Use
  result_asked : JsText → ℕ → Use

abbrev pub use_one : ℕ → Use → GradeCache → GradeCache
use_one max (token key t expires_in now) c = set_token max key t expires_in now c
use_one max (token_gone key) c = record c { token_map = remove key c.token_map }
use_one max (result key value ticket now) c = set_result max key value ticket now c
use_one max (invalidated key) c = delete_result key c
use_one max (token_asked key now) c = record c { token_map = (get key now c.token_map).1 }
use_one max (result_asked key now) c = record c { result_map = (get key now c.result_map).1 }

unfoldable pub use_all : ℕ → List Use → GradeCache → GradeCache
use_all max [] c = c
use_all max (u ∷ us) c = use_all max us (use_one max u c)

abbrev pub invalidates : Use → Bool
invalidates (invalidated _) = true
invalidates _ = false

use_one-generation :
    (max : ℕ) (u : Use) (c : GradeCache)
    → (use_one max u c).generation ≡ (if invalidates u then suc c.generation else c.generation)
unfolding set_token set_result delete_result
use_one-generation max (token key t expires_in now) c = ground arith
use_one-generation max (token_gone key) c = refl
use_one-generation max (result key value ticket now) c = ground arith
use_one-generation max (invalidated key) c = refl
use_one-generation max (token_asked key now) c = refl
use_one-generation max (result_asked key now) c = refl

generation_grows :
    (max : ℕ) (us : List Use) (c : GradeCache) → c.generation ≤ (use_all max us c).generation
unfolding use_all
generation_grows max [] c = omega arith
generation_grows max (u ∷ us) c =
    ground (arith, generation_grows max us (use_one max u c), use_one-generation max u c)

generation_moved :
    (max : ℕ) (us : List Use) (c : GradeCache)
    → any invalidates us ≡ true
    → c.generation < (use_all max us c).generation
unfolding use_all any
generation_moved max [] c h = cc
generation_moved max (u ∷ us) c h = ground (
  arith,
  generation_moved max us (use_one max u c),
  generation_grows max us (use_one max u c),
  use_one-generation max u c,
)

-- An answer whose question was asked before an invalidation, of any key, is dropped: the cache
-- stays as it is.
pub stale_answer_dropped :
    (max : ℕ) (key : JsText) (value : Option ℕ) (now : ℕ) (us : List Use) (c : GradeCache)
    → any invalidates us ≡ true
    → set_result max key value (begin_result c) now (use_all max us c) ≡ use_all max us c
unfolding set_result
stale_answer_dropped max key value now us c h = ground (arith, generation_moved max us c h)
