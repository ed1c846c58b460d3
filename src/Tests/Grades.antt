-- ===== src/Tests/Grades.antt =====
-- The caches of the LTI router on small inputs.
use virtual_lab.Prelude.{
  length, ◌≤◌, ◌+◌, if◌then◌else◌, leb, none, arith, ℕ, true, some, List, [], ◌∷◌, ◌≡◌, refl, any,
}
use virtual_lab.GradeCache.{get, set, Entries, GradeCache, set_result, begin_result}
use virtual_lab.GradeCache.Bounded.{get-set, length-set-le}
use virtual_lab.GradeCache.Tickets.{
  Use, invalidated, result_asked, use_all, invalidates, stale_answer_dropped,
}
use virtual_lab.Tests.Data.{a, b}

abbrev entries : Entries ℕ
entries =
    (a, record { value = 1; expires_at = 50 }) ∷ (b, record { value = 2; expires_at = 5 }) ∷ []

get-set_example :
    (get (b'c' ∷ []) 20 (set 2 (b'c' ∷ []) 3 30 10 entries)).0
    ≡ (if leb (10 + 30) 20 then none else some (record { value = 3; expires_at = 10 + 30 }))
get-set_example = get-set 2 (b'c' ∷ []) 3 30 10 20 entries

length-set-le_example : length (set 2 (b'c' ∷ []) 3 30 10 entries) ≤ 2
length-set-le_example = length-set-le 2 (b'c' ∷ []) 3 30 10 entries (omega arith) (omega arith)

abbrev cache : GradeCache
cache = record {
  token_map = [];
  result_map = (a, record { value = some 4; expires_at = 90 }) ∷ [];
  generation = 0;
}

-- Between the question and its answer the learner's grade is sent, which invalidates "b".
abbrev uses : List Use
uses = result_asked a 10 ∷ invalidated b ∷ []

invalidates_one : any invalidates uses ≡ true
unfolding any
invalidates_one = refl

stale_answer_dropped_example :
    set_result 9 b none (begin_result cache) 12 (use_all 9 uses cache) ≡ use_all 9 uses cache
stale_answer_dropped_example = stale_answer_dropped 9 b none 12 uses cache invalidates_one
