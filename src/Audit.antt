-- ===== src/Audit.antt =====
-- backend/audit.js: the action journal. `record` takes the caller's transaction, so an event commits
-- with the change that it describes.
use virtual_lab.Prelude.{
  ℕ, zero, suc, ◌≤◌, Bool, true, false, ◌&&◌, Option, none, some, List, [], ◌∷◌, map, ◌≡◌, inl, inr,
  arith, ◌==◌, keep, length, All, Bool-cases,
}
use virtual_lab.JsText.{JsText, text_eq}
use virtual_lab.Db.Rows.{Detail, Event, Db, Scenario}
use virtual_lab.Db.Tx.{Tx, modify}
use virtual_lab.Db.Find.{find_scenario}
use virtual_lab.Auth.{Principal}

unfoldable pub event : Principal → JsText → Option JsText → List (JsText × Detail) → Event
event principal action scenario_id details = record {
  scenario_id = scenario_id;
  actor_key_id = principal.key_id;
  actor_label = principal.label;
  action = action;
  details = details;
}

-- `audit.record`
unfoldable pub record_event :
    Principal → JsText → Option JsText → List (JsText × Detail) → Tx (Unit {0})
record_event principal action scenario_id details =
    modify (λ db. record db { events = event principal action scenario_id details ∷ db.events })

-- An event with the title of its scenario, where that is still there.
pub record Activity : Type 0 where
  pub event : Event
  pub scenario_title : Option JsText

-- LEFT JOIN scenarios s ON s.id = a.scenario_id
abbrev pub scenario_of : Db → Event → Option Scenario
scenario_of db e = elim e.scenario_id [ none ↦ none | some id ↦ find_scenario id db.scenarios ]

abbrev pub titled : Db → Event → Activity
titled db e = record {
  event = e;
  scenario_title = elim (scenario_of db e) [ none ↦ none | some s ↦ some s.card.title ];
}

-- `$1 IS NULL OR a.scenario_id = $1`
abbrev pub is_of_scenario : Option JsText → Event → Bool
is_of_scenario none e = true
is_of_scenario (some id) e = elim e.scenario_id [ none ↦ false | some s ↦ text_eq s id ]

-- `$2 IS NULL OR s.owner_key_id = $2`
abbrev pub is_of_owner : Option ℕ → Option Scenario → Bool
is_of_owner none row = true
is_of_owner owner none = false
is_of_owner (some key) (some row) = elim row.owner_key_id [ none ↦ false | some k ↦ k == key ]

unfoldable pub first : {A : Type 0} → ℕ → List A → List A
first zero xs = []
first (suc n) [] = []
first (suc n) (x ∷ xs) = x ∷ first n xs

-- `listActivity`: newest first, as the events are kept.
unfoldable pub list_activity : Option JsText → Option ℕ → ℕ → Db → List Activity
list_activity scenario_id owner_key_id limit db = first limit (
    map (titled db) (
      keep (λ e. is_of_scenario scenario_id e && is_of_owner owner_key_id (scenario_of db e))
        db.events))

first-le : {A : Type 0} (n : ℕ) (xs : List A) → length (first n xs) ≤ n
unfolding first
first-le zero xs = omega arith
first-le (suc n) [] = omega arith
first-le (suc n) (x ∷ xs) = omega (arith, first-le n xs)

All-first : {A : Type 0} (P : A → Type 0) (n : ℕ) (xs : List A) → All P xs → All P (first n xs)
unfolding first
All-first P zero xs h = tt
All-first P (suc n) [] h = tt
All-first P (suc n) (x ∷ xs) h = (h.0, All-first P n xs h.1)

-- An event of a scenario that the key owns.
abbrev pub IsOwned : ℕ → Db → Activity → Type 0
IsOwned key db a = is_of_owner (some key) (scenario_of db a.event) ≡ true

module _ (scenario_id : Option JsText) (key : ℕ) (db : Db) where
  of_own_scenarios :
      (es : List Event)
      → All (IsOwned key db) (
          map (titled db) (
            keep
              (λ e. is_of_scenario scenario_id e && is_of_owner (some key) (scenario_of db e))
              es))
  unfolding keep
  of_own_scenarios [] = tt
  of_own_scenarios (e ∷ es) =
      elim (Bool-cases
        (is_of_scenario scenario_id e && is_of_owner (some key) (scenario_of db e))) [
          | inl shown ↦ rw shown (ground arith, of_own_scenarios es)
          | inr hidden ↦ rw hidden (of_own_scenarios es)
        ]

  -- An author's view of the journal: at most as many events as asked for, each of a scenario that the
  -- key owns.
  list_activity-IsOwned :
      (limit : ℕ)
      → (length (list_activity scenario_id (some key) limit db) ≤ limit)
        × All (IsOwned key db) (list_activity scenario_id (some key) limit db)
  unfolding list_activity
  list_activity-IsOwned limit =
      (first-le limit _, All-first (IsOwned key db) limit _ (of_own_scenarios db.events))
