-- ===== src/Db/Laws.antt =====
-- Laws of the shared statements: what a search finds after an update.
use virtual_lab.Prelude.{
  true, false, Option, none, some, List, [], ◌∷◌, ◌≡◌, ◌⊎◌, inl, inr, refl, ap, arith,
}
use virtual_lab.JsText.{JsText, text_eq}
use virtual_lab.JsText.Laws.{text_eq_iff}
use virtual_lab.HttpError.{Failure}
use virtual_lab.Db.Rows.{Scenario, Db, VersionState, current, pending, archived, state_eq}
use virtual_lab.Db.Tx.{Result, ok, throw, Tx, ◌>>=◌}
use virtual_lab.Db.Find.{find_scenario, update_scenario}

-- What a search for the updated id finds: the new row, where there was one.
abbrev pub updated : (Scenario → Scenario) → Option Scenario → Option Scenario
updated f none = none
updated f (some s) = some (f s)

pub find-update_self :
    (id : JsText) (f : Scenario → Scenario) (ss : List Scenario)
    → ((s : Scenario) → (f s).id ≡ s.id)
    → find_scenario id (update_scenario id f ss) ≡ updated f (find_scenario id ss)
unfolding find_scenario update_scenario
find-update_self id f [] same = refl
find-update_self id f (s ∷ ss) same = ground (arith, same s, find-update_self id f ss same)

pub find-update_ne :
    (id j : JsText) (f : Scenario → Scenario) (ss : List Scenario)
    → ((s : Scenario) → (f s).id ≡ s.id)
    → text_eq id j ≡ false
    → find_scenario j (update_scenario id f ss) ≡ find_scenario j ss
unfolding find_scenario update_scenario
find-update_ne id j f [] same h = refl
find-update_ne id j f (s ∷ ss) same h = ground (
  arith,
  same s,
  find-update_ne id j f ss same h,
  text_eq_iff s.id id,
  text_eq_iff s.id j,
  text_eq_iff id j,
)

-- The row that a search finds has the id.
pub find_scenario_id :
    (id : JsText) (ss : List Scenario) (s : Scenario) → find_scenario id ss ≡ some s → s.id ≡ id
unfolding find_scenario
find_scenario_id id [] s h = cc
find_scenario_id id (x ∷ ss) s h = ground (arith, find_scenario_id id ss s, text_eq_iff x.id id)

pub ok-injective : {A : Type 0} {a b : A} → Result.ok a ≡ ok b → a ≡ b
ok-injective h = cc h

-- A step that succeeds hands its value and its tables on.
pub bind_of_ok :
    {A B : Type 0} (m : Tx A) (f : A → Tx B) (db : Db) {r : A × Db}
    → m db ≡ ok r
    → (m >>= f) db ≡ f r.0 r.1
bind_of_ok m f db h = ap (λ x. elim x [ ok (a, db') ↦ f a db' | throw e ↦ throw e ]) h

pub state_eq_refl : (st : VersionState) → state_eq st st ≡ true
state_eq_refl current = refl
state_eq_refl pending = refl
state_eq_refl archived = refl

pub Result-cases :
    {A : Type 0} (r : Result A) → ((a : A) × (r ≡ ok a)) ⊎ ((e : Failure) × (r ≡ throw e))
Result-cases (ok a) = inl (a, refl)
Result-cases (throw e) = inr (e, refl)
