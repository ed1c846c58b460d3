-- ===== src/Safety/Stored.antt =====
-- The stored archives of published scenarios.
use virtual_lab.Prelude.{
  ℕ, some, List, [], ◌∷◌, ◌++◌, ◌≡◌, refl, sym, ap, arith, find, ◌∙◌, length, length-append,
}
use virtual_lab.Prelude.Search.{find_of_any}
use virtual_lab.JsText.{JsText, utf16}
use virtual_lab.Db.Rows.{Db, Scenario, current, published}
use virtual_lab.Db.Find.{find_scenario, is_at}
use virtual_lab.Storage.{public_url}
use virtual_lab.Storage.Collect.{Object, collect, is_named}
use virtual_lab.Storage.Collected.{IsDirectory, shown_not_collected}
use virtual_lab.Workflow.{has_current}
use virtual_lab.Safety.{IsSafe}
use virtual_lab.Safety.Steps.{Reach, Reach-IsSafe}

-- Equal texts with equal ends have equal beginnings.
append_cancel : (s t r : JsText) → length s ≡ length t → s ++ r ≡ t ++ r → s ≡ t
append_cancel [] [] r l h = refl
append_cancel [] (y ∷ t) r l h = absurd (omega (arith, l))
append_cancel (x ∷ s) [] r l h = absurd (omega (arith, l))
append_cancel (x ∷ s) (y ∷ t) r l h = ground (arith, append_cancel s t r)

public_url-injective : (h k : JsText) → public_url h ≡ public_url k → h ≡ k
unfolding public_url utf16
public_url-injective h k e =
    let tails : h ++ utf16 ".zip" ≡ k ++ utf16 ".zip" = cc e in
    append_cancel h k (utf16 ".zip")
      (omega
        (arith, ap length tails, length-append h (utf16 ".zip"), length-append k (utf16 ".zip")))
      tails

-- After any sequence of the requests that Step names, from tables where IsSafe holds, the object whose
-- address a published scenario's row serves is never collected, however old it is.
pub served_not_collected :
    (start db : Db) (min_age_ms : ℕ) (os : List Object) (id name : JsText) (s : Scenario)
    (o : Object)
    → IsSafe start
    → Reach start db
    → IsDirectory os
    → find (is_named name) os ≡ some o
    → find_scenario id db.scenarios ≡ some s
    → s.status ≡ published
    → s.archive.scenario_url ≡ public_url o.sha256
    → find (is_named name) (collect min_age_ms db os).1 ≡ some o
unfolding has_current
served_not_collected start db min_age_ms os id name s o safe path dir found row status served =
    let after = Reach-IsSafe start db safe path in
    let (v, e) = find_of_any (is_at id current) db.versions (after.served id s row status) in
    let shows = after.sound.mirrored id s v row e in
    let same : v.sha256 ≡ o.sha256 =
      public_url-injective v.sha256 o.sha256 (sym (ap (λ a. a.scenario_url) shows) ∙ served) in
    shown_not_collected min_age_ms db os id name s o dir found row
      (ap (λ a. a.sha256) shows ∙ ap some same)
