-- ===== src/Safety/Categories.antt =====
-- The requests of backend/routes/categories.js, and two of backend/routes/catalog-admin.js, keep the
-- invariant of the catalog.
use virtual_lab.Prelude.{
  Option, some, none, List, [], ◌∷◌, ◌≡◌, inl, inr, refl, arith, ◌∙◌, find, Bool-cases, sym,
  Option-cases, subst,
}
use virtual_lab.JsText.{JsText, text_eq}
use virtual_lab.Db.Rows.{Db, Scenario, author, moderator}
use virtual_lab.Db.Find.{find_scenario, delete_scenario}
use virtual_lab.Routes.Categories.{relabelled, with_label}
use virtual_lab.Routes.Categories.Leaves.{Leaves}
use virtual_lab.Safety.{IsSafe}
use virtual_lab.Auth.{Principal, require_role}
use virtual_lab.Audit.{record_event}
use virtual_lab.Json.{Json}
use virtual_lab.Db.Tx.{in_transaction}
use virtual_lab.Routes.Catalog.{delete_catalog, delete_work}
use virtual_lab.Routes.Catalog.Update.{put_catalog}
use virtual_lab.Routes.Catalog.Author.{author_put-Kept}
use virtual_lab.Safety.Acts.{sound_of_rows, deleted-IsSafe}

-- A row that a search finds after labels were updated was there before, with its archive and status.
find-with_label :
    (slug : JsText) (label : Option JsText) (j : JsText) (ss : List Scenario) (s : Scenario)
    → find_scenario j (with_label slug label ss) ≡ some s
    → (t : Scenario) × (find_scenario j ss ≡ some t)
      × (t.archive ≡ s.archive)
      × (t.status ≡ s.status)
unfolding find_scenario find relabelled
find-with_label slug none j ss s h = (s, h, refl, refl)
find-with_label slug (some label) j [] s h = absurd (ground arith)
find-with_label slug (some label) j (t ∷ ss) s h = elim (Bool-cases (text_eq t.id j)) [
  | inl hit ↦ (t, ground arith, ground arith, ground arith)
  | inr miss ↦
      let (u, found, same, st) = find-with_label slug (some label) j ss s (ground arith) in
      (u, ground arith, same, st)
]

-- A write that keeps the history and each row's archive and status keeps the invariant.
pub rows-IsSafe :
    (db db' : Db)
    → IsSafe db
    → db'.versions ≡ db.versions
    → db'.next_version ≡ db.next_version
    → ((j : JsText) (s : Scenario)
        → find_scenario j db'.scenarios ≡ some s
        → (t : Scenario) × (find_scenario j db.scenarios ≡ some t)
          × (t.archive ≡ s.archive)
          × (t.status ≡ s.status))
    → IsSafe db'
rows-IsSafe db db' safe versions next rows = record {
  sound =
      sound_of_rows db db' safe.sound versions next
        (λ j s fs. let (t, found, same, _) = rows j s fs in (t, found, same));
  served = λ j s fs st.
      let (t, found, _, same) = rows j s fs in rw versions (safe.served j t found (same ∙ st));
}

pub Leaves-IsSafe : (db db' : Db) → Leaves db db' → IsSafe db → IsSafe db'
Leaves-IsSafe db db' l safe =
    rows-IsSafe db db' safe l.versions l.next_version
      (λ j s fs. find-with_label l.slug l.label j db.scenarios s (rw l.scenarios at fs))

-- An author's change of a row.
pub author_put-IsSafe :
    (driver_text : Json → JsText) (p : Principal) (id : JsText) (body : Json) (db : Db)
    → p.role ≡ author
    → IsSafe db
    → IsSafe (put_catalog driver_text p id body db).1
author_put-IsSafe driver_text p id body db by_author safe =
    let k = author_put-Kept driver_text p id body by_author db in
    rows-IsSafe db (put_catalog driver_text p id body db).1 safe k.versions k.next_version (λ j t h.
      let (s, found, same, _) = k.rows j t h in (s, found, sym same.archive, sym same.status))

-- The deletion of a row.
pub removal-IsSafe :
    (p : Principal) (id : JsText) (db : Db) → IsSafe db → IsSafe (delete_catalog p id db).1
unfolding delete_catalog delete_work in_transaction record_event delete_scenario
removal-IsSafe p id db safe = elim (Option-cases (require_role moderator (some p))) [
  | inr (e, h) ↦ subst IsSafe {x = db} (ground arith) safe
  | inl passed ↦
      deleted-IsSafe id db (delete_catalog p id db).1 safe (ground arith) (ground arith)
        (ground arith)
]
