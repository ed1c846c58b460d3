-- ===== src/Serving.antt =====
-- backend/workflow.js and backend/versions.js together: what students get. Every write of the history
-- keeps a current archive behind each published scenario.
use virtual_lab.Prelude.{
  true, Option, some, List, [], ◌∷◌, ◌≡◌, ◌≢◌, refl, arith, find, Bool-cases, Option-cases, inl,
  inr, subst, ◌∙◌,
}
use virtual_lab.Prelude.Search.{any_of_find, find_of_any}
use virtual_lab.JsText.{JsText, text_eq}
use virtual_lab.JsText.Laws.{text_eq_iff}
use virtual_lab.Db.Rows.{Db, Scenario, Version, current, Status, Checks}
use virtual_lab.Db.Tx.{ok}
use virtual_lab.Db.Find.{find_scenario, update_scenario, is_at}
use virtual_lab.Auth.{Principal}
use virtual_lab.Storage.{Stored}
use virtual_lab.Workflow.{has_current}
use virtual_lab.Workflow.Safety.{IsServed}
use virtual_lab.Versions.{
  Manifest, Installed, install_upload, is_version, is_some, key_exists, delete_version,
}
use virtual_lab.Versions.Invariant.{IsSound, find-delete_version}
use virtual_lab.Versions.Promote.{pointed, promoted, find-promoted, find-promoted_ne}
use virtual_lab.Versions.Uploaded.{find_current_upload, scenarios_upload}

-- A change of the tables that publishes nothing and leaves a current version where there is one.
pub record IsKept (db db' : Db) : Type 0 where
  pub published_before :
      (id : JsText) (s : Scenario)
      → find_scenario id db'.scenarios ≡ some s
      → (t : Scenario) × (find_scenario id db.scenarios ≡ some t) × (t.status ≡ s.status)
  pub current_after :
      (id : JsText)
      → is_some (find (is_at id current) db.versions) ≡ true
      → is_some (find (is_at id current) db'.versions) ≡ true

has_current_iff :
    (id : JsText) (vs : List Version)
    → (has_current id vs ≡ true → is_some (find (is_at id current) vs) ≡ true)
      × (is_some (find (is_at id current) vs) ≡ true → has_current id vs ≡ true)
unfolding has_current
has_current_iff id vs = (
  λ h. ground (arith, (find_of_any (is_at id current) vs h).1),
  λ h. elim (Option-cases (find (is_at id current) vs)) [
    | inl missing ↦ cc
    | inr (v, e) ↦ any_of_find (is_at id current) vs v e
  ],
)

pub IsServed-of_IsKept : (db db' : Db) → IsKept db db' → IsServed db → IsServed db'
IsServed-of_IsKept db db' kept served id s found status =
    let (t, before, same) = kept.published_before id s found in
    (has_current_iff id db'.versions).1 (
      kept.current_after id
        ((has_current_iff id db.versions).0 (served id t before (same ∙ status))))

-- The row that a search finds after an update is a row that it found before.
find_before :
    (id j : JsText) (f : Scenario → Scenario) (ss : List Scenario) (s : Scenario)
    → ((t : Scenario) → ((f t).id ≡ t.id) × ((f t).status ≡ t.status))
    → find_scenario j (update_scenario id f ss) ≡ some s
    → (t : Scenario) × (find_scenario j ss ≡ some t) × (t.status ≡ s.status)
unfolding find_scenario update_scenario find
find_before id j f [] s same h = cc
find_before id j f (t ∷ ss) s same h = elim (Bool-cases (text_eq t.id j)) [
  | inl hit ↦ (t, ground arith, ground (arith, same t))
  | inr miss ↦
      let (u, found, status) = find_before id j f ss s same (ground (arith, same t)) in
      (u, ground arith, status)
]

module _ (db : Db) (sound : IsSound db) (id : JsText) where
  pub promoted-IsKept :
      (v : Version) (found : find (is_version id v.id) db.versions ≡ some v)
      (other : v.state ≢ current)
      → IsKept db (promoted db sound id v found other)
  promoted-IsKept v found other = record {
    published_before =
        λ j s h. find_before id j (pointed v db.now) db.scenarios s (λ t. (refl, refl)) h;
    current_after = λ j h. elim (Bool-cases (text_eq id j)) [
      | inl same ↦ ground (arith, text_eq_iff id j, find-promoted db sound id v found other)
      | inr ne ↦ ground (arith, find-promoted_ne db sound id v found other j ne)
    ];
  }

  pub delete_version-IsKept :
      (v : Version)
      → find (is_version id v.id) db.versions ≡ some v
      → v.state ≢ current
      → IsKept db (record db { versions = delete_version v.id db.versions })
  delete_version-IsKept v found other = record {
    published_before = λ j s h. (s, h, refl);
    current_after = λ j h. ground (arith, find-delete_version db sound id v.id v j found other);
  }

  pub upload-IsKept :
      (status : Status) (principal : Principal) (stored : Stored) (manifest : Option Manifest)
      (checks : Option Checks) (s : Scenario) (m : Installed) (db' : Db)
      → find_scenario id db.scenarios ≡ some s
      → key_exists principal.key_id db.keys ≡ true
      → install_upload id status principal stored manifest checks db ≡ ok (m, db')
      → IsKept db db'
  upload-IsKept status principal stored manifest checks s m db' known key r = record {
    published_before = λ j t h.
        elim (scenarios_upload id status principal stored manifest checks db sound s known key m db'
          r) [
            | inl same ↦ (t, subst (λ x. find_scenario j x ≡ some t) same h, refl)
            | inr (v, e) ↦
                find_before id j (pointed v db.now) db.scenarios t (λ t. (refl, refl))
                  (subst (λ x. find_scenario j x ≡ some t) e h)
          ];
    current_after = λ j.
        find_current_upload id status principal stored manifest checks db sound s known key m db' j
          r;
  }
