-- ===== src/Safety/Acts.antt =====
-- The writes that leave the history alone, and the deletion of a scenario.
use virtual_lab.Prelude.{
  Bool, false, not, ◌<◌, Option, some, none, List, [], ◌∷◌, ◌≡◌, ◌⊎◌, inl, inr, refl, arith, sym,
  ◌∙◌, find, keep, any, Bool-cases, subst, ap, ◌==◌,
}
use virtual_lab.Prelude.Search.{count-keep-le, All-keep}
use virtual_lab.JsText.{JsText, text_eq}
use virtual_lab.JsText.Laws.{text_eq_iff}
use virtual_lab.Db.Rows.{Db, Scenario, Version, current, pending, Category}
use virtual_lab.Db.Tx.{ok}
use virtual_lab.Db.Find.{find_scenario, update_scenario, is_at}
use virtual_lab.Db.Laws.{ok-injective}
use virtual_lab.Auth.{Principal}
use virtual_lab.Workflow.{
  Action, apply_transition, moved, Moved, transitions, stored_note, has_current,
}
use virtual_lab.Workflow.Permitted.{Permitted, Permitted_of_ok, ok_of_Permitted, after}
use virtual_lab.Workflow.Safety.{apply_transition-IsServed}
use virtual_lab.Versions.{of_scenario}
use virtual_lab.Versions.Invariant.{IsSound}
use virtual_lab.Routes.Bulk.{BulkAction, approve, unpublish, set_category, delete, act, categorized}
use virtual_lab.Routes.Bulk.Run.{
  transition_ok, set_category_ok, delete_ok, find-delete_ne, find-delete_self,
}
use virtual_lab.Safety.{IsSafe}

-- A row that a search finds after an update was there before, or is the update of one that was.
pub find_before :
    (id j : JsText) (f : Scenario → Scenario) (ss : List Scenario) (s : Scenario)
    → ((t : Scenario) → (f t).id ≡ t.id)
    → find_scenario j (update_scenario id f ss) ≡ some s
    → (t : Scenario) × (find_scenario j ss ≡ some t) × ((s ≡ t) ⊎ (s ≡ f t))
unfolding find_scenario update_scenario find
find_before id j f [] s same h = cc
find_before id j f (t ∷ ss) s same h = elim (Bool-cases (text_eq t.id j)) [
  | inl hit ↦ elim (Bool-cases (text_eq t.id id)) [
    | inl target ↦ (t, ground arith, inr (ground (arith, same t)))
    | inr bystander ↦ (t, ground arith, inl (ground arith))
  ]
  | inr miss ↦
      let (u, found, either) = find_before id j f ss s same (ground (arith, same t)) in
      (u, ground arith, either)
]

-- A write that keeps the history and each row's archive keeps the history's invariant.
pub sound_of_rows :
    (db db' : Db)
    → IsSound db
    → db'.versions ≡ db.versions
    → db'.next_version ≡ db.next_version
    → ((j : JsText) (s : Scenario)
        → find_scenario j db'.scenarios ≡ some s
        → (t : Scenario) × (find_scenario j db.scenarios ≡ some t) × (t.archive ≡ s.archive))
    → IsSound db'
sound_of_rows db db' sound same next rows = record {
  one_current = λ j. rw same (sound.one_current j);
  one_pending = λ j. rw same (sound.one_pending j);
  one_id = λ k. rw same (sound.one_id k);
  fresh = rw (same, next) sound.fresh;
  capped = λ j. rw same (sound.capped j);
  mirrored = λ j s v fs fv.
      let (t, ft, e) = rows j s fs in sym e ∙ sound.mirrored j t v ft (rw same at fv);
}

module _ (p : Principal) (id : JsText) (a : Action) (given : Option JsText) (db : Db)
    (safe : IsSafe db) where
  after-IsSound : (c : Permitted p id a given db) → IsSound (after p id a given db c.row)
  unfolding moved
  after-IsSound c = sound_of_rows db (after p id a given db c.row) safe.sound refl refl (λ j s h.
      let (t, found, either) =
        find_before id j (moved (transitions a) (stored_note (transitions a).note given) db.now)
          db.scenarios s (λ _. refl) h in
      (
        t,
        found,
        elim either [ inl e ↦ ap (λ x. x.archive) (sym e) | inr e ↦ ap (λ x. x.archive) (sym e) ],
      ))

  pub apply_transition-IsSafe :
      (m : Moved) (db' : Db) → apply_transition p id a given db ≡ ok (m, db') → IsSafe db'
  apply_transition-IsSafe m db' h =
      let c = Permitted_of_ok p id a given db (m, db') h in
      record {
        sound =
            subst (λ r. IsSound r.1) (ok-injective (sym (ok_of_Permitted p id a given db c) ∙ h))
              (after-IsSound c);
        served = apply_transition-IsServed p id a given db m db' safe.served h;
      }

find-other_scenario :
    (id j : JsText) (vs : List Version)
    → text_eq id j ≡ false
    → find (is_at j current) (keep (λ v. not (text_eq v.scenario_id id)) vs)
      ≡ find (is_at j current) vs
unfolding find keep
find-other_scenario id j [] ne = refl
find-other_scenario id j (v ∷ vs) ne = ground (
  arith,
  find-other_scenario id j vs ne,
  text_eq_iff v.scenario_id id,
  text_eq_iff v.scenario_id j,
  text_eq_iff id j,
)

has_current-other :
    (id j : JsText) (vs : List Version)
    → text_eq id j ≡ false
    → has_current j (keep (λ v. not (text_eq v.scenario_id id)) vs) ≡ has_current j vs
unfolding has_current any keep
has_current-other id j [] ne = refl
has_current-other id j (v ∷ vs) ne = ground (
  arith,
  has_current-other id j vs ne,
  text_eq_iff v.scenario_id id,
  text_eq_iff v.scenario_id j,
  text_eq_iff id j,
)

-- Deleting a scenario and its versions keeps the invariant.
pub deleted-IsSafe :
    (id : JsText) (db db' : Db)
    → IsSafe db
    → db'.scenarios ≡ keep (λ s. not (text_eq s.id id)) db.scenarios
    → db'.versions ≡ keep (λ v. not (text_eq v.scenario_id id)) db.versions
    → db'.next_version ≡ db.next_version
    → IsSafe db'
deleted-IsSafe id db db' safe rows vs next = record {
  sound = record {
    one_current = λ j. rw vs (
        omega (arith, safe.sound.one_current j, count-keep-le (is_at j current) other db.versions));
    one_pending = λ j. rw vs (
        omega (arith, safe.sound.one_pending j, count-keep-le (is_at j pending) other db.versions));
    one_id = λ k.
        rw vs
          (omega (arith, safe.sound.one_id k, count-keep-le (λ v. v.id == k) other db.versions));
    fresh =
        rw (vs, next) (All-keep (λ v. v.id < db.next_version) other db.versions safe.sound.fresh);
    capped = λ j.
        rw vs (omega (arith, safe.sound.capped j, count-keep-le (of_scenario j) other db.versions));
    mirrored = λ j s v fs fv. elim (Bool-cases (text_eq id j)) [
      | inl same ↦ absurd (ground (arith, text_eq_iff id j, find-delete_self id db.scenarios))
      | inr ne ↦
          safe.sound.mirrored j s v (sym (find-delete_ne id j db.scenarios ne) ∙ rw rows at fs)
            (sym (find-other_scenario id j db.versions ne) ∙ rw vs at fv)
    ];
  };
  served = λ j s fs st. elim (Bool-cases (text_eq id j)) [
    | inl same ↦ absurd (ground (arith, text_eq_iff id j, find-delete_self id db.scenarios))
    | inr ne ↦ rw vs (
        has_current-other id j db.versions ne
        ∙ safe.served j s (sym (find-delete_ne id j db.scenarios ne) ∙ rw rows at fs) st)
  ];
}
  where
    other : Version → Bool
    other v = not (text_eq v.scenario_id id)

categorized-IsSafe :
    (id : JsText) (c : Category) (db db' : Db)
    → IsSafe db
    → db'.scenarios ≡ update_scenario id (categorized c db.now) db.scenarios
    → db'.versions ≡ db.versions
    → db'.next_version ≡ db.next_version
    → IsSafe db'
categorized-IsSafe id c db db' safe rows vs next = record {
  sound = sound_of_rows db db' safe.sound vs next (λ j s fs.
      let (t, found, either) =
        find_before id j (categorized c db.now) db.scenarios s (λ _. refl) (rw rows at fs) in
      (
        t,
        found,
        elim either [ inl e ↦ ap (λ x. x.archive) (sym e) | inr e ↦ ap (λ x. x.archive) (sym e) ],
      ));
  served = λ j s fs st.
      let (t, found, either) =
        find_before id j (categorized c db.now) db.scenarios s (λ _. refl) (rw rows at fs) in
      rw vs (
        safe.served j t found (elim either [
          | inl e ↦ ap (λ x. x.status) (sym e) ∙ st
          | inr e ↦ ap (λ x. x.status) (sym e) ∙ st
        ]));
}

-- No action of a bulk request breaks the invariant.
pub act-IsSafe :
    (a : BulkAction) (p : Principal) (id : JsText) (db db' : Db)
    → IsSafe db
    → act a p id db ≡ ok (tt, db')
    → IsSafe db'
unfolding act
act-IsSafe approve p id db db' safe h =
    let (m, e) = transition_ok p id db db' Action.approve h in
    apply_transition-IsSafe p id Action.approve none db safe m db' e
act-IsSafe unpublish p id db db' safe h =
    let (m, e) = transition_ok p id db db' Action.unpublish h in
    apply_transition-IsSafe p id Action.unpublish none db safe m db' e
act-IsSafe (set_category slug) p id db db' safe h =
    let (c, s, e, f, g, v, n) = set_category_ok p id slug db db' h in
    categorized-IsSafe id c db db' safe g v n
act-IsSafe delete p id db db' safe h =
    let (rows, vs, next) = delete_ok p id db db' h in deleted-IsSafe id db db' safe rows vs next
