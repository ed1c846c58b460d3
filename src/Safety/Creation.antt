-- ===== src/Safety/Creation.antt =====
-- POST /api/catalog keeps the invariant of the catalog.
use virtual_lab.Prelude.{
  true, false, some, none, ◌≡◌, inl, inr, arith, sym, subst, find, Bool-cases,
}
use virtual_lab.JsText.{JsText, text_eq}
use virtual_lab.JsText.Laws.{text_eq_iff}
use virtual_lab.Json.{Json}
use virtual_lab.Db.Rows.{Db, Scenario, current}
use virtual_lab.Db.Find.{find_scenario, is_at}
use virtual_lab.Auth.{Principal}
use virtual_lab.Workflow.{has_current}
use virtual_lab.Routes.Catalog.Create.{post_catalog}
use virtual_lab.Routes.Catalog.Created.{Drafted, post_catalog-cases}
use virtual_lab.Safety.{IsSafe}

-- The foreign key of scenario_versions (migration 010): a scenario that is not there has no version.
abbrev pub NoStrays : Db → Type 0
NoStrays db =
    (id : JsText)
    → find_scenario id db.scenarios ≡ none
    → find (is_at id current) db.versions ≡ none

module _ (p : Principal) (id : JsText) (db db' : Db) (d : Drafted p id db db') where
  -- What a search finds afterwards: the draft, or what it found before.
  found_new :
      (j : JsText) (s : Scenario)
      → find_scenario j db'.scenarios ≡ some s
      → text_eq id j ≡ true
      → s ≡ d.row
  unfolding find_scenario
  found_new j s h same = ground (arith, d.scenarios, d.named)

  found_old :
      (j : JsText) (s : Scenario)
      → find_scenario j db'.scenarios ≡ some s
      → text_eq id j ≡ false
      → find_scenario j db.scenarios ≡ some s
  unfolding find_scenario
  found_old j s h other = ground (arith, d.scenarios, d.named)

  Drafted-IsSafe : IsSafe db → NoStrays db → IsSafe db'
  unfolding has_current
  Drafted-IsSafe safe strays = record {
    sound = record {
      one_current = λ j. rw d.versions (safe.sound.one_current j);
      one_pending = λ j. rw d.versions (safe.sound.one_pending j);
      one_id = λ k. rw d.versions (safe.sound.one_id k);
      fresh = rw (d.versions, d.next_version) safe.sound.fresh;
      capped = λ j. rw d.versions (safe.sound.capped j);
      mirrored = λ j s v fs fv. elim (Bool-cases (text_eq id j)) [
        | inr other ↦ safe.sound.mirrored j s v (found_old j s fs other) (rw d.versions at fv)
        | inl same ↦
            absurd (ground (arith, text_eq_iff id j, d.fresh, strays id d.fresh, d.versions))
      ];
    };
    served = λ j s fs status. elim (Bool-cases (text_eq id j)) [
      | inr other ↦ rw d.versions (safe.served j s (found_old j s fs other) status)
      | inl same ↦ absurd (ground (arith, found_new j s fs same, d.is_draft))
    ];
  }

pub creation-IsSafe :
    (driver_text : Json → JsText) (p : Principal) (body : Json) (db : Db)
    → NoStrays db
    → IsSafe db
    → IsSafe (post_catalog driver_text p body db).1
creation-IsSafe driver_text p body db strays safe =
    elim (post_catalog-cases driver_text p body db) [
      | inl (id, _, d) ↦ Drafted-IsSafe p id db (post_catalog driver_text p body db).1 d safe strays
      | inr (f, _, same) ↦ subst IsSafe (sym same) safe
    ]
