-- ===== src/Versions/Lists.antt =====
-- What the statements on `scenario_versions` do to counts and searches.
use virtual_lab.Prelude.{
  ℕ, ◌+◌, ◌≤◌, none, some, List, [], ◌∷◌, ◌≡◌, ◌≢◌, refl, arith, if◌then◌else◌, ◌==◌, find,
  count_if, All,
}
use virtual_lab.JsText.{JsText, text_eq}
use virtual_lab.JsText.Laws.{text_eq_iff}
use virtual_lab.Db.Tx.{ok}
use virtual_lab.Db.Rows.{Db, Version, current, pending}
use virtual_lab.Db.Find.{is_at}
use virtual_lab.Versions.{
  of_scenario, archive_current, mark_current, is_version, get_version, shown,
}

-- UPDATE … SET state = 'archived' WHERE scenario_id = id AND state = 'current'
module _ (id : JsText) where
  pub count-archive_current :
      (j : JsText) (vs : List Version)
      → count_if (is_at j current) (archive_current id vs)
        ≡ (if text_eq id j then 0 else count_if (is_at j current) vs)
  unfolding count_if archive_current
  count-archive_current j [] = ground arith
  count-archive_current j (v ∷ vs) = ground (
    arith,
    count-archive_current j vs,
    text_eq_iff id j,
    text_eq_iff v.scenario_id id,
    text_eq_iff v.scenario_id j,
  )

  pub count_pending-archive_current :
      (j : JsText) (vs : List Version)
      → count_if (is_at j pending) (archive_current id vs) ≡ count_if (is_at j pending) vs
  unfolding count_if archive_current
  count_pending-archive_current j [] = refl
  count_pending-archive_current j (v ∷ vs) = ground (arith, count_pending-archive_current j vs)

  pub count_id-archive_current :
      (k : ℕ) (vs : List Version)
      → count_if (λ v. v.id == k) (archive_current id vs) ≡ count_if (λ v. v.id == k) vs
  unfolding count_if archive_current
  count_id-archive_current k [] = refl
  count_id-archive_current k (v ∷ vs) = ground (arith, count_id-archive_current k vs)

  pub count_scenario-archive_current :
      (j : JsText) (vs : List Version)
      → count_if (of_scenario j) (archive_current id vs) ≡ count_if (of_scenario j) vs
  unfolding count_if archive_current
  count_scenario-archive_current j [] = refl
  count_scenario-archive_current j (v ∷ vs) = ground (arith, count_scenario-archive_current j vs)

  pub find-archive_current :
      (j : JsText) (vs : List Version)
      → find (is_at j current) (archive_current id vs)
        ≡ (if text_eq id j then none else find (is_at j current) vs)
  unfolding find archive_current
  find-archive_current j [] = ground arith
  find-archive_current j (v ∷ vs) = ground (
    arith,
    find-archive_current j vs,
    text_eq_iff id j,
    text_eq_iff v.scenario_id id,
    text_eq_iff v.scenario_id j,
  )

  pub All-id-archive_current :
      (P : ℕ → Type 0) (vs : List Version)
      → All (λ v. P v.id) vs
      → All (λ v. P v.id) (archive_current id vs)
  unfolding archive_current
  All-id-archive_current P [] h = tt
  All-id-archive_current P (v ∷ vs) h = (ground arith, All-id-archive_current P vs h.1)

  -- A row that is not current is found as it was.
  pub find_id-archive_current :
      (k : ℕ) (vs : List Version) (v : Version)
      → find (λ w. w.id == k) vs ≡ some v
      → v.state ≢ current
      → find (λ w. w.id == k) (archive_current id vs) ≡ some v
  unfolding find archive_current
  find_id-archive_current k [] v h n = cc
  find_id-archive_current k (w ∷ vs) v h n = ground (arith, find_id-archive_current k vs v)

  pub find_version-archive_current :
      (j : JsText) (k : ℕ) (vs : List Version) (v : Version)
      → find (is_version j k) vs ≡ some v
      → v.state ≢ current
      → find (is_version j k) (archive_current id vs) ≡ some v
  unfolding find archive_current
  find_version-archive_current j k [] v h n = cc
  find_version-archive_current j k (w ∷ vs) v h n =
      ground (arith, find_version-archive_current j k vs v)

  pub count_version-archive_current :
      (j : JsText) (k : ℕ) (vs : List Version)
      → count_if (is_version j k) (archive_current id vs) ≡ count_if (is_version j k) vs
  unfolding count_if archive_current
  count_version-archive_current j k [] = refl
  count_version-archive_current j k (v ∷ vs) = ground (arith, count_version-archive_current j k vs)

-- UPDATE … SET state = 'current' WHERE id = k
module _ (k : ℕ) where
  pub count-mark_current-le :
      (j : JsText) (vs : List Version)
      → count_if (is_at j current) (mark_current k vs)
        ≤ count_if (is_at j current) vs + count_if (is_version j k) vs
  unfolding count_if mark_current
  count-mark_current-le j [] = omega arith
  count-mark_current-le j (v ∷ vs) = ground (arith, count-mark_current-le j vs)

  pub count_pending-mark_current-le :
      (j : JsText) (vs : List Version)
      → count_if (is_at j pending) (mark_current k vs) ≤ count_if (is_at j pending) vs
  unfolding count_if mark_current
  count_pending-mark_current-le j [] = omega arith
  count_pending-mark_current-le j (v ∷ vs) = ground (arith, count_pending-mark_current-le j vs)

  pub count_id-mark_current :
      (i : ℕ) (vs : List Version)
      → count_if (λ v. v.id == i) (mark_current k vs) ≡ count_if (λ v. v.id == i) vs
  unfolding count_if mark_current
  count_id-mark_current i [] = refl
  count_id-mark_current i (v ∷ vs) = ground (arith, count_id-mark_current i vs)

  pub count_scenario-mark_current :
      (j : JsText) (vs : List Version)
      → count_if (of_scenario j) (mark_current k vs) ≡ count_if (of_scenario j) vs
  unfolding count_if mark_current
  count_scenario-mark_current j [] = refl
  count_scenario-mark_current j (v ∷ vs) = ground (arith, count_scenario-mark_current j vs)

  -- Where no row of scenario `j` has the id, the search for its current version finds the same.
  pub find-mark_current_ne :
      (j : JsText) (vs : List Version)
      → count_if (is_version j k) vs ≡ 0
      → find (is_at j current) (mark_current k vs) ≡ find (is_at j current) vs
  unfolding find count_if mark_current
  find-mark_current_ne j [] h = refl
  find-mark_current_ne j (v ∷ vs) h = ground (arith, find-mark_current_ne j vs)

  -- Where scenario `j` has no current version, the search finds the row with the id, marked.
  pub find-mark_current :
      (j : JsText) (vs : List Version) (v : Version)
      → find (is_at j current) vs ≡ none
      → find (is_version j k) vs ≡ some v
      → find (is_at j current) (mark_current k vs) ≡ some (record v { state = current })
  unfolding find mark_current
  find-mark_current j [] v n h = cc
  find-mark_current j (w ∷ vs) v n h = ground (arith, find-mark_current j vs v)

  pub All-id-mark_current :
      (P : ℕ → Type 0) (vs : List Version)
      → All (λ v. P v.id) vs
      → All (λ v. P v.id) (mark_current k vs)
  unfolding mark_current
  All-id-mark_current P [] h = tt
  All-id-mark_current P (v ∷ vs) h = (ground arith, All-id-mark_current P vs h.1)

-- A version that is there is what `getVersion` answers, and reading it changes nothing.
pub get_version_found :
    (id : JsText) (vid : ℕ) (v : Version) (db : Db)
    → find (is_version id vid) db.versions ≡ some v
    → get_version id vid db ≡ ok (shown db.keys v, db)
unfolding get_version
get_version_found id vid v db h = ground arith
