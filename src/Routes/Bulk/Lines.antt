-- ===== src/Routes/Bulk/Lines.antt =====
-- A whole bulk request: one line for each id, true of the tables that the request leaves.
use virtual_lab.Prelude.{
  Bool, false, not, none, List, [], ◌∷◌, map, ◌≡◌, ◌⊎◌, inl, inr, refl, arith, sym, ◌∙◌, keep, any,
  All, Bool-cases, subst, ap,
}
use virtual_lab.JsText.{JsText, text_eq}
use virtual_lab.JsText.Laws.{text_eq_iff}
use virtual_lab.HttpError.{Failure}
use virtual_lab.Db.Rows.{Db}
use virtual_lab.Db.Tx.{Result, ok, throw, in_transaction}
use virtual_lab.Db.Find.{find_scenario}
use virtual_lab.Db.Laws.{Result-cases}
use virtual_lab.Auth.{Principal}
use virtual_lab.Routes.Bulk.{BulkAction, act, act_line, run_all, distinct}
use virtual_lab.Routes.Bulk.Run.{Achieved, act_achieves, act_others}

abbrev pub IsDistinct : List JsText → Type 0
IsDistinct [] = Unit {0}
IsDistinct (id ∷ ids) = (any (λ x. text_eq x id) ids ≡ false) × IsDistinct ids

any-keep :
    (p q : JsText → Bool) (ids : List JsText) → any p ids ≡ false → any p (keep q ids) ≡ false
unfolding any keep
any-keep p q [] h = h
any-keep p q (x ∷ ids) h = ground (arith, any-keep p q ids)

any-keep_self :
    (id : JsText) (ids : List JsText)
    → any (λ x. text_eq x id) (keep (λ x. not (text_eq x id)) ids) ≡ false
unfolding any keep
any-keep_self id [] = refl
any-keep_self id (x ∷ ids) = ground (arith, any-keep_self id ids)

keep-IsDistinct : (q : JsText → Bool) (ids : List JsText) → IsDistinct ids → IsDistinct (keep q ids)
unfolding keep
keep-IsDistinct q [] h = tt
keep-IsDistinct q (x ∷ ids) h = elim (Bool-cases (q x)) [
  | inl kept ↦
      let both : IsDistinct (x ∷ keep q ids) =
        (any-keep (λ y. text_eq y x) q ids h.0, keep-IsDistinct q ids h.1) in
      subst IsDistinct {x = x ∷ keep q ids} (ground arith) both
  | inr dropped ↦ subst IsDistinct {x = keep q ids} (ground arith) (keep-IsDistinct q ids h.1)
]

distinct-IsDistinct : (ids : List JsText) → IsDistinct (distinct ids)
unfolding distinct
distinct-IsDistinct [] = tt
distinct-IsDistinct (id ∷ ids) = (
  any-keep_self id (distinct ids),
  keep-IsDistinct (λ x. not (text_eq x id)) (distinct ids) (distinct-IsDistinct ids),
)

-- The request names exactly the ids that are left.
any-distinct :
    (id : JsText) (ids : List JsText)
    → any (λ x. text_eq x id) (distinct ids) ≡ any (λ x. text_eq x id) ids
unfolding any distinct keep
any-distinct id [] = refl
any-distinct id (x ∷ ids) = elim (Bool-cases (text_eq x id)) [
  | inl same ↦ ground arith
  | inr ne ↦ ground (arith, any-distinct id ids, kept (distinct ids))
]
  where
    kept :
        (ys : List JsText)
        → text_eq x id ≡ false
        → any (λ y. text_eq y id) (keep (λ y. not (text_eq y x)) ys) ≡ any (λ y. text_eq y id) ys
    kept [] ne = refl
    kept (y ∷ ys) ne =
        ground (arith, kept ys ne, text_eq_iff y x, text_eq_iff y id, text_eq_iff x id)

module _ (a : BulkAction) (p : Principal) where
  -- The tables and the line after one id.
  pub one-cases :
      (id : JsText) (db : Db)
      → ((db' : Db) × (act a p id db ≡ ok (tt, db'))
          × (in_transaction (act a p id) db ≡ (ok tt, db')))
        ⊎ ((e : Failure) × (in_transaction (act a p id) db ≡ (throw e, db)))
  unfolding in_transaction
  one-cases id db = elim (Result-cases (act a p id db)) [
    | inl ((_, db'), e) ↦ inl (db', e, ground arith)
    | inr (e, h) ↦ inr (e, ground arith)
  ]

  one_others :
      (id j : JsText) (db : Db)
      → text_eq id j ≡ false
      → find_scenario j (in_transaction (act a p id) db).1.scenarios ≡ find_scenario j db.scenarios
  one_others id j db ne = elim (one-cases id db) [
    | inl (db', h, e) ↦ ap (λ r. find_scenario j r.1.scenarios) e ∙ act_others p id db db' a j h ne
    | inr (_, e) ↦ ap (λ r. find_scenario j r.1.scenarios) e
  ]

  run_all-others :
      (ids : List JsText) (j : JsText) (db : Db)
      → any (λ x. text_eq x j) ids ≡ false
      → find_scenario j (run_all a p ids db).1.scenarios ≡ find_scenario j db.scenarios
  unfolding run_all any
  run_all-others [] j db h = refl
  run_all-others (id ∷ ids) j db h =
      run_all-others ids j (in_transaction (act a p id) db).1 (ground arith)
      ∙ one_others id j db (ground arith)

  -- The lines stand in the order of the ids, one for each.
  run_all-ids : (ids : List JsText) (db : Db) → map (λ l. l.id) (run_all a p ids db).0 ≡ ids
  unfolding run_all act_line
  run_all-ids [] db = refl
  run_all-ids (id ∷ ids) db = elim (one-cases id db) [
    | inl (db', h, e) ↦ ground (arith, run_all-ids ids (in_transaction (act a p id) db).1)
    | inr (_, e) ↦ ground (arith, run_all-ids ids (in_transaction (act a p id) db).1)
  ]

  line_true :
      (id : JsText) (db : Db)
      → (act_line id (in_transaction (act a p id) db).0).error ≡ none
      → Achieved a (find_scenario id (in_transaction (act a p id) db).1.scenarios)
  unfolding act_line
  line_true id db h = elim (one-cases id db) [
    | inl (db', r, e) ↦
        subst (λ x. Achieved a (find_scenario id x.1.scenarios)) (sym e)
          (act_achieves p id db db' a r)
    | inr (_, e) ↦ ground arith
  ]

  line_id : (id : JsText) (r : Result (Unit {0})) → (act_line id r).id ≡ id
  unfolding act_line
  line_id id (ok _) = refl
  line_id id (throw e) = refl

  run_all-true :
      (ids : List JsText) (db : Db)
      → IsDistinct ids
      → All
          (λ l. l.error ≡ none → Achieved a (find_scenario l.id (run_all a p ids db).1.scenarios))
          (run_all a p ids db).0
  unfolding run_all
  run_all-true [] db h = tt
  run_all-true (id ∷ ids) db h =
      let db1 = (in_transaction (act a p id) db).1 in
      (
        (λ e.
            subst (Achieved a)
              (sym (run_all-others ids id db1 h.0)
                ∙ ap (λ x. find_scenario x (run_all a p ids db1).1.scenarios)
                    (sym (line_id id (in_transaction (act a p id) db).0)))
              (line_true id db e)),
        run_all-true ids db1 h.1,
      )

  -- The loop of a bulk request over the ids that it names.
  pub run_all-distinct :
      (ids : List JsText) (db : Db)
      → (map (λ l. l.id) (run_all a p (distinct ids) db).0 ≡ distinct ids)
        × All
            (λ l.
              l.error ≡ none
              → Achieved a (find_scenario l.id (run_all a p (distinct ids) db).1.scenarios))
            (run_all a p (distinct ids) db).0
        × ((j : JsText)
            → any (λ x. text_eq x j) ids ≡ false
            → find_scenario j (run_all a p (distinct ids) db).1.scenarios
              ≡ find_scenario j db.scenarios)
  run_all-distinct ids db = (
    run_all-ids (distinct ids) db,
    run_all-true (distinct ids) db (distinct-IsDistinct ids),
    λ j h. run_all-others (distinct ids) j db (any-distinct j ids ∙ h),
  )
