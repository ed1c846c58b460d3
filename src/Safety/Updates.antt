-- ===== src/Safety/Updates.antt =====
-- PUT /api/catalog/:id without a scenarioUrl keeps the invariant of the catalog, whoever sends it.
use virtual_lab.Prelude.{
  ℕ, true, false, Option, some, none, List, ◌≡◌, inl, inr, refl, arith, ◌∙◌, sym, subst, ap,
  Bool-cases, Option-cases,
}
use virtual_lab.JsText.{JsText, utf16}
use virtual_lab.Json.{Json, null, flag, number, text, array, object, member, string_of}
use virtual_lab.Db.Rows.{Db, Scenario, Status, published, status_eq}
use virtual_lab.Db.Tx.{Tx, ok, ◌>>=◌, in_transaction}
use virtual_lab.Db.Find.{find_scenario, update_scenario}
use virtual_lab.Db.Laws.{Result-cases}
use virtual_lab.CatalogInput.{image_url_problem}
use virtual_lab.Auth.{Principal, is_moderator, can_edit_scenario}
use virtual_lab.Audit.{record_event}
use virtual_lab.Routes.Bulk.{approve, unpublish, act, find_category}
use virtual_lab.Routes.Moves.{author_passes}
use virtual_lab.Routes.Catalog.Inserts.{ensured}
use virtual_lab.Routes.Catalog.Update.{
  update_problem, update_work, put_catalog, assigned, changed_fields, publish, settle_category,
  write_fields, is_blank, sets_null, given_label,
}
use virtual_lab.Safety.{IsSafe}
use virtual_lab.Safety.Acts.{act-IsSafe, find_before}
use virtual_lab.Safety.Categories.{rows-IsSafe}

-- Work that keeps the invariant where it succeeds.
abbrev Preserves : {A : Type 0} → Tx A → Type 0
Preserves {A} m = (db db' : Db) (a : A) → IsSafe db → m db ≡ ok (a, db') → IsSafe db'

-- One after the other.
each_in_turn :
    {A B : Type 0} (m : Tx A) (f : A → Tx B)
    → Preserves m
    → ((a : A) → Preserves (f a))
    → Preserves (m >>= f)
each_in_turn m f pm pf db db' b safe h = elim (Result-cases (m db)) [
  | inr (e, bad) ↦ absurd (ground arith)
  | inl ((a, mid), good) ↦ pf a mid db' b (pm db mid a safe good) (ground arith)
]

module _ (driver_text : Json → JsText) (p : Principal) (id : JsText) where
  publishes : (j : Option Json) (st : Status) → Preserves (publish driver_text p id j st)
  unfolding publish act
  publishes none st db db' a safe h = subst IsSafe {x = db} (ground arith) safe
  publishes (some null) st db db' a safe h = subst IsSafe {x = db} (ground arith) safe
  publishes (some (number _)) st db db' a safe h = subst IsSafe {x = db} (ground arith) safe
  publishes (some (text _)) st db db' a safe h = subst IsSafe {x = db} (ground arith) safe
  publishes (some (array _)) st db db' a safe h = subst IsSafe {x = db} (ground arith) safe
  publishes (some (object _)) st db db' a safe h = subst IsSafe {x = db} (ground arith) safe
  publishes (some (flag true)) st db db' a safe h = elim (Bool-cases (status_eq st published)) [
    | inl already ↦ subst IsSafe {x = db} (ground arith) safe
    | inr now ↦ act-IsSafe approve p id db db' safe (ground arith)
  ]
  publishes (some (flag false)) st db db' a safe h = elim (Bool-cases (status_eq st published)) [
    | inl now ↦ act-IsSafe unpublish p id db db' safe (ground arith)
    | inr already ↦ subst IsSafe {x = db} (ground arith) safe
  ]

  settles : (body : Json) → Preserves (settle_category driver_text p body)
  unfolding settle_category
  settles body db db' a safe h =
      elim (Option-cases (string_of (member (utf16 "category") (some body)))) [
        | inl no_slug ↦ subst IsSafe {x = db} (ground arith) safe
        | inr (slug, e) ↦ elim (Bool-cases (is_moderator p.role)) [
          | inr by_author ↦ elim (Option-cases (find_category slug db.categories)) [
            | inl unknown ↦ absurd (ground arith)
            | inr (c, known) ↦ subst IsSafe {x = db} (ground arith) safe
          ]
          | inl by_moderator ↦
              let made =
                ensured slug (string_of (given_label driver_text p body)) db db' (ground arith) in
              rows-IsSafe db db' safe made.versions made.next_version
                (λ j s fs. (s, rw made.scenarios at fs, refl, refl))
        ]
      ]

  module _ (body : Json) (kept : member (utf16 "scenarioUrl") (some body) ≡ none) where
    archive_kept :
        (now : ℕ) (s : Scenario) → s.archive ≡ (assigned driver_text p body now s).archive
    unfolding assigned
    archive_kept now s = rw kept refl

    status_kept : (now : ℕ) (s : Scenario) → s.status ≡ (assigned driver_text p body now s).status
    unfolding assigned
    status_kept now s = refl

    id_kept : (now : ℕ) (s : Scenario) → (assigned driver_text p body now s).id ≡ s.id
    unfolding assigned
    id_kept now s = refl

    row_before :
        (now : ℕ) (ss : List Scenario) (j : JsText) (s : Scenario)
        → find_scenario j (update_scenario id (assigned driver_text p body now) ss) ≡ some s
        → (t : Scenario) × (find_scenario j ss ≡ some t)
          × (t.archive ≡ s.archive)
          × (t.status ≡ s.status)
    row_before now ss j s h =
        let (t, found, either) =
          find_before id j (assigned driver_text p body now) ss s (id_kept now) h in
        elim either [
          | inl same ↦ (t, found, ap (λ x. x.archive) (sym same), ap (λ x. x.status) (sym same))
          | inr new ↦ (
            t,
            found,
            archive_kept now t ∙ ap (λ x. x.archive) (sym new),
            status_kept now t ∙ ap (λ x. x.status) (sym new),
          )
        ]

    writes : Preserves (write_fields driver_text p id body)
    unfolding write_fields record_event
    writes db db' a safe h =
        elim (Bool-cases (is_blank driver_text (changed_fields driver_text p body))) [
          | inl same ↦ subst IsSafe {x = db} (ground arith) safe
          | inr some_changed ↦ elim (Bool-cases (sets_null driver_text body)) [
            | inl bad ↦ absurd (ground arith)
            | inr good ↦
                let rows : db'.scenarios
                    ≡ update_scenario id (assigned driver_text p body db.now) db.scenarios =
                  ground arith in
                rows-IsSafe db db' safe (ground arith) (ground arith)
                  (λ j s fs. row_before db.now db.scenarios j s (rw rows at fs))
          ]
        ]

    -- The three writes of the transaction.
    abbrev work_of : Status → Tx (Unit {0})
    work_of st = publish driver_text p id (member (utf16 "isPublished") (some body)) st >>= λ _.
        settle_category driver_text p body >>= λ _. write_fields driver_text p id body

    works : (st : Status) → Preserves (work_of st)
    works st =
        each_in_turn (publish driver_text p id (member (utf16 "isPublished") (some body)) st)
          (λ _. settle_category driver_text p body >>= λ _. write_fields driver_text p id body)
          (publishes (member (utf16 "isPublished") (some body)) st)
          (λ _.
            each_in_turn (settle_category driver_text p body)
              (λ _. write_fields driver_text p id body) (settles body) (λ _. writes))

    updates : Preserves (update_work driver_text p id body)
    unfolding update_work
    updates db db' a safe h = elim (Option-cases (find_scenario id db.scenarios)) [
      | inl missing ↦ absurd (ground arith)
      | inr (row, found) ↦ elim (Bool-cases (can_edit_scenario p row.owner_key_id)) [
        | inr stranger ↦ absurd (ground arith)
        | inl may ↦ elim (Option-cases (member (utf16 "imageUrl") (some body))) [
          | inl no_image ↦ works row.status db db' a safe (ground arith)
          | inr (j, image) ↦ elim (Option-cases (image_url_problem j row.card.image_url)) [
            | inl good ↦ works row.status db db' a safe (ground arith)
            | inr (problem, bad) ↦ absurd (ground arith)
          ]
        ]
      ]
    ]

    pub put-IsSafe : (db : Db) → IsSafe db → IsSafe (put_catalog driver_text p id body db).1
    unfolding put_catalog in_transaction
    put-IsSafe db safe = elim (Option-cases (update_problem driver_text p body)) [
      | inr (message, e) ↦ subst IsSafe {x = db} (ground (arith, author_passes p)) safe
      | inl passed ↦ elim (Result-cases (update_work driver_text p id body db)) [
        | inr (e, h) ↦ subst IsSafe {x = db} (ground (arith, author_passes p)) safe
        | inl ((u, db'), h) ↦
            subst IsSafe {x = db'} (ground (arith, author_passes p)) (updates db db' u safe h)
      ]
    ]
