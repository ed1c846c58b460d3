-- ===== src/Safety/Covers.antt =====
-- The covers of backend/routes/previews.js keep the invariant of the catalog.
use virtual_lab.Prelude.{
  ℕ, Bool, some, List, [], true, ◌≡◌, inl, inr, refl, sym, ap, arith, subst, Bool-cases,
  Option-cases,
}
use virtual_lab.JsText.{JsText, is_empty}
use virtual_lab.Db.Rows.{Db, Scenario}
use virtual_lab.Db.Tx.{Tx, ok, in_transaction}
use virtual_lab.Db.Find.{find_scenario, update_scenario}
use virtual_lab.Db.Laws.{Result-cases}
use virtual_lab.Auth.{Principal, can_edit_scenario}
use virtual_lab.Audit.{record_event}
use virtual_lab.Storage.{Stored}
use virtual_lab.PreviewImage.{Inspected, inspect_preview}
use virtual_lab.Routes.Versions.{lock_scenario}
use virtual_lab.Routes.Previews.{
  Received, file, no_file, too_large, malformed, Gallery, covered, cover_work, uncover_work,
  lock_editable, post_cover, post_preview, delete_preview, require_scenario_editor, extension,
}
use virtual_lab.Storage.Commit.{commit_preview}
use virtual_lab.Safety.{IsSafe}
use virtual_lab.Safety.Acts.{find_before}
use virtual_lab.Safety.Categories.{rows-IsSafe}

-- A change of a cover alone.
set_cover-IsSafe :
    (id url : JsText) (db db' : Db)
    → IsSafe db
    → db'.scenarios ≡ update_scenario id (covered url db.now) db.scenarios
    → db'.versions ≡ db.versions
    → db'.next_version ≡ db.next_version
    → IsSafe db'
set_cover-IsSafe id url db db' safe rows versions next =
    rows-IsSafe db db' safe versions next (λ j s fs.
      let (t, found, either) =
        find_before id j (covered url db.now) db.scenarios s (λ _. refl) (rw rows at fs) in
      (
        t,
        found,
        elim either [ inl e ↦ ap (λ x. x.archive) (sym e) | inr e ↦ ap (λ x. x.archive) (sym e) ],
        elim either [ inl e ↦ ap (λ x. x.status) (sym e) | inr e ↦ ap (λ x. x.status) (sym e) ],
      ))

in_transaction-IsSafe :
    (work : Tx Unit) (db : Db)
    → IsSafe db
    → ((db' : Db) → work db ≡ ok (tt, db') → IsSafe db')
    → IsSafe (in_transaction work db).1
unfolding in_transaction
in_transaction-IsSafe work db safe h = elim (Result-cases (work db)) [
  | inl ((u, db'), e) ↦ subst IsSafe {x = db'} (ground arith) (h db' e)
  | inr (x, e) ↦ subst IsSafe {x = db} (ground arith) safe
]

cover_work-IsSafe :
    (p : Principal) (id : JsText) (stored : Stored) (info : Inspected) (db db' : Db)
    → IsSafe db
    → cover_work p id stored info db ≡ ok (tt, db')
    → IsSafe db'
unfolding cover_work lock_editable lock_scenario record_event
cover_work-IsSafe p id stored info db db' safe h =
    elim (Option-cases (find_scenario id db.scenarios)) [
      | inl missing ↦ absurd (ground arith)
      | inr (row, found) ↦ elim (Bool-cases (can_edit_scenario p row.owner_key_id)) [
        | inr stranger ↦ absurd (ground arith)
        | inl may ↦
            set_cover-IsSafe id stored.url db db' safe (ground arith) (ground arith) (ground arith)
      ]
    ]

uncover_work-IsSafe :
    (p : Principal) (id : JsText) (db db' : Db)
    → IsSafe db
    → uncover_work p id db ≡ ok (tt, db')
    → IsSafe db'
unfolding uncover_work lock_editable lock_scenario record_event
uncover_work-IsSafe p id db db' safe h = elim (Option-cases (find_scenario id db.scenarios)) [
  | inl missing ↦ absurd (ground arith)
  | inr (row, found) ↦ elim (Bool-cases (can_edit_scenario p row.owner_key_id)) [
    | inr stranger ↦ absurd (ground arith)
    | inl may ↦ elim (Bool-cases (is_empty row.card.image_url)) [
      | inl bare ↦ subst IsSafe {x = db} (ground arith) safe
      | inr covers ↦ set_cover-IsSafe id [] db db' safe (ground arith) (ground arith) (ground arith)
    ]
  ]
]

module _ (aspect_is_off : ℕ → ℕ → Bool) (hash_of : List ℕ → JsText) (p : Principal) (id : JsText)
    (time : ℕ) (g : Gallery) (safe : IsSafe g.db) where
  post_cover-IsSafe :
      (bytes : List ℕ) → IsSafe (post_cover aspect_is_off hash_of p id bytes time g).1.db
  unfolding post_cover
  post_cover-IsSafe bytes = elim (Result-cases (inspect_preview aspect_is_off bytes)) [
    | inr (e, h) ↦ subst IsSafe {x = g.db} (ground arith) safe
    | inl (info, h) ↦
        let stored = (commit_preview hash_of bytes (extension info.kind) time g.objects).0 in
        subst IsSafe {x = (in_transaction (cover_work p id stored info) g.db).1} (ground arith) (
          in_transaction-IsSafe (cover_work p id stored info) g.db safe
            (λ db' k. cover_work-IsSafe p id stored info g.db db' safe k))
  ]

  -- Past the gate.
  let_in :
      (row : Scenario) (received : Received)
      → find_scenario id g.db.scenarios ≡ some row
      → can_edit_scenario p row.owner_key_id ≡ true
      → IsSafe (post_preview aspect_is_off hash_of p id received time g).1.db
  unfolding post_preview require_scenario_editor
  let_in row (file bytes) found may =
      subst IsSafe {x = (post_cover aspect_is_off hash_of p id bytes time g).1.db} (ground arith)
        (post_cover-IsSafe bytes)
  let_in row no_file found may = subst IsSafe {x = g.db} (ground arith) safe
  let_in row too_large found may = subst IsSafe {x = g.db} (ground arith) safe
  let_in row malformed found may = subst IsSafe {x = g.db} (ground arith) safe

  pub post_preview-IsSafe :
      (received : Received) → IsSafe (post_preview aspect_is_off hash_of p id received time g).1.db
  unfolding post_preview require_scenario_editor
  post_preview-IsSafe received = elim (Option-cases (find_scenario id g.db.scenarios)) [
    | inl missing ↦ subst IsSafe {x = g.db} (ground arith) safe
    | inr (row, found) ↦ elim (Bool-cases (can_edit_scenario p row.owner_key_id)) [
      | inr stranger ↦ subst IsSafe {x = g.db} (ground arith) safe
      | inl may ↦ let_in row received found may
    ]
  ]

pub delete_preview-IsSafe :
    (p : Principal) (id : JsText) (db : Db) → IsSafe db → IsSafe (delete_preview p id db).1
unfolding delete_preview require_scenario_editor
delete_preview-IsSafe p id db safe = elim (Option-cases (find_scenario id db.scenarios)) [
  | inl missing ↦ subst IsSafe {x = db} (ground arith) safe
  | inr (row, found) ↦ elim (Bool-cases (can_edit_scenario p row.owner_key_id)) [
    | inr stranger ↦ subst IsSafe {x = db} (ground arith) safe
    | inl may ↦ subst IsSafe {x = (in_transaction (uncover_work p id) db).1} (ground arith) (
        in_transaction-IsSafe (uncover_work p id) db safe
          (λ db' k. uncover_work-IsSafe p id db db' safe k))
  ]
]
