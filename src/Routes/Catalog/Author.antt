-- ===== src/Routes/Catalog/Author.antt =====
-- What an author's PUT /api/catalog/:id cannot touch.
use virtual_lab.Prelude.{
  ℕ, true, some, ◌≡◌, ◌⊎◌, inl, inr, refl, sym, ◌∙◌, subst, arith, Bool-cases, Option-cases,
}
use virtual_lab.JsText.{JsText, utf16, text_eq}
use virtual_lab.JsText.Laws.{text_eq_iff}
use virtual_lab.HttpError.{Failure}
use virtual_lab.Db.Rows.{Db, Scenario, author}
use virtual_lab.Db.Tx.{ok, throw, in_transaction}
use virtual_lab.Db.Find.{find_scenario, update_scenario}
use virtual_lab.Db.Laws.{Result-cases, find-update_self, find-update_ne}
use virtual_lab.Auth.{Principal, can_edit_scenario}
use virtual_lab.Auth.Laws.{MayEdit, can_edit_scenario_iff}
use virtual_lab.Audit.{record_event}
use virtual_lab.Json.{Json, member, string_of}
use virtual_lab.Routes.Bulk.{find_category}
use virtual_lab.Routes.Moves.{author_passes}
use virtual_lab.Routes.Catalog.{forbidden_problem, unknown_category}
use virtual_lab.Routes.Catalog.Update.{
  update_problem, update_work, put_catalog, assigned, changed_fields, publish, settle_category,
  write_fields, is_blank, sets_null,
}
use virtual_lab.Routes.Catalog.Forbidden.{IsClean, no_forbidden_members}

-- What of a row stays: the archive that it serves, its status, and the columns that are a moderator's.
pub record Keeps (s t : Scenario) : Type 0 where
  pub id : t.id ≡ s.id
  pub archive : t.archive ≡ s.archive
  pub status : t.status ≡ s.status
  pub owner : t.owner_key_id ≡ s.owner_key_id
  pub submitted_at : t.submitted_at ≡ s.submitted_at
  pub moderator_note : t.moderator_note ≡ s.moderator_note
  pub image_url : t.card.image_url ≡ s.card.image_url
  pub manifest_url : t.card.manifest_url ≡ s.card.manifest_url
  pub author_name : t.card.author ≡ s.card.author
  pub category_label : t.card.category_label ≡ s.card.category_label

module _ (driver_text : Json → JsText) (p : Principal) (body : Json) (by_author : p.role ≡ author)
    (clean : IsClean body) where
  assigned-Keeps : (now : ℕ) (s : Scenario) → Keeps s (assigned driver_text p body now s)
  unfolding assigned
  assigned-Keeps now s = record {
    id = refl;
    archive = rw clean.scenario_url refl;
    status = refl;
    owner = refl;
    submitted_at = refl;
    moderator_note = refl;
    image_url = rw clean.image_url refl;
    manifest_url = rw clean.manifest_url refl;
    author_name = rw clean.author_name refl;
    category_label = rw by_author refl;
  }

  -- What the transaction leaves of an author.
  record Wrote (id : JsText) (db db' : Db) : Type 0 where
    row : Scenario
    found : find_scenario id db.scenarios ≡ some row
    may : can_edit_scenario p row.owner_key_id ≡ true
    scenarios :
        (db'.scenarios ≡ db.scenarios)
        ⊎ (db'.scenarios ≡ update_scenario id (assigned driver_text p body db.now) db.scenarios)
    versions : db'.versions ≡ db.versions
    next_version : db'.next_version ≡ db.next_version
    categories : db'.categories ≡ db.categories

  settled :
      (db : Db)
      → (settle_category driver_text p body db ≡ ok (tt, db))
        ⊎ ((e : Failure) × (settle_category driver_text p body db ≡ throw e))
  unfolding settle_category
  settled db = elim (Option-cases (string_of (member (utf16 "category") (some body)))) [
    | inl e ↦ inl (ground arith)
    | inr (slug, e) ↦ elim (Option-cases (find_category slug db.categories)) [
      | inl none_such ↦ inr (unknown_category, ground arith)
      | inr (c, known) ↦ inl (ground arith)
    ]
  ]

  written :
      (id : JsText) (db db' : Db)
      → write_fields driver_text p id body db ≡ ok (tt, db')
      → ((db'.scenarios ≡ db.scenarios)
          ⊎ (db'.scenarios ≡ update_scenario id (assigned driver_text p body db.now) db.scenarios))
        × (db'.versions ≡ db.versions)
        × (db'.next_version ≡ db.next_version)
        × (db'.categories ≡ db.categories)
  unfolding write_fields record_event
  written id db db' h =
      elim (Bool-cases (is_blank driver_text (changed_fields driver_text p body))) [
        | inl same ↦ (inl (ground arith), ground arith, ground arith, ground arith)
        | inr some_changed ↦ elim (Bool-cases (sets_null driver_text body)) [
          | inl bad ↦ absurd (ground arith)
          | inr good ↦ (inr (ground arith), ground arith, ground arith, ground arith)
        ]
      ]

  wrote :
      (id : JsText) (db db' : Db)
      → update_work driver_text p id body db ≡ ok (tt, db')
      → Wrote id db db'
  unfolding update_work publish
  wrote id db db' h = elim (Option-cases (find_scenario id db.scenarios)) [
    | inl missing ↦ absurd (ground arith)
    | inr (row, found) ↦ elim (Bool-cases (can_edit_scenario p row.owner_key_id)) [
      | inr stranger ↦ absurd (ground arith)
      | inl may ↦ elim (settled db) [
        | inr (e, unknown) ↦ absurd (ground (arith, clean.image_url, clean.is_published))
        | inl known ↦
            let (scenarios, versions, next, categories) =
              written id db db' (ground (arith, clean.image_url, clean.is_published)) in
            record {
              row = row;
              found = found;
              may = may;
              scenarios = scenarios;
              versions = versions;
              next_version = next;
              categories = categories;
            }
      ]
    ]
  ]

Keeps-refl : (s : Scenario) → Keeps s s
Keeps-refl s = record {
  id = refl;
  archive = refl;
  status = refl;
  owner = refl;
  submitted_at = refl;
  moderator_note = refl;
  image_url = refl;
  manifest_url = refl;
  author_name = refl;
  category_label = refl;
}

module _ (driver_text : Json → JsText) (p : Principal) (id : JsText) (body : Json)
    (by_author : p.role ≡ author) where
  -- Each row found after was there before, with all that stays; it is the same row unless it is the
  -- one that was named, which the author may edit. No row is gone.
  pub record Kept (db db' : Db) : Type 0 where
    pub rows :
        (j : JsText) (t : Scenario)
        → find_scenario j db'.scenarios ≡ some t
        → (s : Scenario) × (find_scenario j db.scenarios ≡ some s)
          × Keeps s t
          × ((t ≡ s) ⊎ ((j ≡ id) × MayEdit p s.owner_key_id))
    pub stays :
        (j : JsText) (s : Scenario)
        → find_scenario j db.scenarios ≡ some s
        → (t : Scenario) × (find_scenario j db'.scenarios ≡ some t)
    pub versions : db'.versions ≡ db.versions
    pub next_version : db'.next_version ≡ db.next_version
    pub categories : db'.categories ≡ db.categories

  same_tables : (db : Db) → Kept db db
  same_tables db = record {
    rows = λ j t h. (t, h, Keeps-refl t, inl refl);
    stays = λ j s h. (s, h);
    versions = refl;
    next_version = refl;
    categories = refl;
  }

  Wrote-Kept :
      (db db' : Db) (clean : IsClean body)
      → Wrote driver_text p body by_author clean id db db'
      → Kept db db'
  Wrote-Kept db db' clean w = record {
    rows = λ j t h. elim w.scenarios [
      | inl same ↦ (t, rw same at h, Keeps-refl t, inl refl)
      | inr new ↦ elim (Bool-cases (text_eq id j)) [
        | inr other ↦ (
          t,
          sym (
                find-update_ne id j (assigned driver_text p body db.now) db.scenarios
                  (λ s. (assigned-Keeps driver_text p body by_author clean db.now s).id) other)
              ∙ rw new at h,
          Keeps-refl t,
          inl refl,
        )
        | inl named ↦ (
          w.row,
          ground (arith, text_eq_iff id j, w.found),
          subst (Keeps w.row) {x = assigned driver_text p body db.now w.row}
              (the_row j t db db' w.row new w.found h named)
              (assigned-Keeps driver_text p body by_author clean db.now w.row),
          inr (
            sym ((text_eq_iff id j).0 named),
            (can_edit_scenario_iff p w.row.owner_key_id).0 w.may,
          ),
        )
      ]
    ];
    stays = λ j s h. elim w.scenarios [
      | inl same ↦ (s, rw same h)
      | inr new ↦ elim (Bool-cases (text_eq id j)) [
        | inr other ↦ (
          s,
          rw new (
              find-update_ne id j (assigned driver_text p body db.now) db.scenarios
                (λ s. (assigned-Keeps driver_text p body by_author clean db.now s).id) other
              ∙ h),
        )
        | inl named ↦
            (assigned driver_text p body db.now w.row, row_after j db db' w.row new w.found named)
      ]
    ];
    versions = w.versions;
    next_version = w.next_version;
    categories = w.categories;
  }
    where
      row_after :
          (j : JsText) (db db' : Db) (row : Scenario)
          → db'.scenarios ≡ update_scenario id (assigned driver_text p body db.now) db.scenarios
          → find_scenario id db.scenarios ≡ some row
          → text_eq id j ≡ true
          → find_scenario j db'.scenarios ≡ some (assigned driver_text p body db.now row)
      row_after j db db' row new found named = ground (
        arith,
        find-update_self id (assigned driver_text p body db.now) db.scenarios
            (λ s. (assigned-Keeps driver_text p body by_author clean db.now s).id),
        text_eq_iff id j,
      )

      the_row :
          (j : JsText) (t : Scenario) (db db' : Db) (row : Scenario)
          → db'.scenarios ≡ update_scenario id (assigned driver_text p body db.now) db.scenarios
          → find_scenario id db.scenarios ≡ some row
          → find_scenario j db'.scenarios ≡ some t
          → text_eq id j ≡ true
          → assigned driver_text p body db.now row ≡ t
      the_row j t db db' row new found h named = ground (
        arith,
        find-update_self id (assigned driver_text p body db.now) db.scenarios
            (λ s. (assigned-Keeps driver_text p body by_author clean db.now s).id),
        text_eq_iff id j,
      )

  -- Whatever an author sends to PUT /api/catalog/:id, every scenario is still there, with its archive,
  -- status, owner, submission time, moderator's note, cover, manifest address, author's name and
  -- category label; only the named scenario can change at all, and only where the author may edit it;
  -- no version and no category changes.
  pub author_put-Kept : (db : Db) → Kept db (put_catalog driver_text p id body db).1
  unfolding put_catalog update_problem forbidden_problem in_transaction
  author_put-Kept db = elim (Option-cases (update_problem driver_text p body)) [
    | inr (message, e) ↦ subst (Kept db) {x = db} (ground (arith, author_passes p)) (same_tables db)
    | inl passed ↦ elim (Result-cases (update_work driver_text p id body db)) [
      | inr (e, h) ↦ subst (Kept db) {x = db} (ground (arith, author_passes p)) (same_tables db)
      | inl ((u, db'), h) ↦
          let clean = no_forbidden_members body (ground arith) in
          subst (Kept db) {x = db'} (ground (arith, author_passes p))
            (Wrote-Kept db db' clean (wrote driver_text p body by_author clean id db db' h))
    ]
  ]
