-- ===== src/Routes/Catalog/Created.antt =====
-- What POST /api/catalog leaves.
use virtual_lab.Prelude.{
  ◌++◌, true, false, none, some, ◌∷◌, ◌≡◌, ◌⊎◌, inl, inr, refl, sym, ap, ◌∙◌, subst, arith,
  if◌then◌else◌, Bool-cases, Option-cases,
}
use virtual_lab.JsText.{JsText, utf16}
use virtual_lab.HttpError.{
  Failure, http_error, unique_violation, foreign_key_violation, error, Described,
}
use virtual_lab.Db.Rows.{Db, Scenario, draft}
use virtual_lab.Db.Tx.{Tx, ok, throw, pure, in_transaction}
use virtual_lab.Db.Find.{find_scenario}
use virtual_lab.Db.Laws.{Result-cases}
use virtual_lab.Auth.{Principal, is_moderator}
use virtual_lab.Audit.{record_event}
use virtual_lab.Json.{Json, member, string_of}
use virtual_lab.Routes.{sent, failed}
use virtual_lab.Routes.Moves.{author_passes}
use virtual_lab.Routes.Categories.Leaves.{has_category}
use virtual_lab.Routes.Catalog.{ensure_category}
use virtual_lab.Routes.Catalog.Create.{
  insert_scenario, new_row, create_work, create_problem, post_catalog, answer_created,
  no_such_category, id_text,
}
use virtual_lab.Routes.Catalog.Inserts.{ensured, labelled, inserted, Inserted}

-- The tables before the row is put in.
record Settled (p : Principal) (slug : JsText) (db mid : Db) : Type 0 where
  scenarios : mid.scenarios ≡ db.scenarios
  versions : mid.versions ≡ db.versions
  next_version : mid.next_version ≡ db.next_version
  kept : (j : JsText) → has_category j db.categories ≡ true → has_category j mid.categories ≡ true
  has : is_moderator p.role ≡ true → has_category slug mid.categories ≡ true

-- One draft more: its id is new, its owner the caller's key, its category one of the table.
pub record Drafted (p : Principal) (id : JsText) (db db' : Db) : Type 0 where
  pub row : Scenario
  pub scenarios : db'.scenarios ≡ row ∷ db.scenarios
  pub named : row.id ≡ id
  pub fresh : find_scenario id db.scenarios ≡ none
  pub is_draft : row.status ≡ draft
  pub owner : row.owner_key_id ≡ p.key_id
  pub filed : has_category row.card.category db'.categories ≡ true
  pub kept :
      (slug : JsText)
      → has_category slug db.categories ≡ true
      → has_category slug db'.categories ≡ true
  pub versions : db'.versions ≡ db.versions
  pub next_version : db'.next_version ≡ db.next_version

abbrev server_failure : Described
server_failure = record { status = 500; message = utf16 "Помилка сервера" }

module _ (driver_text : Json → JsText) (p : Principal) (body : Json) where
  -- The category is seen to before the row: a moderator's is made, an author's is left.
  settled :
      (category : JsText) (db : Db)
      → let step : Tx (Unit {0}) =
          if is_moderator p.role
          then ensure_category category (string_of (member (utf16 "categoryLabel") (some body)))
          else pure tt in
        ((mid : Db) × (step db ≡ ok (tt, mid)) × Settled p category db mid)
        ⊎ ((e : Failure) × (step db ≡ throw e))
  settled category db = elim (Bool-cases (is_moderator p.role)) [
    | inr by_author ↦ inl (
      db,
      ground arith,
      record {
        scenarios = refl;
        versions = refl;
        next_version = refl;
        kept = λ j has. has;
        has = λ r. absurd (ground arith);
      },
    )
    | inl by_moderator ↦
        elim (Result-cases
          (ensure_category category (string_of (member (utf16 "categoryLabel") (some body))) db)) [
            | inr (e, h) ↦ inr (e, ground arith)
            | inl ((u, mid), h) ↦
                let made =
                  ensured category (string_of (member (utf16 "categoryLabel") (some body))) db mid
                    h in
                inl (
                  mid,
                  ground arith,
                  record {
                    scenarios = made.scenarios;
                    versions = made.versions;
                    next_version = made.next_version;
                    kept = made.kept;
                    has = λ r. made.has;
                  },
                )
          ]
  ]

  answer_failed :
      (id : JsText) (e : Failure) (db : Db)
      → (f : Described) × (answer_created driver_text id (throw e, db) ≡ (failed f, db))
  answer_failed id unique_violation db = (
    record { status = 409; message = utf16 "Сценарій з id \"" ++ id ++ utf16 "\" вже існує" },
    refl,
  )
  answer_failed id (http_error _ _) db = (server_failure, refl)
  answer_failed id foreign_key_violation db = (server_failure, refl)
  answer_failed id (error _) db = (server_failure, refl)

  assembled :
      (row : Scenario) (db mid last db' : Db) (made : JsText)
      → Settled p row.card.category db mid
      → (is_moderator p.role ≡ false → has_category row.card.category mid.categories ≡ true)
      → Inserted row mid last
      → row.status ≡ draft
      → row.owner_key_id ≡ p.key_id
      → made ≡ row.id
      → db'.scenarios ≡ last.scenarios
      → db'.versions ≡ last.versions
      → db'.next_version ≡ last.next_version
      → db'.categories ≡ last.categories
      → Drafted p made db db'
  assembled row db mid last db' made s has i is_draft owner named rows versions next categories =
      record {
        row = row;
        scenarios = rows ∙ i.scenarios ∙ ap (λ ss. row ∷ ss) s.scenarios;
        named = sym named;
        fresh =
            subst (λ ss. find_scenario made ss ≡ none) s.scenarios
              (subst (λ j. find_scenario j mid.scenarios ≡ none) (sym named) i.fresh);
        is_draft = is_draft;
        owner = owner;
        filed =
            subst (λ cs. has_category row.card.category cs ≡ true) (sym (categories ∙ i.categories))
              (elim (Bool-cases (is_moderator p.role)) [ inl m ↦ s.has m | inr a ↦ has a ]);
        kept = λ j known.
            subst (λ cs. has_category j cs ≡ true) (sym (categories ∙ i.categories))
              (s.kept j known);
        versions = versions ∙ i.versions ∙ s.versions;
        next_version = next ∙ i.next_version ∙ s.next_version;
      }

  drafted :
      (db db' : Db) (made : JsText)
      → create_work driver_text p body db ≡ ok (made, db')
      → Drafted p made db db'
  unfolding create_work new_row record_event
  drafted db db' made h = elim (Option-cases (string_of (member (utf16 "id") (some body)))) [
    | inl no_id ↦ absurd (ground arith)
    | inr (id, id_e) ↦ elim (Option-cases (string_of (member (utf16 "title") (some body)))) [
      | inl no_title ↦ absurd (ground arith)
      | inr (title, title_e) ↦
          elim (Option-cases (string_of (member (utf16 "category") (some body)))) [
            | inl no_category ↦ absurd (ground arith)
            | inr (category, category_e) ↦ elim (settled category db) [
              | inr (e, bad) ↦ absurd (ground arith)
              | inl (mid, good, s) ↦
                  elim (labelled driver_text p category (member (utf16 "categoryLabel") (some body))
                    mid) [
                      | inr (e, bad) ↦ absurd (ground arith)
                      | inl (l, label_e, has) ↦
                          elim (Result-cases (
                            insert_scenario driver_text
                              (new_row driver_text p body id title category l mid.now) mid)) [
                                | inr (e, bad) ↦ absurd (ground arith)
                                | inl ((u, last), put) ↦
                                    assembled
                                      (new_row driver_text p body id title category l mid.now) db
                                      mid last db' made s has
                                      (inserted driver_text
                                        (new_row driver_text p body id title category l mid.now) mid
                                        last put)
                                      refl refl (ground arith) (ground arith) (ground arith)
                                      (ground arith) (ground arith)
                              ]
                    ]
            ]
          ]
    ]
  ]

  -- POST /api/catalog either answers 201 with the id of one draft more, which is the caller's own,
  -- with an id that was free and a category that the table then has, while every row of a scenario
  -- and every version stays as it was and no category is lost; or it answers an error and changes
  -- nothing.
  pub post_catalog-cases :
      (db : Db)
      → ((id : JsText) × ((post_catalog driver_text p body db).0 ≡ sent 201 id)
          × Drafted p id db (post_catalog driver_text p body db).1)
        ⊎ ((f : Described) × ((post_catalog driver_text p body db).0 ≡ failed f)
            × ((post_catalog driver_text p body db).1 ≡ db))
  unfolding post_catalog in_transaction
  post_catalog-cases db = elim (Option-cases (create_problem driver_text p body)) [
    | inr (message, e) ↦ inr (
      record { status = 400; message = message },
      ground (arith, author_passes p),
      ground (arith, author_passes p),
    )
    | inl passed ↦
        elim (Bool-cases
          (no_such_category driver_text p (member (utf16 "category") (some body)) db)) [
            | inl e ↦ inr (
              record { status = 400; message = utf16 "Невідома категорія" },
              ground (arith, author_passes p),
              ground (arith, author_passes p),
            )
            | inr e ↦ elim (Result-cases (create_work driver_text p body db)) [
              | inl ((made, db'), h) ↦
                  let same : post_catalog driver_text p body db ≡ (sent 201 made, db') =
                    ground (arith, author_passes p) in
                  inl (
                    made,
                    ap (λ r. r.0) same,
                    subst (Drafted p made db) {x = db'} (sym (ap (λ r. r.1) same))
                        (drafted db db' made h),
                  )
              | inr (e', h) ↦
                  let (f, answer) =
                    answer_failed (id_text driver_text (member (utf16 "id") (some body))) e' db in
                  inr (f, ground (arith, author_passes p), ground (arith, author_passes p))
            ]
          ]
  ]
