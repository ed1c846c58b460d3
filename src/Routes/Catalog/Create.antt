-- ===== src/Routes/Catalog/Create.antt =====
-- POST /api/catalog in backend/routes/catalog-admin.js.
use virtual_lab.Prelude.{
  ℕ, Bool, true, false, not, ◌&&◌, ◌||◌, Option, none, some, [], ◌∷◌, ◌++◌, ◌orelse◌, if◌then◌else◌,
  any, find,
}
use virtual_lab.JsText.{JsText, utf16}
use virtual_lab.HttpError.{unique_violation, foreign_key_violation}
use virtual_lab.Db.Rows.{Db, Scenario, Archive, draft, author, text}
use virtual_lab.Db.Tx.{
  Tx, Result, ok, throw, in_transaction, pure, fail, gets, or_fail, throw_if, modify, ◌>>=◌, ◌>>◌,
}
use virtual_lab.Db.Find.{find_scenario}
use virtual_lab.Auth.{Principal, is_moderator}
use virtual_lab.Audit.{record_event}
use virtual_lab.Json.{Json, member, string_of, is_truthy}
use virtual_lab.CatalogInput.{image_url_problem, scenario_text_problem}
use virtual_lab.Versions.{key_exists}
use virtual_lab.Routes.{Response, sent, failed, authorized}
use virtual_lab.Routes.Bulk.{find_category}
use virtual_lab.Routes.Catalog.{
  bad_request, forbidden_problem, features_of, problem_of, features_or, ensure_category, null_value,
  stored_text,
}

-- The columns that a new row takes from the body.
abbrev new_archive : JsText → Archive
new_archive url = record {
  scenario_url = url;
  sha256 = none;
  bytes = none;
  manifest_id = none;
  manifest_version = none;
  manifest_engine_version = none;
  graded = false;
  is_local = false;
}

module _ (driver_text : Json → JsText) where
  -- `value || otherwise`
  unfoldable pub text_or : Option Json → JsText → JsText
  unfolding is_truthy
  text_or none otherwise = otherwise
  text_or (some j) otherwise = if is_truthy (some j) then stored_text driver_text j else otherwise

  -- What POST refuses before it reads a table.
  unfoldable pub create_problem : Principal → Json → Option JsText
  unfolding forbidden_problem is_truthy scenario_text_problem features_of image_url_problem
  create_problem principal body =
      let by_author = not (is_moderator principal.role) in
      let given : JsText → Option Json = λ name. member name (some body) in
      forbidden_problem principal body
      orelse (if is_truthy (given (utf16 "id"))
            && is_truthy (given (utf16 "title"))
            && is_truthy (given (utf16 "category"))
            && (by_author || is_truthy (given (utf16 "categoryLabel")))
          then none
          else some (
              if by_author
              then utf16 "Обов'язкові поля: id, title, category"
              else utf16 "Обов'язкові поля: id, title, category, categoryLabel"))
      orelse scenario_text_problem (some body)
      orelse problem_of (features_of (given (utf16 "features")))
      orelse elim (given (utf16 "imageUrl")) [ none ↦ none | some j ↦ image_url_problem j [] ]

  -- `author`: a display name.
  abbrev author_name : Principal → Option Json → Option JsText
  author_name principal j =
      if not (is_moderator principal.role)
      then some principal.label
      else if is_truthy j
      then string_of j
      else elim principal.key_id [ none ↦ none | some _ ↦ some principal.label ]

  -- The label of a new row: an author's is the category's own.
  unfoldable pub label_for : Principal → JsText → Option Json → Tx JsText
  unfolding find
  label_for principal slug given = do
    known ← gets (λ db. find_category slug db.categories)
    let own : Option JsText = elim known [ none ↦ none | some c ↦ some c.label ]
    or_fail (if is_moderator principal.role then string_of given orelse own else own) null_value

  -- INSERT INTO scenarios …
  unfoldable pub insert_scenario : Scenario → Tx (Unit {0})
  unfolding find_scenario any
  insert_scenario s = do
    taken ← gets (λ db. find_scenario s.id db.scenarios)
    _ ← elim taken [ none ↦ pure tt | some _ ↦ fail unique_violation ]
    owner ← gets (λ db. key_exists s.owner_key_id db.keys)
    throw_if (not owner) foreign_key_violation
    modify (λ db. record db { scenarios = s ∷ db.scenarios })

  -- The columns of a new row; it is a draft.
  unfoldable pub new_row : Principal → Json → JsText → JsText → JsText → JsText → ℕ → Scenario
  unfolding text_or features_of is_truthy
  new_row principal body id title category label now =
      let given : JsText → Option Json = λ name. member name (some body) in
      record {
        id = id;
        card = record {
          title = title;
          description = text_or (given (utf16 "description")) [];
          full_description = text_or (given (utf16 "fullDescription")) [];
          category = category;
          category_label = label;
          image_url = text_or (given (utf16 "imageUrl")) [];
          manifest_url = none;
          version = some (text_or (given (utf16 "version")) (utf16 "1.0.0"));
          author = author_name principal (given (utf16 "author"));
          features = features_or (features_of (given (utf16 "features"))) [];
        };
        archive = new_archive (text_or (given (utf16 "scenarioUrl")) []);
        status = draft;
        moderator_note = none;
        submitted_at = none;
        updated_at = now;
        owner_key_id = principal.key_id;
      }

  unfoldable pub create_work : Principal → Json → Tx JsText
  unfolding ensure_category label_for new_row insert_scenario record_event
  create_work principal body = do
    let given : JsText → Option Json = λ name. member name (some body)
    id ← or_fail (string_of (given (utf16 "id"))) null_value
    title ← or_fail (string_of (given (utf16 "title"))) null_value
    category ← or_fail (string_of (given (utf16 "category"))) null_value
    _ ←
        if is_moderator principal.role
        then ensure_category category (string_of (given (utf16 "categoryLabel")))
        else pure tt
    label ← label_for principal category (given (utf16 "categoryLabel"))
    now ← gets (λ db. db.now)
    insert_scenario (new_row principal body id title category label now)
    record_event principal (utf16 "scenario.create") (some id)
        ((utf16 "category", text category) ∷ [])
    pure id

  -- What the catch of POST answers.
  abbrev pub answer_created : JsText → Result JsText × Db → Response JsText × Db
  answer_created id (ok created, db) = (sent 201 created, db)
  answer_created id (throw unique_violation, db) = (
    failed
        (record { status = 409; message = utf16 "Сценарій з id \"" ++ id ++ utf16 "\" вже існує" }),
    db,
  )
  answer_created id (throw e, db) =
      (failed (record { status = 500; message = utf16 "Помилка сервера" }), db)

  -- `byAuthor && (typeof category !== 'string' || !(await categoryExists(…)))`
  abbrev pub no_such_category : Principal → Option Json → Db → Bool
  no_such_category principal category db =
      not (is_moderator principal.role) && elim (string_of category) [
        | none ↦ true
        | some slug ↦ elim (find_category slug db.categories) [ none ↦ true | some _ ↦ false ]
      ]

  abbrev pub id_text : Option Json → JsText
  id_text j = elim (string_of j) [ none ↦ [] | some s ↦ s ]

  -- POST /api/catalog
  unfoldable pub post_catalog : Principal → Json → Db → Response JsText × Db
  unfolding create_problem create_work in_transaction find
  post_catalog principal body = authorized author principal (λ db.
      elim (create_problem principal body) [
        | some message ↦ (bad_request message, db)
        | none ↦
            if no_such_category principal (member (utf16 "category") (some body)) db
            then (bad_request (utf16 "Невідома категорія"), db)
            else answer_created (id_text (member (utf16 "id") (some body)))
                (in_transaction (create_work principal body) db)
      ])
