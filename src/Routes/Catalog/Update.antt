-- ===== src/Routes/Catalog/Update.antt =====
-- PUT /api/catalog/:id in backend/routes/catalog-admin.js.
use virtual_lab.Prelude.{
  ℕ, Bool, true, false, not, ◌&&◌, ◌||◌, Option, none, some, List, [], ◌∷◌, ◌orelse◌, if◌then◌else◌,
  keep, find,
}
use virtual_lab.JsText.{JsText, utf16, text_eq, is_empty}
use virtual_lab.HttpError.{http_error, describe_error}
use virtual_lab.Db.Rows.{Db, Scenario, Status, published, status_eq, author, texts}
use virtual_lab.Db.Tx.{Tx, in_transaction, pure, fail, gets, or_fail, throw_if, modify, ◌>>=◌, ◌>>◌}
use virtual_lab.Db.Find.{find_scenario, update_scenario}
use virtual_lab.Auth.{Principal, can_edit_scenario, is_moderator}
use virtual_lab.Audit.{record_event}
use virtual_lab.Json.{Json, null, flag, member, string_of, is_given}
use virtual_lab.CatalogInput.{image_url_problem, scenario_text_limits, first_problem, Limit}
use virtual_lab.Workflow.{Action, no_scenario}
use virtual_lab.Routes.{Response, authorized, answer_with}
use virtual_lab.Routes.Versions.{not_yours}
use virtual_lab.Routes.Bulk.{find_category, transition}
use virtual_lab.Routes.Catalog.{
  bad_request, forbidden_problem, features_of, problem_of, features_or, ensure_category,
  unknown_category, null_value, stored_text,
}

module _ (driver_text : Json → JsText) where
  -- The limits that PUT applies: `id` is left out of the body.
  abbrev put_limits : List Limit
  put_limits = elim scenario_text_limits [ [] ↦ [] | _ ∷ limits ↦ limits ]

  -- `categoryLabel` of an author is ignored.
  abbrev pub given_label : Principal → Json → Option Json
  given_label principal body =
      if is_moderator principal.role then member (utf16 "categoryLabel") (some body) else none

  abbrev not_filled : Option Json → Bool
  not_filled none = false
  not_filled j = elim (string_of j) [ none ↦ true | some s ↦ is_empty s ]

  abbrev not_string : Option Json → Bool
  not_string none = false
  not_string j = elim (string_of j) [ none ↦ true | some _ ↦ false ]

  abbrev not_flag : Option Json → Bool
  not_flag none = false
  not_flag (some (flag _)) = false
  not_flag (some _) = true

  abbrev when : Bool → JsText → Option JsText
  when true message = some message
  when false message = none

  -- `changed`: the names of the fields that the body gives, in the order of the code.
  unfoldable pub changed_fields : Principal → Json → List JsText
  unfolding keep
  changed_fields principal body =
      keep
        (λ name. is_given (
          if text_eq name (utf16 "categoryLabel")
          then given_label principal body
          else member name (some body)))
        (utf16 "title"
          ∷ utf16 "description"
          ∷ utf16 "fullDescription"
          ∷ utf16 "category"
          ∷ utf16 "categoryLabel"
          ∷ utf16 "imageUrl"
          ∷ utf16 "scenarioUrl"
          ∷ utf16 "manifestUrl"
          ∷ utf16 "version"
          ∷ utf16 "author"
          ∷ utf16 "features"
          ∷ [])

  abbrev pub is_blank : {A : Type 0} → List A → Bool
  is_blank [] = true
  is_blank (_ ∷ _) = false

  -- What PUT refuses before it reads a table.
  unfoldable pub update_problem : Principal → Json → Option JsText
  unfolding forbidden_problem first_problem features_of changed_fields
  update_problem principal body =
      let given : JsText → Option Json = λ name. member name (some body) in
      forbidden_problem principal body
      orelse first_problem put_limits (some body)
      orelse problem_of (features_of (given (utf16 "features")))
      orelse when (not_filled (given (utf16 "category")))
          (utf16 "category має бути непорожнім рядком")
      orelse when (not_string (given_label principal body)) (utf16 "categoryLabel має бути рядком")
      orelse when (not_flag (given (utf16 "isPublished"))) (utf16 "isPublished має бути булевим")
      orelse when
          (is_blank (changed_fields principal body) && not (is_given (given (utf16 "isPublished"))))
          (utf16 "Не вказано жодного поля для оновлення")

  -- A column that a field sets, where the body gives it.
  abbrev set_text : Option Json → JsText → JsText
  set_text none old = old
  set_text (some j) old = stored_text driver_text j

  -- The same of a column that may be null.
  abbrev set_nullable : Option Json → Option JsText → Option JsText
  set_nullable none old = old
  set_nullable (some null) old = none
  set_nullable (some j) old = some (stored_text driver_text j)

  -- UPDATE scenarios SET …, updated_at = NOW()
  unfoldable pub assigned : Principal → Json → ℕ → Scenario → Scenario
  unfolding features_of
  assigned principal body now s =
      let given : JsText → Option Json = λ name. member name (some body) in
      record s {
        card = record {
          title = set_text (given (utf16 "title")) s.card.title;
          description = set_text (given (utf16 "description")) s.card.description;
          full_description = set_text (given (utf16 "fullDescription")) s.card.full_description;
          category = set_text (given (utf16 "category")) s.card.category;
          category_label = set_text (given_label principal body) s.card.category_label;
          image_url = set_text (given (utf16 "imageUrl")) s.card.image_url;
          manifest_url = set_nullable (given (utf16 "manifestUrl")) s.card.manifest_url;
          version = set_nullable (given (utf16 "version")) s.card.version;
          author = set_nullable (given (utf16 "author")) s.card.author;
          features = features_or (features_of (given (utf16 "features"))) s.card.features;
        };
        archive = record s.archive {
          scenario_url = set_text (given (utf16 "scenarioUrl")) s.archive.scenario_url;
        };
        updated_at = now;
      }

  abbrev is_null : Option Json → Bool
  is_null (some null) = true
  is_null _ = false

  -- Whether a NOT NULL column would get null.
  abbrev pub sets_null : Json → Bool
  sets_null body =
      is_null (member (utf16 "description") (some body))
      || is_null (member (utf16 "fullDescription") (some body))
      || is_null (member (utf16 "scenarioUrl") (some body))

  -- `isPublished` as approve or unpublish; the state that the row is in is no request.
  unfoldable pub publish : Principal → JsText → Option Json → Status → Tx (Unit {0})
  unfolding transition
  publish principal id (some (flag true)) status =
      if status_eq status published then pure tt else transition Action.approve principal id
  publish principal id (some (flag false)) status =
      if status_eq status published then transition Action.unpublish principal id else pure tt
  publish principal id _ status = pure tt

  -- The category that the body gives, made or looked for.
  unfoldable pub settle_category : Principal → Json → Tx (Unit {0})
  unfolding ensure_category unknown_category find
  settle_category principal body = elim (string_of (member (utf16 "category") (some body))) [
    | none ↦ pure tt
    | some slug ↦
        if is_moderator principal.role
        then ensure_category slug (string_of (given_label principal body))
        else (do
          _ ← or_fail (← gets (λ db. find_category slug db.categories)) unknown_category
          pure tt)
  ]

  unfoldable pub write_fields : Principal → JsText → Json → Tx (Unit {0})
  unfolding changed_fields assigned update_scenario record_event
  write_fields principal id body =
      let changed = changed_fields principal body in
      if is_blank changed then pure tt else (do
        throw_if (sets_null body) null_value
        modify (λ db. record db {
          scenarios = update_scenario id (assigned principal body db.now) db.scenarios;
        })
        record_event principal (utf16 "scenario.update") (some id)
            ((utf16 "fields", texts changed) ∷ []))

  unfoldable pub update_work : Principal → JsText → Json → Tx (Unit {0})
  unfolding publish settle_category write_fields image_url_problem not_yours no_scenario
  update_work principal id body = do
    row ← or_fail (← gets (λ db. find_scenario id db.scenarios)) no_scenario
    throw_if (not (can_edit_scenario principal row.owner_key_id)) not_yours
    _ ← elim (member (utf16 "imageUrl") (some body)) [
      | none ↦ pure tt
      | some j ↦ elim (image_url_problem j row.card.image_url) [
        | none ↦ pure tt
        | some problem ↦ fail (http_error 400 problem)
      ]
    ]
    publish principal id (member (utf16 "isPublished") (some body)) row.status
    settle_category principal body
    write_fields principal id body

  -- PUT /api/catalog/:id
  unfoldable pub put_catalog : Principal → JsText → Json → Db → Response JsText × Db
  unfolding update_problem update_work in_transaction describe_error
  put_catalog principal id body = authorized author principal (λ db.
      elim (update_problem principal body) [
        | some message ↦ (bad_request message, db)
        | none ↦ answer_with (λ _. id) (in_transaction (update_work principal id body) db)
      ])
