-- ===== src/Tests/Catalog.antt =====
-- Catalog input, categories, keys and catalog rows on small inputs.
use virtual_lab.Prelude.{
  ℕ, Bool, true, false, Option, some, none, List, [], ◌∷◌, ◌≡◌, ◌≢◌, ◌↔◌, ◌⊎◌, refl, arith, any,
  all, All, find, keep, not, ◌&&◌,
}
use virtual_lab.JsText.{JsText, utf16, text_eq, trim, decimal, is_decimal, number_of, number_from}
use virtual_lab.HttpError.{Described}
use virtual_lab.Db.Rows.{Db, Feature, author}
use virtual_lab.Db.Tx.{in_transaction}
use virtual_lab.Db.Find.{find_scenario}
use virtual_lab.Auth.{Principal, require_role}
use virtual_lab.Audit.{record_event}
use virtual_lab.RateLimits.{Windows}
use virtual_lab.Credentials.{authenticate, passed, resolve_principal}
use virtual_lab.Json.{
  Json, null, text, array, object, empty, item, blank, field, elements, member, field_of, is_truthy,
  Fields,
}
use virtual_lab.CatalogInput.{
  value, validate_features, feature_of, features_from, icon_of, title_of, subtitle_of, is_icon,
  is_slug_unit, scenario_text_problem, first_problem, text_problem, exceeds_width, code_points,
  points_after, image_url_problem,
}
use virtual_lab.CatalogInput.Widths.{columns, AllFit, scenario_text_problem_iff}
use virtual_lab.TestRunInput.{
  validate_test_run, failed_run, refuse_numbers, text_within, take_texts, is_within, whole_part,
}
use virtual_lab.Routes.{sent, failed}
use virtual_lab.Routes.Categories.{insert_category, ordered, post_reorder}
use virtual_lab.Routes.Categories.Orders.{IsOrder}
use virtual_lab.Routes.Categories.Reorder.{Matches, IsPlaced, reordered, post_reorder-cases}
use virtual_lab.Routes.Categories.Leaves.{IsFiled}
use virtual_lab.Routes.Categories.Filed.{remove, handle, category_request-IsFiled}
use virtual_lab.Routes.Keys.{
  key_id_of, post_revoke, post_key, NewKey, role_of, create_work, insert_key,
}
use virtual_lab.Routes.Keys.Revoked.{post_revoke-final, post_key-opens}
use virtual_lab.Routes.Catalog.{forbidden_problem, features_of, ensure_category}
use virtual_lab.Routes.Catalog.Create.{
  post_catalog, create_problem, label_for, new_row, insert_scenario, text_or,
  create_work as make_scenario,
}
use virtual_lab.Routes.Catalog.Created.{Drafted, post_catalog-cases}
use virtual_lab.Routes.Catalog.Update.{put_catalog}
use virtual_lab.Routes.Catalog.Author.{Kept, author_put-Kept}
use virtual_lab.Tests.Data.{a, b, db, an_author, a_moderator}

abbrev titled : Json
titled = object (field (utf16 "title") (text a) (field (utf16 "version") null blank))

scenario_text_problem_iff_example :
    (scenario_text_problem (some titled) ≡ none) ↔ AllFit (some titled) columns
scenario_text_problem_iff_example = scenario_text_problem_iff (some titled)

tests_scenario_text_problem : scenario_text_problem (some titled) ≡ none
unfolding scenario_text_problem first_problem text_problem member field_of text_eq utf16
    exceeds_width
tests_scenario_text_problem = refl

-- A pair of surrogates is one character of a column.
tests_exceeds_width : exceeds_width (utf16 "😀😀") 2 ≡ false
unfolding exceeds_width code_points points_after utf16
tests_exceeds_width = refl

abbrev feature : Feature
feature = record { icon = a; title = b; subtitle = none }

abbrev feature_body : Json
feature_body = array (
    item
      (object
        (field (utf16 "icon") (text a) (field (utf16 "title") (text (b'b' ∷ b' ' ∷ [])) blank)))
      empty)

feature_accepted : validate_features feature_body ≡ value (feature ∷ [])
unfolding validate_features features_from feature_of icon_of title_of subtitle_of elements member
    field_of text_eq utf16 is_icon is_slug_unit trim decimal
feature_accepted = refl

abbrev failure : Fields
failure = field (utf16 "error") (text a) blank

tests_validate_test_run :
    validate_test_run (some (object (field (utf16 "device") (text b) failure))) ≡ value failure
unfolding validate_test_run failed_run refuse_numbers text_within take_texts member field_of text_eq
    utf16 keep
tests_validate_test_run = refl

tests_is_within :
    is_within 1000 (utf16 "59.94")
      && not (is_within 1000 (utf16 "1000.5"))
      && is_within 1000 (utf16 "5e-7")
      && not (is_within 1000 (utf16 "1e+21"))
      && not (is_within 1000 (utf16 "-1"))
      && is_within 1000 (utf16 "1000")
    ≡ true
unfolding is_within whole_part number_of number_from any text_eq utf16
tests_is_within = refl

abbrev by_units : JsText → JsText → Bool
by_units s t = true

-- Both scenarios are in category "a", which comes second.
abbrev filed : Db
filed = record db {
  categories =
      record { slug = b; label = b; icon = []; sort_order = 10; is_visible = true }
      ∷ record { slug = a; label = a; icon = []; sort_order = 20; is_visible = true }
      ∷ [];
}

abbrev order : Option Json
order = some (object (field (utf16 "slugs") (array (item (text a) (item (text b) empty))) blank))

post_reorder-cases_example :
    ((slugs : List JsText) × IsOrder (member (utf16 "slugs") order) slugs
      × Matches filed slugs
      × All (IsPlaced slugs) (reordered by_units a_moderator order filed slugs).categories
      × (post_reorder by_units a_moderator order filed ≡ (
        sent 200 (ordered by_units (reordered by_units a_moderator order filed slugs).categories),
        reordered by_units a_moderator order filed slugs,
      )))
    ⊎ ((d : Described) × (post_reorder by_units a_moderator order filed ≡ (failed d, filed))
        × (((d.status ≡ 409)
              × ((slugs : List JsText) × IsOrder (member (utf16 "slugs") order) slugs
                  × (¬ Matches filed slugs)))
            ⊎ ((d.status ≡ 400)
                × ((slugs : List JsText) → ¬ IsOrder (member (utf16 "slugs") order) slugs))))
post_reorder-cases_example = post_reorder-cases by_units a_moderator order filed refl

filed-IsFiled : IsFiled filed
unfolding any text_eq
filed-IsFiled = (refl, (refl, tt))

category_request-IsFiled_example : IsFiled (handle by_units a_moderator (remove a) filed)
category_request-IsFiled_example =
    category_request-IsFiled by_units a_moderator (remove a) filed filed-IsFiled

seven : key_id_of (utf16 "7") ≡ some 7
unfolding key_id_of is_decimal number_of utf16 all
seven = refl

post_revoke-final_example :
    ((sha256_hex : JsText → JsText) (utf8 : JsText → List ℕ) (bootstrap_token : JsText) (limit : ℕ)
        (header ip : JsText) (time : ℕ) (ws : Windows JsText) (q : Principal)
      → (authenticate sha256_hex utf8 bootstrap_token limit header ip time
          (post_revoke a_moderator (utf16 "7") db).1
          ws).0
        ≡ passed q
      → q.key_id ≢ some 7)
    × ((later : ℕ)
        → (post_revoke a_moderator
            (utf16 "7")
            (record (post_revoke a_moderator (utf16 "7") db).1 { now = later })).1.keys
          ≡ (post_revoke a_moderator (utf16 "7") db).1.keys)
post_revoke-final_example = post_revoke-final a_moderator (utf16 "7") 7 db refl seven

abbrev hash : JsText → JsText
hash s = b'z' ∷ s

abbrev same : JsText → List ℕ
same s = s

abbrev key_body : Option Json
key_body =
    some
      (object (field (utf16 "label") (text a) (field (utf16 "role") (text (utf16 "author")) blank)))

abbrev new_key : NewKey
new_key = record { id = 9; label = a; role = author; token = b }

key_created :
    post_key hash a_moderator key_body b db
    ≡ (sent 201 new_key, (post_key hash a_moderator key_body b db).1)
unfolding post_key create_work insert_key role_of record_event in_transaction require_role member
    field_of text_eq utf16 trim any
key_created = refl

post_key-opens_example :
    (resolve_principal hash same a new_key.token (post_key hash a_moderator key_body b db).1).0
    ≡ some (record { role = new_key.role; key_id = some new_key.id; label = new_key.label })
post_key-opens_example =
    post_key-opens hash same a a_moderator key_body b db (post_key hash a_moderator key_body b db).1
      new_key key_created (omega arith) (λ h. ground arith)

abbrev to_text : Json → JsText
to_text j = []

author_put-Kept_example :
    Kept to_text an_author a titled refl db (put_catalog to_text an_author a titled db).1
author_put-Kept_example = author_put-Kept to_text an_author a titled refl db

abbrev new_work : Json
new_work = object (
    field (utf16 "id") (text (b'c' ∷ [])) (
      field (utf16 "title") (text b)
        (field (utf16 "category") (text a) (field (utf16 "categoryLabel") (text a) blank))))

tests_post_catalog : (post_catalog to_text a_moderator new_work db).0 ≡ sent 201 (b'c' ∷ [])
unfolding post_catalog create_problem make_scenario in_transaction require_role ensure_category
    label_for new_row insert_scenario text_or record_event forbidden_problem features_of
    scenario_text_problem first_problem text_problem exceeds_width code_points points_after member
    field_of text_eq utf16 is_truthy find any find_scenario insert_category image_url_problem
tests_post_catalog = refl

post_catalog-cases_example :
    ((id : JsText) × ((post_catalog to_text a_moderator new_work db).0 ≡ sent 201 id)
      × Drafted a_moderator id db (post_catalog to_text a_moderator new_work db).1)
    ⊎ ((f : Described) × ((post_catalog to_text a_moderator new_work db).0 ≡ failed f)
        × ((post_catalog to_text a_moderator new_work db).1 ≡ db))
post_catalog-cases_example = post_catalog-cases to_text a_moderator new_work db
