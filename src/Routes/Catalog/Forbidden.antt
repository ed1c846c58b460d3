-- ===== src/Routes/Catalog/Forbidden.antt =====
-- A body without the names that are forbidden to authors.
use virtual_lab.Prelude.{true, none, some, [], ◌≡◌, inl, inr, refl, arith, any, keep, Bool-cases}
use virtual_lab.JsText.{JsText, utf16, text_eq, starts_with}
use virtual_lab.JsText.Laws.{text_eq_iff}
use virtual_lab.Json.{
  Json, null, flag, number, text, array, object, Fields, blank, field, field_names, field_of,
  keys_of, member,
}
use virtual_lab.CatalogInput.{is_forbidden, forbidden_author_fields}

unlisted :
    (name : JsText) (fields : Fields)
    → is_forbidden name ≡ true
    → keep is_forbidden (field_names fields) ≡ []
    → field_of name fields ≡ none
unfolding field_names field_of keep
unlisted name blank bad h = refl
unlisted name (field key j js) bad h = elim (Bool-cases (text_eq key name)) [
  | inl same ↦ absurd (ground (arith, text_eq_iff key name))
  | inr other ↦ ground (arith, unlisted name js bad)
]

-- A body without forbidden names has no member of such a name.
no_member :
    (name : JsText) (body : Json)
    → is_forbidden name ≡ true
    → forbidden_author_fields (some body) ≡ []
    → member name (some body) ≡ none
unfolding member forbidden_author_fields keys_of
no_member name (object fields) bad h = unlisted name fields bad h
no_member name null bad h = refl
no_member name (flag _) bad h = refl
no_member name (number _) bad h = refl
no_member name (text _) bad h = refl
no_member name (array _) bad h = refl

-- The members that a clean body does not have.
pub record IsClean (body : Json) : Type 0 where
  pub scenario_url : member (utf16 "scenarioUrl") (some body) ≡ none
  pub manifest_url : member (utf16 "manifestUrl") (some body) ≡ none
  pub image_url : member (utf16 "imageUrl") (some body) ≡ none
  pub author_name : member (utf16 "author") (some body) ≡ none
  pub is_published : member (utf16 "isPublished") (some body) ≡ none

pub no_forbidden_members : (body : Json) → forbidden_author_fields (some body) ≡ [] → IsClean body
unfolding is_forbidden any text_eq utf16 starts_with
no_forbidden_members body h = record {
  scenario_url = no_member (utf16 "scenarioUrl") body refl h;
  manifest_url = no_member (utf16 "manifestUrl") body refl h;
  image_url = no_member (utf16 "imageUrl") body refl h;
  author_name = no_member (utf16 "author") body refl h;
  is_published = no_member (utf16 "isPublished") body refl h;
}
