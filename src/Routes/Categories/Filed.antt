-- ===== src/Routes/Categories/Filed.antt =====
-- What the four requests of backend/routes/categories.js leave: every scenario stays in a category that
-- has a row.
use virtual_lab.Prelude.{
  Bool, true, false, Option, none, some, List, [], ◌∷◌, ◌≡◌, inl, inr, subst, arith, All,
  Option-cases,
}
use virtual_lab.JsText.{JsText, utf16}
use virtual_lab.HttpError.{Failure}
use virtual_lab.Db.Rows.{Db, Category, Scenario, moderator}
use virtual_lab.Db.Tx.{in_transaction}
use virtual_lab.Auth.{Principal, require_role}
use virtual_lab.Json.{Json, member}
use virtual_lab.CatalogInput.{validate_category}
use virtual_lab.CatalogInput.Features.{Checked-cases}
use virtual_lab.Routes.Categories.{
  create_work, answer_created, post_category, reorder_slugs, reorder_work, post_reorder, relabelled,
  with_label, update_work, put_category, remove_work, delete_category,
}
use virtual_lab.Routes.Categories.Leaves.{
  has_category, IsFiled, Leaves, unchanged, in_transaction-Leaves, create-Leaves, reorder-Leaves,
  update-Leaves, remove-Leaves,
}

-- One of the four requests.
pub data Request : Type 0 where
  create : Option Json → Request
  reorder : Option Json → Request
  update : JsText → Option Json → Request
  remove : JsText → Request

-- The tables after a request.
unfoldable pub handle : (JsText → JsText → Bool) → Principal → Request → Db → Db
unfolding post_category post_reorder put_category delete_category
handle slug_before p (create body) db = (post_category p body db).1
handle slug_before p (reorder body) db = (post_reorder slug_before p body db).1
handle slug_before p (update slug body) db = (put_category p slug body db).1
handle slug_before p (remove slug) db = (delete_category p slug db).1

module _ (slug_before : JsText → JsText → Bool) (p : Principal) (db : Db) where
  moderated :
      (r : Request) → require_role moderator (some p) ≡ none → Leaves db (handle slug_before p r db)
  unfolding handle post_category post_reorder put_category delete_category answer_created
  moderated (create body) m = elim (Checked-cases (validate_category body true)) [
    | inr (e, h) ↦ subst (Leaves db) {x = db} (ground arith) (unchanged db)
    | inl (input, h) ↦
        subst (Leaves db) {x = (in_transaction (create_work p input) db).1} (ground arith)
          (in_transaction-Leaves (create_work p input) db (create-Leaves p db input))
  ]
  moderated (reorder body) m = elim (Option-cases (reorder_slugs (member (utf16 "slugs") body))) [
    | inl h ↦ subst (Leaves db) {x = db} (ground arith) (unchanged db)
    | inr (slugs, h) ↦
        subst (Leaves db) {x = (in_transaction (reorder_work p slugs) db).1} (ground arith)
          (in_transaction-Leaves (reorder_work p slugs) db (reorder-Leaves p db slugs))
  ]
  moderated (update slug body) m = elim (Checked-cases (validate_category body false)) [
    | inr (e, h) ↦ subst (Leaves db) {x = db} (ground arith) (unchanged db)
    | inl (input, h) ↦
        subst (Leaves db) {x = (in_transaction (update_work p slug input) db).1} (ground arith)
          (in_transaction-Leaves (update_work p slug input) db (update-Leaves p db slug input))
  ]
  moderated (remove slug) m =
      subst (Leaves db) {x = (in_transaction (remove_work p slug) db).1} (ground arith)
        (in_transaction-Leaves (remove_work p slug) db (remove-Leaves p db slug))

  pub handle-Leaves : (r : Request) → Leaves db (handle slug_before p r db)
  unfolding handle post_category post_reorder put_category delete_category
  handle-Leaves r = elim (Option-cases (require_role moderator (some p))) [
    | inl m ↦ moderated r m
    | inr (e, h) ↦ subst (Leaves db) {x = db} (refused_same r e h) (unchanged db)
  ]
    where
      refused_same :
          (r : Request) (e : Failure)
          → require_role moderator (some p) ≡ some e
          → db ≡ handle slug_before p r db
      refused_same (create body) e h = ground arith
      refused_same (reorder body) e h = ground arith
      refused_same (update slug body) e h = ground arith
      refused_same (remove slug) e h = ground arith

relabelled-category :
    (slug label : JsText) (s : Scenario) → (relabelled slug label s).card.category ≡ s.card.category
unfolding relabelled
relabelled-category slug label s = ground arith

-- The rows of scenarios that an update of labels leaves in their categories.
filed_with_label :
    (slug : JsText) (label : Option JsText) (cs cs' : List Category) (ss : List Scenario)
    → All (λ s. has_category s.card.category cs ≡ true → has_category s.card.category cs' ≡ true) ss
    → All (λ s. has_category s.card.category cs ≡ true) ss
    → All (λ s. has_category s.card.category cs' ≡ true) (with_label slug label ss)
filed_with_label slug none cs cs' [] kept filed = tt
filed_with_label slug (some label) cs cs' [] kept filed = tt
filed_with_label slug none cs cs' (s ∷ ss) kept filed =
    (kept.0 filed.0, filed_with_label slug none cs cs' ss kept.1 filed.1)
filed_with_label slug (some label) cs cs' (s ∷ ss) kept filed = (
  rw (relabelled-category slug label s) (kept.0 filed.0),
  filed_with_label slug (some label) cs cs' ss kept.1 filed.1,
)

-- Whatever is asked of the list of categories, by anyone, every scenario stays in a category that has
-- a row: a category in use is not removed, and no other request drops one.
pub category_request-IsFiled :
    (slug_before : JsText → JsText → Bool) (p : Principal) (r : Request) (db : Db)
    → IsFiled db
    → IsFiled (handle slug_before p r db)
category_request-IsFiled slug_before p r db filed =
    let l = handle-Leaves slug_before p db r in
    rw l.scenarios (
      filed_with_label l.slug l.label db.categories (handle slug_before p r db).categories
        db.scenarios l.covered filed)
