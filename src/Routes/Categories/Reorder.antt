-- ===== src/Routes/Categories/Reorder.antt =====
-- POST /api/categories/reorder in backend/routes/categories.js.
use virtual_lab.Prelude.{
  ℕ, suc, ◌*◌, Bool, true, false, not, ◌||◌, Option, none, some, List, [], ◌∷◌, map, ◌≡◌, ◌⊎◌, inl,
  inr, refl, arith, ◌==◌, any, length, All, Bool-cases, Option-cases, sym, ◌∙◌,
}
use virtual_lab.JsText.{JsText, utf16, text_eq}
use virtual_lab.JsText.Laws.{text_eq_iff}
use virtual_lab.HttpError.{Described, describe_error}
use virtual_lab.Db.Rows.{Db, Category, moderator, texts}
use virtual_lab.Db.Tx.{in_transaction}
use virtual_lab.Db.Find.{add_event}
use virtual_lab.Auth.{Principal, require_role}
use virtual_lab.Audit.{event, record_event}
use virtual_lab.Json.{Json, member}
use virtual_lab.Routes.{sent, failed}
use virtual_lab.Routes.Bulk.{distinct}
use virtual_lab.Routes.Categories.{
  listed_in, position, placed, list_changed, reorder_work, reorder_slugs, post_reorder, ordered,
}
use virtual_lab.Routes.Categories.Orders.{IsOrder, reorder_slugs_iff}
use virtual_lab.Routes.Categories.Sets.{
  IsDistinct, Within, listed-distinct, distinct-IsDistinct, length_of_subset, subset_back,
}

abbrev slugs_of : Db → List JsText
slugs_of db = map (λ c. c.slug) db.categories

any-listed : (xs ys : List JsText) → any (λ s. not (listed_in ys s)) xs ≡ false → Within xs ys
unfolding any
any-listed [] ys h s l = cc
any-listed (x ∷ xs) ys h s l = elim (Bool-cases (text_eq x s)) [
  | inl same ↦ ground (arith, text_eq_iff x s)
  | inr other ↦ any-listed xs ys (ground arith) s (ground arith)
]

listed-any : (xs ys : List JsText) → Within xs ys → any (λ s. not (listed_in ys s)) xs ≡ false
unfolding any
listed-any [] ys h = refl
listed-any (x ∷ xs) ys h =
    ground
      (arith, h x (ground (arith, text_eq_iff x x)), listed-any xs ys (λ s l. h s (ground arith)))

module _ (db : Db) (slugs : List JsText) where
  -- The request names what the table holds: each its slugs, none else.
  abbrev pub Matches : Type 0
  Matches = Within slugs (slugs_of db) × Within (slugs_of db) slugs

  known_subset : Within slugs (slugs_of db) → Within slugs (distinct (slugs_of db))
  known_subset h s l = listed-distinct (slugs_of db) s ∙ h s l

  matches :
      IsDistinct slugs
      → length (distinct (slugs_of db)) ≡ length slugs
      → any (λ s. not (listed_in (distinct (slugs_of db)) s)) slugs ≡ false
      → Matches
  matches d same all_known =
      let known = any-listed slugs (distinct (slugs_of db)) all_known in
      (
        λ s l. sym (listed-distinct (slugs_of db) s) ∙ known s l,
        λ s l.
            subset_back slugs (distinct (slugs_of db)) d known (omega (arith, same)) s
              (listed-distinct (slugs_of db) s ∙ l),
      )

  Matches-same :
      IsDistinct slugs
      → Matches
      → (length (distinct (slugs_of db)) ≡ length slugs)
        × (any (λ s. not (listed_in (distinct (slugs_of db)) s)) slugs ≡ false)
  Matches-same d m = (
    omega (
      arith,
      length_of_subset slugs (distinct (slugs_of db)) d (known_subset m.0),
      length_of_subset (distinct (slugs_of db)) slugs (distinct-IsDistinct (slugs_of db))
          (λ s l. m.1 s (sym (listed-distinct (slugs_of db) s) ∙ l)),
    ),
    listed-any slugs (distinct (slugs_of db)) (known_subset m.0),
  )

position_of_listed :
    (n : ℕ) (slug : JsText) (slugs : List JsText)
    → listed_in slugs slug ≡ true
    → (k : ℕ) × (position n slug slugs ≡ some k)
unfolding position any
position_of_listed n slug [] h = absurd (ground arith)
position_of_listed n slug (s ∷ ss) h = elim (Bool-cases (text_eq s slug)) [
  | inl hit ↦ (n, ground arith)
  | inr miss ↦ let (k, e) = position_of_listed (suc n) slug ss (ground arith) in (k, ground arith)
]

-- A row stands at ten times its place in the list.
abbrev pub IsPlaced : List JsText → Category → Type 0
IsPlaced slugs c = (k : ℕ) × (position 1 c.slug slugs ≡ some k) × (c.sort_order ≡ k * 10)

placed-IsPlaced :
    (slugs : List JsText) (c : Category)
    → listed_in slugs c.slug ≡ true
    → IsPlaced slugs (placed slugs c)
unfolding placed
placed-IsPlaced slugs c h =
    let (k, e) = position_of_listed 1 c.slug slugs h in (k, ground arith, ground arith)

all_placed :
    (slugs : List JsText) (cs : List Category)
    → Within (map (λ c. c.slug) cs) slugs
    → All (IsPlaced slugs) (map (placed slugs) cs)
unfolding any
all_placed slugs [] h = tt
all_placed slugs (c ∷ cs) h = (
  placed-IsPlaced slugs c (h c.slug (ground (arith, text_eq_iff c.slug c.slug))),
  all_placed slugs cs (λ s l. h s (ground arith)),
)

module _ (slug_before : JsText → JsText → Bool) (p : Principal) (body : Option Json) (db : Db) where
  -- The table after an accepted order.
  abbrev pub reordered : List JsText → Db
  reordered slugs =
      add_event (event p (utf16 "category.reorder") none ((utf16 "slugs", texts slugs) ∷ []))
        (record db { categories = map (placed slugs) db.categories })

  conflict_status : (describe_error list_changed).status ≡ 409
  unfolding describe_error list_changed
  conflict_status = refl

  -- A moderator's order is accepted exactly when it is an array of strings that names every category
  -- of the table once and nothing else; each row then stands at ten times its place in the array.
  -- Another array of distinct strings is answered 409, anything else 400, and the tables stay.
  pub post_reorder-cases :
      p.role ≡ moderator
      → ((slugs : List JsText) × IsOrder (member (utf16 "slugs") body) slugs
          × Matches db slugs
          × All (IsPlaced slugs) (reordered slugs).categories
          × (post_reorder slug_before p body db
              ≡ (sent 200 (ordered slug_before (reordered slugs).categories), reordered slugs)))
        ⊎ ((d : Described) × (post_reorder slug_before p body db ≡ (failed d, db))
            × (((d.status ≡ 409)
                  × ((slugs : List JsText) × IsOrder (member (utf16 "slugs") body) slugs
                      × (¬ Matches db slugs)))
                ⊎ ((d.status ≡ 400)
                    × ((slugs : List JsText) → ¬ IsOrder (member (utf16 "slugs") body) slugs))))
  unfolding post_reorder reorder_work in_transaction require_role record_event
  post_reorder-cases m = elim (Option-cases (reorder_slugs (member (utf16 "slugs") body))) [
    | inl e ↦ inr (
      record { status = 400; message = utf16 "slugs має бути масивом унікальних рядків" },
      ground arith,
      inr (
        refl,
        λ slugs o. ground (arith, (reorder_slugs_iff (member (utf16 "slugs") body) slugs).1 o),
      ),
    )
    | inr (slugs, e) ↦
        let o = (reorder_slugs_iff (member (utf16 "slugs") body) slugs).0 e in
        let d = o.unrepeated in
        elim (Bool-cases (
          not (length (distinct (slugs_of db)) == length slugs)
          || any (λ s. not (listed_in (distinct (slugs_of db)) s)) slugs)) [
            | inl changed ↦ inr (
              describe_error list_changed,
              ground arith,
              inl (conflict_status, (slugs, o, λ ms. ground (arith, Matches-same db slugs d ms))),
            )
            | inr same ↦
                let ms = matches db slugs d (ground arith) (ground arith) in
                inl (slugs, o, ms, all_placed slugs db.categories ms.1, ground arith)
          ]
  ]
