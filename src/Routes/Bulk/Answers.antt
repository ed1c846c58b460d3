-- ===== src/Routes/Bulk/Answers.antt =====
-- What POST /api/scenarios/bulk answers.
use virtual_lab.Prelude.{
  ◌≤◌, false, none, some, List, [], ◌∷◌, map, ◌≡◌, ◌⊎◌, inl, inr, refl, ap, arith, subst, sym, ◌∙◌,
  any, All, ltb, length, Bool-cases, Option-cases,
}
use virtual_lab.JsText.{JsText, utf16, text_eq, is_empty}
use virtual_lab.JsText.Laws.{text_eq_iff}
use virtual_lab.Db.Rows.{Db, Role, author, moderator}
use virtual_lab.Db.Tx.{ok}
use virtual_lab.Db.Find.{find_scenario}
use virtual_lab.Db.Laws.{Result-cases}
use virtual_lab.Auth.{Principal, require_role}
use virtual_lab.Routes.{sent}
use virtual_lab.Routes.Bulk.{
  Raw, string, other, RawIds, array, not_array, BulkAction, approve, unpublish, set_category,
  delete, Line, strings, action_of, request, run_all, distinct, post_bulk, max_bulk_ids,
}
use virtual_lab.Routes.Bulk.Run.{Achieved}
use virtual_lab.Routes.Bulk.Lines.{run_all-distinct}

-- The action that the body names.
pub data Names (action category : Raw) : BulkAction → Type 0 where
  approving : action ≡ string (utf16 "approve") → Names action category approve
  unpublishing : action ≡ string (utf16 "unpublish") → Names action category unpublish
  deleting : action ≡ string (utf16 "delete") → Names action category delete
  filing :
      (slug : JsText)
      → action ≡ string (utf16 "set-category")
      → category ≡ string slug
      → is_empty slug ≡ false
      → Names action category (set_category slug)

strings_taken :
    (rs : List Raw) (names : List JsText) → strings rs ≡ some names → rs ≡ map string names
unfolding strings
strings_taken [] names h = ground arith
strings_taken (other ∷ rs) names h = absurd (ground arith)
strings_taken (string s ∷ rs) names h = elim (Option-cases (strings rs)) [
  | inl e ↦ absurd (ground arith)
  | inr (rest, e) ↦ elim (Bool-cases (is_empty s)) [
    | inl empty ↦ absurd (ground arith)
    | inr full ↦
        ap (λ ts. string s ∷ ts) (strings_taken rs rest e)
        ∙ ap (map string) {x = s ∷ rest} {y = names} (ground arith)
  ]
]

moderates : (p : Principal) → require_role moderator (some p) ≡ none → p.role ≡ moderator
unfolding require_role
moderates p h = go p.role refl
  where
    go : (r : Role) → p.role ≡ r → p.role ≡ moderator
    go author e = absurd (ground arith)
    go moderator e = e

Raw-cases : (r : Raw) → ((s : JsText) × (r ≡ string s)) ⊎ (r ≡ other)
Raw-cases (string s) = inl (s, refl)
Raw-cases other = inr refl

named :
    (action category : Raw) (a : BulkAction)
    → action_of action category ≡ ok a
    → Names action category a
unfolding action_of
named other category a h = absurd (ground arith)
named (string s) category a h = elim (Bool-cases (text_eq s (utf16 "approve"))) [
  | inl e ↦
      subst (Names (string s) category) {x = approve} (ground arith)
        (approving (ap string ((text_eq_iff s (utf16 "approve")).0 e)))
  | inr n1 ↦ elim (Bool-cases (text_eq s (utf16 "unpublish"))) [
    | inl e ↦
        subst (Names (string s) category) {x = unpublish} (ground arith)
          (unpublishing (ap string ((text_eq_iff s (utf16 "unpublish")).0 e)))
    | inr n2 ↦ elim (Bool-cases (text_eq s (utf16 "delete"))) [
      | inl e ↦
          subst (Names (string s) category) {x = BulkAction.delete} (ground arith)
            (deleting (ap string ((text_eq_iff s (utf16 "delete")).0 e)))
      | inr n3 ↦ elim (Bool-cases (text_eq s (utf16 "set-category"))) [
        | inr n4 ↦ absurd (ground arith)
        | inl e ↦ elim (Raw-cases category) [
          | inr bad ↦ absurd (ground arith)
          | inl (slug, c) ↦ elim (Bool-cases (is_empty slug)) [
            | inl empty ↦ absurd (ground arith)
            | inr full ↦
                subst (Names (string s) category) {x = set_category slug} (ground arith)
                  (filing slug (ap string ((text_eq_iff s (utf16 "set-category")).0 e)) c full)
          ]
        ]
      ]
    ]
  ]
]

-- What an answer says of the body and of the tables before and after.
pub record Answers (p : Principal) (ids : RawIds) (action category : Raw) (db : Db)
    (lines : List Line) (db' : Db) (names : List JsText) (a : BulkAction) : Type 0 where
  pub by_moderator : p.role ≡ moderator
  pub body_ids : ids ≡ array (map string names)
  pub few : length names ≤ 100
  pub body_action : Names action category a
  pub in_order : map (λ l. l.id) lines ≡ distinct names
  pub true_lines : All (λ l. l.error ≡ none → Achieved a (find_scenario l.id db'.scenarios)) lines
  pub others :
      (j : JsText)
      → any (λ x. text_eq x j) names ≡ false
      → find_scenario j db'.scenarios ≡ find_scenario j db.scenarios

requested :
    (ids : RawIds) (action category : Raw) (names : List JsText) (a : BulkAction)
    → request ids action category ≡ ok (names, a)
    → (ids ≡ array (map string names)) × (length names ≤ 100) × Names action category a
unfolding request
requested not_array action category names a h = absurd (ground arith)
requested (array []) action category names a h = absurd (ground arith)
requested (array (r ∷ rs)) action category names a h = elim (Option-cases (strings (r ∷ rs))) [
  | inl e ↦ absurd (ground arith)
  | inr (ss, e) ↦ elim (Bool-cases (ltb max_bulk_ids (length ss))) [
    | inl many ↦ absurd (ground arith)
    | inr few ↦ elim (Result-cases (action_of action category)) [
      | inr (f, bad) ↦ absurd (ground arith)
      | inl (b, good) ↦ (
        ap array (strings_taken (r ∷ rs) names (ground arith)),
        ground arith,
        named action category a (ground arith),
      )
    ]
  ]
]

-- A bulk request that is answered 200 is a moderator's, with at most 100 ids and a known action; the
-- answer has one line for each id, in the order in which the ids first stand. A line without an error is
-- true of the tables that the whole request leaves, so no later id undoes what an earlier one did, and
-- no scenario changes that is not named.
pub post_bulk-lines :
    (p : Principal) (ids : RawIds) (action category : Raw) (db db' : Db) (lines : List Line)
    → post_bulk p ids action category db ≡ (sent 200 lines, db')
    → (names : List JsText) × (a : BulkAction) × Answers p ids action category db lines db' names a
unfolding post_bulk
post_bulk-lines p ids action category db db' lines h =
    elim (Option-cases (require_role moderator (some p))) [
      | inr (e, stopped) ↦ absurd (ground arith)
      | inl passed ↦ elim (Result-cases (request ids action category)) [
        | inr (e, bad) ↦ absurd (ground arith)
        | inl ((names, a), good) ↦
            let (order, lines_hold, rest) = run_all-distinct a p names db in
            let (body_ids, few, body_action) = requested ids action category names a good in
            let made : run_all a p (distinct names) db ≡ (lines, db') = ground arith in
            (
              names,
              a,
              record {
                by_moderator = moderates p passed;
                body_ids = body_ids;
                few = few;
                body_action = body_action;
                in_order = ap (λ r. map (λ l. l.id) r.0) (sym made) ∙ order;
                true_lines =
                    subst
                      (λ r.
                        All (λ l. l.error ≡ none → Achieved a (find_scenario l.id r.1.scenarios))
                          r.0)
                      made lines_hold;
                others = λ j unnamed.
                    ap (λ r. find_scenario j r.1.scenarios) (sym made) ∙ rest j unnamed;
              },
            )
      ]
    ]
