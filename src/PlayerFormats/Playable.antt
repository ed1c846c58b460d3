-- ===== src/PlayerFormats/Playable.antt =====
-- The documents and the manifest versions that the student player reads.
use virtual_lab.Prelude.{
  true, Option, none, some, List, [], ◌∷◌, ◌++◌, ◌≡◌, ◌↔◌, ◌⊎◌, inl, inr, refl, ap, arith, ◌∙◌,
  Option-cases, Bool-cases, all, ◌==◌, ◌&&◌,
}
use virtual_lab.JsText.{JsText, utf16, text_eq, is_decimal, number_of}
use virtual_lab.JsText.Laws.{text_eq_iff}
use virtual_lab.Json.{Json, null, flag, number, text, array, object, Fields, member, is_integer}
use virtual_lab.PlayerFormats.{
  Format, readable, not_integer, other_version, format_of, version_problem, document_problem,
  split_dots, major_of, version_text, manifest_version_problem,
}

-- The only value that the player reads as a version is the number 1.
pub format_of-readable : (j : Json) → format_of j ≡ readable → j ≡ number (utf16 "1")
unfolding format_of
format_of-readable (number s) h = ap number ((text_eq_iff s (utf16 "1")).0 (ground arith))
format_of-readable null h = absurd (ground arith)
format_of-readable (flag _) h = absurd (ground arith)
format_of-readable (text _) h = absurd (ground arith)
format_of-readable (array _) h = absurd (ground arith)
format_of-readable (object _) h = absurd (ground arith)

pub one_readable : format_of (number (utf16 "1")) ≡ readable
unfolding format_of is_integer utf16 text_eq
one_readable = refl

-- A document that the player reads: a JSON object whose `version` is absent or the number 1.
pub data IsPlayable : Option Json → Type 0 where
  unversioned :
      (fields : Fields)
      → member (utf16 "version") (some (object fields)) ≡ none
      → IsPlayable (some (object fields))
  version_1 :
      (fields : Fields)
      → member (utf16 "version") (some (object fields)) ≡ some (number (utf16 "1"))
      → IsPlayable (some (object fields))

Format-cases :
    (f : Format)
    → (f ≡ readable)
      ⊎ (((s : JsText) × (f ≡ not_integer s)) ⊎ ((s : JsText) × (f ≡ other_version s)))
Format-cases readable = inl refl
Format-cases (not_integer s) = inr (inl (s, refl))
Format-cases (other_version s) = inr (inr (s, refl))

document_plays :
    (name : JsText) (document : Option Json)
    → document_problem name document ≡ none
    → IsPlayable document
unfolding document_problem version_problem
document_plays name (some (object fields)) h =
    elim (Option-cases (member (utf16 "version") (some (object fields)))) [
      | inl absent ↦ unversioned fields absent
      | inr (j, given) ↦ elim (Format-cases (format_of j)) [
        | inl good ↦ version_1 fields (given ∙ ap some (format_of-readable j good))
        | inr (inl (s, bad)) ↦ absurd (ground arith)
        | inr (inr (s, bad)) ↦ absurd (ground arith)
      ]
    ]
document_plays name none h = absurd (ground arith)
document_plays name (some null) h = absurd (ground arith)
document_plays name (some (flag _)) h = absurd (ground arith)
document_plays name (some (number _)) h = absurd (ground arith)
document_plays name (some (text _)) h = absurd (ground arith)
document_plays name (some (array _)) h = absurd (ground arith)

plays_document :
    (name : JsText) (document : Option Json)
    → IsPlayable document
    → document_problem name document ≡ none
unfolding document_problem version_problem
plays_document name _ (unversioned fields h) = ground arith
plays_document name _ (version_1 fields h) = ground (arith, one_readable)

pub document_problem_iff :
    (name : JsText) (document : Option Json)
    → (document_problem name document ≡ none) ↔ IsPlayable document
document_problem_iff name document = (document_plays name document, plays_document name document)

-- A dot in front of each part.
unfoldable pub dotted : List JsText → JsText
dotted [] = []
dotted (part ∷ parts) = b'.' ∷ part ++ dotted parts

-- A manifest version of the player: 1, as a string or a number, and minor numbers after dots.
pub record HasMajor1 (j : Option Json) : Type 0 where
  pub whole : JsText
  pub given : (j ≡ some (text whole)) ⊎ (j ≡ some (number whole))
  pub major : JsText
  pub minors : List JsText
  pub parts : whole ≡ major ++ dotted minors
  pub decimal : is_decimal major ≡ true
  pub is_1 : number_of major ≡ 1
  pub decimals : all is_decimal minors ≡ true

split_dots-dotted : (s : JsText) → s ≡ (split_dots s).0 ++ dotted (split_dots s).1
unfolding split_dots dotted
split_dots-dotted [] = refl
split_dots-dotted (c ∷ s) = elim (Bool-cases (c == b'.')) [
  | inl dot ↦ ground (arith, split_dots-dotted s)
  | inr other ↦ ground (arith, split_dots-dotted s)
]

text_given :
    (j : Option Json) (s : JsText)
    → version_text j ≡ some s
    → (j ≡ some (text s)) ⊎ (j ≡ some (number s))
text_given (some (text t)) s h = inl (ground arith)
text_given (some (number t)) s h = inr (ground arith)
text_given none s h = absurd (ground arith)
text_given (some null) s h = absurd (ground arith)
text_given (some (flag _)) s h = absurd (ground arith)
text_given (some (array _)) s h = absurd (ground arith)
text_given (some (object _)) s h = absurd (ground arith)

pub manifest_version-HasMajor1 : (j : Option Json) → manifest_version_problem j ≡ none → HasMajor1 j
unfolding manifest_version_problem major_of
manifest_version-HasMajor1 j h = elim (Option-cases (version_text j)) [
  | inl e ↦ absurd (ground arith)
  | inr (s, e) ↦
      elim (Bool-cases (is_decimal (split_dots s).0 && all is_decimal (split_dots s).1)) [
        | inr bad ↦ absurd (ground arith)
        | inl good ↦ record {
          whole = s;
          given = text_given j s e;
          major = (split_dots s).0;
          minors = (split_dots s).1;
          parts = split_dots-dotted s;
          decimal = ground arith;
          is_1 = ground arith;
          decimals = ground arith;
        }
      ]
]
