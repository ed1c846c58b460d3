-- ===== src/Storage/Collected.antt =====
-- What garbage collection deletes.
use virtual_lab.Prelude.{
  ℕ, ◌+◌, ◌≤◌, ◌<◌, Bool, true, false, not, ◌&&◌, ◌||◌, some, none, List, [], ◌∷◌, ◌++◌, ◌≡◌, inl,
  inr, refl, arith, if◌then◌else◌, ltb, keep, any, find, subst, Bool-cases, Option-cases,
}
use virtual_lab.Prelude.Search.{any_iff_find}
use virtual_lab.JsText.{JsText, text_eq}
use virtual_lab.JsText.Laws.{text_eq_iff, text_eq_refl}
use virtual_lab.Db.Rows.{Db, Scenario}
use virtual_lab.Db.Find.{find_scenario}
use virtual_lab.Storage.Collect.{
  Object, is_named, has, classify_objects, is_too_new, delete_objects, scenario_hashes,
  version_hashes, referenced_archives, collect, touch_object, put,
}

-- Each name stands once, as in a directory.
abbrev pub IsDirectory : List Object → Type 0
IsDirectory [] = Unit {0}
IsDirectory (o ∷ os) = (find (is_named o.name) os ≡ none) × IsDirectory os

abbrev is_orphan : List JsText → ℕ → ℕ → Object → Bool
is_orphan referenced now min_age_ms o =
    not (has referenced o.sha256) && not (is_too_new now min_age_ms o)

orphans-keep :
    (referenced : List JsText) (now min_age_ms : ℕ) (os : List Object)
    → (classify_objects referenced now min_age_ms os).orphans
      ≡ keep (is_orphan referenced now min_age_ms) os
unfolding classify_objects keep
orphans-keep referenced now min_age_ms [] = refl
orphans-keep referenced now min_age_ms (o ∷ os) =
    ground (arith, orphans-keep referenced now min_age_ms os)

find-keep_named :
    (name d : JsText) (os : List Object)
    → find (is_named name) (keep (λ o. not (is_named d o)) os)
      ≡ (if text_eq d name then none else find (is_named name) os)
unfolding find keep
find-keep_named name d [] = ground arith
find-keep_named name d (o ∷ os) = ground (
  arith,
  find-keep_named name d os,
  text_eq_iff o.name d,
  text_eq_iff o.name name,
  text_eq_iff d name,
)

find-delete_objects :
    (name : JsText) (ds os : List Object)
    → find (is_named name) (delete_objects ds os).1
      ≡ (if any (λ d. text_eq d.name name) ds then none else find (is_named name) os)
unfolding delete_objects any
find-delete_objects name [] os = refl
find-delete_objects name (d ∷ ds) os = elim (Bool-cases (any (is_named d.name) os)) [
  | inl there ↦ ground (
    arith,
    find-delete_objects name ds (keep (λ o. not (is_named d.name o)) os),
    find-keep_named name d.name os,
  )
  | inr absent ↦ ground (
    arith,
    find-delete_objects name ds (keep (λ o. not (is_named d.name o)) os),
    find-keep_named name d.name os,
  )
]

any-kept :
    (q : Object → Bool) (name : JsText) (os : List Object)
    → find (is_named name) os ≡ none
    → any (λ d. text_eq d.name name) (keep q os) ≡ false
unfolding any keep find
any-kept q name [] h = refl
any-kept q name (o ∷ os) h = ground (arith, any-kept q name os)

any-kept_found :
    (q : Object → Bool) (name : JsText) (os : List Object) (o : Object)
    → IsDirectory os
    → find (is_named name) os ≡ some o
    → any (λ d. text_eq d.name name) (keep q os) ≡ q o
unfolding any keep find
any-kept_found q name [] o dir h = cc
any-kept_found q name (x ∷ os) o dir h = elim (Bool-cases (text_eq x.name name)) [
  | inl hit ↦ ground (arith, any-kept q x.name os dir.0, text_eq_iff x.name name)
  | inr miss ↦ ground (arith, any-kept_found q name os o dir.1)
]

pub find-collect :
    (min_age_ms : ℕ) (db : Db) (os : List Object) (name : JsText) (o : Object)
    → IsDirectory os
    → find (is_named name) os ≡ some o
    → find (is_named name) (collect min_age_ms db os).1 ≡ (
        if has (referenced_archives db) o.sha256 || ltb db.now (o.mtime_ms + min_age_ms)
        then some o
        else none)
unfolding collect
find-collect min_age_ms db os name o dir found =
    let orphan = is_orphan (referenced_archives db) db.now min_age_ms in
    ground (
      arith,
      find-delete_objects name
          (classify_objects (referenced_archives db) db.now min_age_ms os).orphans os,
      orphans-keep (referenced_archives db) db.now min_age_ms os,
      any-kept_found orphan name os o dir found,
    )

has-append : (xs ys : List JsText) (h : JsText) → has xs h ≡ true → has (xs ++ ys) h ≡ true
has-append [] ys h e = cc
has-append (x ∷ xs) ys h e = ground (arith, has-append xs ys h)

has-scenario_hashes :
    (id h : JsText) (ss : List Scenario) (s : Scenario)
    → find_scenario id ss ≡ some s
    → s.archive.sha256 ≡ some h
    → has (scenario_hashes ss) h ≡ true
unfolding find_scenario find
has-scenario_hashes id h [] s f e = cc
has-scenario_hashes id h (x ∷ ss) s f e = elim (Option-cases x.archive.sha256) [
  | inl bare ↦ ground (arith, has-scenario_hashes id h ss s)
  | inr (k, y) ↦ ground (arith, has-scenario_hashes id h ss s, text_eq_refl h)
]

-- The archive whose hash a catalog row has is never collected, however old it is.
pub shown_not_collected :
    (min_age_ms : ℕ) (db : Db) (os : List Object) (id name : JsText) (s : Scenario) (o : Object)
    → IsDirectory os
    → find (is_named name) os ≡ some o
    → find_scenario id db.scenarios ≡ some s
    → s.archive.sha256 ≡ some o.sha256
    → find (is_named name) (collect min_age_ms db os).1 ≡ some o
unfolding referenced_archives
shown_not_collected min_age_ms db os id name s o dir found row shows = ground (
  arith,
  find-collect min_age_ms db os name o dir found,
  has-append (scenario_hashes db.scenarios) (version_hashes db.versions) o.sha256
      (has-scenario_hashes id o.sha256 db.scenarios s row shows),
)

find-touch_object :
    (name : JsText) (now : ℕ) (os : List Object) (j : JsText)
    → find (is_named j) os ≡ none
    → find (is_named j) (touch_object name now os) ≡ none
unfolding find touch_object
find-touch_object name now [] j h = refl
find-touch_object name now (o ∷ os) j h = ground (arith, find-touch_object name now os j)

touch_object-IsDirectory :
    (name : JsText) (now : ℕ) (os : List Object)
    → IsDirectory os
    → IsDirectory (touch_object name now os)
unfolding touch_object
touch_object-IsDirectory name now [] dir = tt
touch_object-IsDirectory name now (o ∷ os) dir = elim (Bool-cases (is_named name o)) [
  | inl hit ↦
      let both : IsDirectory (record o { mtime_ms = now } ∷ touch_object name now os) =
        (find-touch_object name now os o.name dir.0, touch_object-IsDirectory name now os dir.1) in
      subst IsDirectory {x = record o { mtime_ms = now } ∷ touch_object name now os} (ground arith)
        both
  | inr miss ↦
      let both : IsDirectory (o ∷ touch_object name now os) =
        (find-touch_object name now os o.name dir.0, touch_object-IsDirectory name now os dir.1) in
      subst IsDirectory {x = o ∷ touch_object name now os} (ground arith) both
]

touched :
    (name : JsText) (now : ℕ) (os : List Object)
    → any (is_named name) os ≡ true
    → (o : Object) × (find (is_named name) (touch_object name now os) ≡ some o) × (o.mtime_ms ≡ now)
unfolding find any touch_object
touched name now [] h = cc
touched name now (o ∷ os) h = elim (Bool-cases (is_named name o)) [
  | inl hit ↦ (record o { mtime_ms = now }, ground arith, refl)
  | inr miss ↦ let (x, f, e) = touched name now os (ground arith) in (x, ground arith, e)
]

put-IsDirectory :
    (o : Object) (now : ℕ) (os : List Object) → IsDirectory os → IsDirectory (put o now os).1
unfolding put
put-IsDirectory o now os dir = elim (Bool-cases (any (is_named o.name) os)) [
  | inl there ↦
      subst IsDirectory {x = touch_object o.name now os} (ground arith)
        (touch_object-IsDirectory o.name now os dir)
  | inr absent ↦
      let both : IsDirectory (o ∷ os) = (any_iff_find (is_named o.name) os absent, dir) in
      subst IsDirectory {x = o ∷ os} (ground arith) both
]

-- What was just stored, whether its bytes were new or an object that nothing referred to was
-- reused, is not collected while the written file is younger than `min_age_ms`.
pub put_not_collected :
    (min_age_ms : ℕ) (db : Db) (written : Object) (now : ℕ) (os : List Object)
    → IsDirectory os
    → written.mtime_ms ≤ now
    → db.now < written.mtime_ms + min_age_ms
    → (o : Object) × (find (is_named written.name) (collect min_age_ms db (put written now os).1).1
        ≡ some o)
unfolding put find
put_not_collected min_age_ms db written now os dir order young =
    let stored = (put written now os).1 in
    elim (Bool-cases (any (is_named written.name) os)) [
      | inl there ↦
          let (o, f, e) = touched written.name now os there in
          (
            o,
            ground (
              arith,
              find-collect min_age_ms db stored written.name o (put-IsDirectory written now os dir)
                  (ground arith),
            ),
          )
      | inr absent ↦ (
        written,
        ground (
          arith,
          text_eq_refl written.name,
          find-collect min_age_ms db stored written.name written
              (put-IsDirectory written now os dir) (ground (arith, text_eq_refl written.name)),
        ),
      )
    ]
