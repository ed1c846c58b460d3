-- ===== src/Storage/Collect.antt =====
-- backend/storage.js, backend/routes/storage-admin.js: the objects of the archive store and their
-- garbage collection. A directory is a list of its objects; names that are not of the store's pattern,
-- which the listing skips, and errors of the file system are left out.
use virtual_lab.Prelude.{
  ℕ, ◌+◌, Bool, true, false, not, ◌||◌, some, none, List, [], ◌∷◌, ◌++◌, if◌then◌else◌, ltb, keep,
  any,
}
use virtual_lab.JsText.{JsText, text_eq}
use virtual_lab.Db.Rows.{Db, Scenario, Version}

-- `{ name, sha256, bytes, mtimeMs }`
pub record Object : Type 0 where
  pub name : JsText
  pub sha256 : JsText
  pub bytes : ℕ
  pub mtime_ms : ℕ

abbrev pub is_named : JsText → Object → Bool
is_named name o = text_eq o.name name

unfoldable pub touch_object : JsText → ℕ → List Object → List Object
touch_object name now [] = []
touch_object name now (o ∷ os) =
    let rest = touch_object name now os in
    if is_named name o then record o { mtime_ms = now } ∷ rest else o ∷ rest

-- `put(tmpFile, name)` of a written temp file: whether it was deduplicated, and the objects after it.
unfoldable pub put : Object → ℕ → List Object → Bool × List Object
unfolding any
put o now os =
    if any (is_named o.name) os then (true, touch_object o.name now os) else (false, o ∷ os)

abbrev pub has : List JsText → JsText → Bool
has [] sha = false
has (x ∷ xs) sha = text_eq x sha || has xs sha

pub record Classes : Type 0 where
  pub referenced : List Object
  pub orphans : List Object
  pub too_new : List Object

-- `object.mtimeMs > cutoff`, with the subtraction on the other side, since a cutoff may be negative
abbrev pub is_too_new : ℕ → ℕ → Object → Bool
is_too_new now min_age_ms o = ltb now (o.mtime_ms + min_age_ms)

-- The loop of `classifyObjects`.
unfoldable pub classify_objects : List JsText → ℕ → ℕ → List Object → Classes
classify_objects referenced now min_age_ms [] = record {
  referenced = [];
  orphans = [];
  too_new = [];
}
classify_objects referenced now min_age_ms (o ∷ os) =
    let rest = classify_objects referenced now min_age_ms os in
    if has referenced o.sha256
    then record rest { referenced = o ∷ rest.referenced }
    else if is_too_new now min_age_ms o
    then record rest { too_new = o ∷ rest.too_new }
    else record rest { orphans = o ∷ rest.orphans }

-- `deleteObjects`: what went, and what is left.
unfoldable pub delete_objects : List Object → List Object → List Object × List Object
unfolding any keep
delete_objects [] os = ([], os)
delete_objects (d ∷ ds) os =
    let left = keep (λ o. not (is_named d.name o)) os in
    let (gone, last) = delete_objects ds left in
    if any (is_named d.name) os then (d ∷ gone, last) else (gone, last)

abbrev pub scenario_hashes : List Scenario → List JsText
scenario_hashes [] = []
scenario_hashes (s ∷ ss) = elim s.archive.sha256 [
  | none ↦ scenario_hashes ss
  | some h ↦ h ∷ scenario_hashes ss
]

abbrev pub version_hashes : List Version → List JsText
version_hashes [] = []
version_hashes (v ∷ vs) = v.sha256 ∷ version_hashes vs

-- `referencedArchives`
unfoldable pub referenced_archives : Db → List JsText
referenced_archives db = scenario_hashes db.scenarios ++ version_hashes db.versions

-- The archives' part of POST /api/admin/storage/gc when it is no dry run.
unfoldable pub collect : ℕ → Db → List Object → List Object × List Object
collect min_age_ms db os =
    delete_objects (classify_objects (referenced_archives db) db.now min_age_ms os).orphans os
