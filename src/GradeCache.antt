-- ===== src/GradeCache.antt =====
-- backend/lti/grade-cache.js: the two bounded caches of the LTI router. Numbers of milliseconds are
-- natural; a lifetime that is not finite is left out.
pub mod Bounded
pub mod Tickets
use virtual_lab.Prelude.{
  ℕ, suc, ◌+◌, ◌-◌, ◌*◌, Bool, true, false, not, Option, some, none, List, [], ◌∷◌, ◌++◌,
  if◌then◌else◌, leb, ltb, ◌==◌, keep, length,
}
use virtual_lab.JsText.{JsText, text_eq}

abbrev pub result_ttl_ms : ℕ
result_ttl_ms = 30000

abbrev pub token_expiry_margin_ms : ℕ
token_expiry_margin_ms = 60000

pub record Entry (V : Type 0) : Type 0 where
  pub value : V
  pub expires_at : ℕ

-- `entries`, oldest first.
abbrev pub Entries : Type 0 → Type 0
Entries V = List (JsText × Entry V)

module _ {V : Type 0} where
  unfoldable pub lookup : JsText → Entries V → Option (Entry V)
  lookup key [] = none
  lookup key (e ∷ es) = if text_eq e.0 key then some e.1 else lookup key es

  -- `entries.delete(key)`
  unfoldable pub remove : JsText → Entries V → Entries V
  unfolding keep
  remove key = keep (λ e. not (text_eq e.0 key))

  -- `get(key)`: a live entry, and the map without an expired one.
  unfoldable pub get : JsText → ℕ → Entries V → Option (Entry V) × Entries V
  get key now es = elim (lookup key es) [
    | none ↦ (none, es)
    | some e ↦ if leb e.expires_at now then (none, remove key es) else (some e, es)
  ]

  -- `entries.delete(entries.keys().next().value)`
  abbrev pub drop_oldest : Entries V → Entries V
  drop_oldest [] = []
  drop_oldest (e ∷ es) = remove e.0 (e ∷ es)

  abbrev pub unexpired : ℕ → Entries V → Entries V
  unexpired now = keep (λ e. not (leb e.1.expires_at now))

  -- `if (entries.size >= max) …`
  unfoldable pub evict : ℕ → ℕ → Entries V → Entries V
  unfolding keep
  evict max now es =
      if leb max (length es)
      then (let live = unexpired now es in if leb max (length live) then drop_oldest live else live)
      else es

  -- `set(key, value, ttlMs)`
  unfoldable pub set : ℕ → JsText → V → ℕ → ℕ → Entries V → Entries V
  set max key value ttl_ms now es =
      evict max now (remove key es)
      ++ ((key, record { value = value; expires_at = now + ttl_ms }) ∷ [])

-- The state of `createGradeCache`; a remembered result is the time of the submission, or none.
pub record GradeCache : Type 0 where
  pub token_map : Entries JsText
  pub result_map : Entries (Option ℕ)
  pub generation : ℕ

-- `tokens.set`
unfoldable pub set_token : ℕ → JsText → JsText → ℕ → ℕ → GradeCache → GradeCache
set_token max key token expires_in_seconds now c =
    if ltb token_expiry_margin_ms (expires_in_seconds * 1000)
    then record c {
      token_map =
          set max key token (expires_in_seconds * 1000 - token_expiry_margin_ms) now c.token_map;
    }
    else c

-- `results.begin`
abbrev pub begin_result : GradeCache → ℕ
begin_result c = c.generation

-- `results.set`
unfoldable pub set_result : ℕ → JsText → Option ℕ → ℕ → ℕ → GradeCache → GradeCache
set_result max key value ticket now c =
    if ticket == c.generation
    then record c { result_map = set max key value result_ttl_ms now c.result_map }
    else c

-- `results.delete`
unfoldable pub delete_result : JsText → GradeCache → GradeCache
delete_result key c = record c {
  generation = suc c.generation;
  result_map = remove key c.result_map;
}
