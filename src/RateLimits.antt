-- ===== src/RateLimits.antt =====
-- backend/rate-limits.js: the fixed-window counter, and the limit on an author's uploads.
pub mod Calls
pub mod Granted
use virtual_lab.Prelude.{
  ℕ, suc, ◌+◌, ◌-◌, ◌*◌, ◌/◌, Bool, true, false, not, ◌||◌, Option, some, none, List, [], ◌∷◌,
  if◌then◌else◌, leb, ltb, keep, length,
}
use virtual_lab.JsText.{JsText, utf16}
use virtual_lab.HttpError.{Described}
use virtual_lab.Db.Rows.{Role, author, moderator}
use virtual_lab.Auth.{Principal}

abbrev pub sweep_threshold : ℕ
sweep_threshold = 10000

pub record Window : Type 0 where
  pub count : ℕ
  pub reset_at : ℕ

-- `Map`, of keys that `same` compares.
abbrev pub Windows : Type 0 → Type 0
Windows K = List (K × Window)

-- `!window || window.resetAt <= time`
abbrev pub is_over : Option Window → ℕ → Bool
is_over none time = true
is_over (some w) time = leb w.reset_at time

abbrev pub opened : ℕ → ℕ → Option Window → Window
opened time window_ms none = record { count = 0; reset_at = time + window_ms }
opened time window_ms (some w) =
    if leb w.reset_at time then record { count = 0; reset_at = time + window_ms } else w

module _ {K : Type 0} (same : K → K → Bool) where
  -- `windows.get(key)`
  unfoldable pub get : K → Windows K → Option Window
  get key [] = none
  get key (w ∷ ws) = if same w.0 key then some w.1 else get key ws

  -- `windows.set(key, window)`: in the key's place, or at the end.
  unfoldable pub set : K → Window → Windows K → Windows K
  set key window [] = (key, window) ∷ []
  set key window (w ∷ ws) =
      let rest = set key window ws in if same w.0 key then (w.0, window) ∷ ws else w ∷ rest

  -- Past the threshold, the windows that are over go.
  unfoldable pub sweep : ℕ → Windows K → Windows K
  unfolding keep
  sweep time ws =
      if ltb sweep_threshold (length ws) then keep (λ w. not (leb w.1.reset_at time)) ws else ws

  -- `consume(key)` at `time`: whether it took a slot, and the windows after it.
  unfoldable pub consume : ℕ → ℕ → K → ℕ → Windows K → Bool × Windows K
  consume limit window_ms key time ws =
      let swept = sweep time ws in
      let window = opened time window_ms (get key swept) in
      let ws' = if is_over (get key swept) time then set key window swept else swept in
      if leb limit window.count
      then (false, ws')
      else (true, set key (record window { count = suc window.count }) ws')

  -- `retryAfterSeconds(key)`; a difference below zero rounds to at most zero, so the maximum is 1.
  unfoldable pub retry_after_seconds : K → ℕ → Windows K → ℕ
  retry_after_seconds key now ws = elim (get key ws) [
    | none ↦ 1
    | some w ↦ let seconds = (w.reset_at - now + 999) / 1000 in if leb 1 seconds then seconds else 1
  ]

-- What a middleware does: it calls the next handler, or answers, with a Retry-After header.
pub data Gate : Type 0 where
  next : Gate
  refuse : Described → Option ℕ → Gate

abbrev pub upload_window_ms : ℕ
upload_window_ms = 60 * 60 * 1000

-- `limitAuthorUploads`, with AUTHOR_UPLOADS_PER_HOUR as `limit`.
unfoldable pub limit_author_uploads :
    ℕ → (ℕ → ℕ → Bool) → Principal → ℕ → Windows ℕ → Gate × Windows ℕ
limit_author_uploads limit same principal time ws = go principal.role principal.key_id
  where
    go : Role → Option ℕ → Gate × Windows ℕ
    go moderator key_id = (next, ws)
    go author none = (next, ws)
    go author (some key) =
        let (granted, ws') = consume same limit upload_window_ms key time ws in
        if granted then (next, ws') else (
          refuse
              (record { status = 429; message = utf16 "Забагато завантажень: спробуйте пізніше" })
              (some (retry_after_seconds same key time ws')),
          ws',
        )
