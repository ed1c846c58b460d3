-- ===== src/Credentials.antt =====
-- backend/auth.js: the check of a bearer token. SHA-256 in hexadecimal, the UTF-8 bytes of a string and
-- the bootstrap token are parameters; an error of the database driver, which answers 500, is not modelled.
pub mod Checked
use virtual_lab.Prelude.{
  ℕ, Bool, true, false, not, ◌&&◌, Option, some, none, List, [], ◌∷◌, if◌then◌else◌, ltb, ◌==◌,
  find, length, ◌*◌,
}
use virtual_lab.JsText.{JsText, utf16, text_eq, is_empty, starts_with}
use virtual_lab.HttpError.{Described}
use virtual_lab.Db.Rows.{Db, Key, Role, moderator}
use virtual_lab.Auth.{Principal}
use virtual_lab.RateLimits.{Windows, consume, retry_after_seconds}

abbrev pub max_token_length : ℕ
max_token_length = 512

abbrev pub failed_auth_window_ms : ℕ
failed_auth_window_ms = 15 * 60 * 1000

abbrev pub bootstrap_principal : Principal
bootstrap_principal = record { role = moderator; key_id = none; label = utf16 "bootstrap" }

abbrev pub find_key : JsText → List Key → Option Key
find_key hash = find (λ k. text_eq k.token_hash hash)

-- UPDATE publish_keys SET last_used_at = NOW() WHERE id = $1
unfoldable pub touch : ℕ → ℕ → List Key → List Key
touch id now [] = []
touch id now (k ∷ ks) =
    let rest = touch id now ks in
    if k.id == id then record k { last_used_at = some now } ∷ rest else k ∷ rest

abbrev pub is_revoked : Key → Bool
is_revoked k = elim k.revoked_at [ none ↦ false | some _ ↦ true ]

-- `header.slice(7)`
abbrev pub drop_7 : JsText → JsText
drop_7 (_ ∷ _ ∷ _ ∷ _ ∷ _ ∷ _ ∷ _ ∷ s) = s
drop_7 _ = []

-- The token of an `Authorization` header; an absent header is the empty one.
unfoldable pub bearer_token : JsText → JsText
unfolding starts_with
bearer_token header = if starts_with (utf16 "Bearer ") header then drop_7 header else []

-- What `authenticate` does: it sets `req.principal` and calls the next handler, or answers.
pub data Answer : Type 0 where
  passed : Principal → Answer
  anonymous : Answer
  refused : Described → Option ℕ → Answer

abbrev pub too_many_failures : Described
too_many_failures = record {
  status = 429;
  message = utf16 "Забагато невдалих спроб входу: спробуйте пізніше";
}

abbrev pub bad_token : Described
bad_token = record { status = 403; message = utf16 "Невірний токен" }

module _ (sha256_hex : JsText → JsText) (utf8 : JsText → List ℕ) (bootstrap_token : JsText) where
  -- `tokensMatch`: the same bytes, which is what `timingSafeEqual` compares.
  abbrev pub tokens_match : JsText → JsText → Bool
  tokens_match provided expected = text_eq (utf8 provided) (utf8 expected)

  unfoldable pub resolve_principal : JsText → Db → Option Principal × Db
  resolve_principal token db =
      if ltb max_token_length (length token)
      then (none, db)
      else if not (is_empty bootstrap_token) && tokens_match token bootstrap_token
      then (some bootstrap_principal, db)
      else elim (find_key (sha256_hex token) db.keys) [
        | none ↦ (none, db)
        | some key ↦ if is_revoked key then (none, db) else (
          some (record { role = key.role; key_id = some key.id; label = key.label }),
          record db { keys = touch key.id db.now db.keys },
        )
      ]

  -- The answer to a wrong credential; AUTH_FAILURES_PER_WINDOW is `limit`.
  unfoldable pub wrong : Answer → ℕ → JsText → ℕ → Windows JsText → Answer × Windows JsText
  wrong otherwise limit ip time ws =
      let (counted, ws') = consume text_eq limit failed_auth_window_ms ip time ws in
      if counted
      then (otherwise, ws')
      else (refused too_many_failures (some (retry_after_seconds text_eq ip time ws')), ws')

  abbrev pub wrong_token : Answer
  wrong_token = refused bad_token none

  unfoldable pub authenticate :
      ℕ → JsText → JsText → ℕ → Db → Windows JsText → Answer × Db × Windows JsText
  authenticate limit header ip time db ws =
      let token = bearer_token header in
      if is_empty token
      then (refused (record { status = 401; message = utf16 "Потрібна авторизація" }) none, db, ws)
      else let (resolved, db') = resolve_principal token db in
        elim resolved [
          | some principal ↦ (passed principal, db', ws)
          | none ↦ let (answer, ws') = wrong wrong_token limit ip time ws in (answer, db', ws')
        ]

  unfoldable pub optional_authenticate :
      ℕ → JsText → JsText → ℕ → Db → Windows JsText → Answer × Db × Windows JsText
  optional_authenticate limit header ip time db ws =
      let token = bearer_token header in
      if is_empty token
      then (anonymous, db, ws)
      else let (resolved, db') = resolve_principal token db in
        elim resolved [
          | some principal ↦ (passed principal, db', ws)
          | none ↦ let (answer, ws') = wrong anonymous limit ip time ws in (answer, db', ws')
        ]
