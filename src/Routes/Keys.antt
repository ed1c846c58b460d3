-- ===== src/Routes/Keys.antt =====
-- backend/routes/keys.js: personal publish keys. The random token of a new key and SHA-256 are
-- parameters.
pub mod Revoked
use virtual_lab.Prelude.{
  ℕ, suc, ◌+◌, Bool, not, ◌&&◌, ◌||◌, Option, none, some, List, [], ◌∷◌, ◌++◌, if◌then◌else◌, ltb,
  leb, ◌==◌, length, find, any, map,
}
use virtual_lab.JsText.{JsText, utf16, text_eq, is_empty, is_decimal, number_of}
use virtual_lab.HttpError.{unique_violation, describe_error}
use virtual_lab.Db.Rows.{Db, Key, Role, author, moderator, Detail, text, number, role_name}
use virtual_lab.Db.Tx.{
  Tx, Result, ok, throw, in_transaction, pure, gets, throw_if, modify, ◌>>=◌, ◌>>◌,
}
use virtual_lab.Auth.{Principal}
use virtual_lab.Audit.{record_event}
use virtual_lab.Json.{Json, member, string_of}
use virtual_lab.CatalogInput.{trimmed}
use virtual_lab.Routes.{Response, sent, failed, authorized, answer_with}

abbrev pub max_label_length : ℕ
max_label_length = 100

-- The largest INTEGER of Postgres.
abbrev pub max_key_id : ℕ
max_key_id = 2147483647

-- `{ role, label, keyId }` of GET /api/auth/me
abbrev pub get_me : Principal → Db → Response Principal × Db
get_me principal db = (sent 200 principal, db)

-- SELECT … FROM publish_keys ORDER BY id
unfoldable pub place_key : Key → List Key → List Key
place_key k [] = k ∷ []
place_key k (l ∷ ls) = let rest = place_key k ls in if ltb l.id k.id then l ∷ rest else k ∷ l ∷ ls

unfoldable pub keys_by_id : List Key → List Key
unfolding place_key
keys_by_id [] = []
keys_by_id (k ∷ ks) = place_key k (keys_by_id ks)

-- KEY_COLUMNS: the hash is not among them.
pub record KeyRow : Type 0 where
  pub id : ℕ
  pub label : JsText
  pub role : Role
  pub last_used_at : Option ℕ
  pub revoked_at : Option ℕ

abbrev pub key_row : Key → KeyRow
key_row k = record {
  id = k.id;
  label = k.label;
  role = k.role;
  last_used_at = k.last_used_at;
  revoked_at = k.revoked_at;
}

-- GET /api/keys
unfoldable pub list_keys : Principal → Db → Response (List KeyRow) × Db
unfolding keys_by_id
list_keys principal =
    authorized moderator principal (λ db. (sent 200 (map key_row (keys_by_id db.keys)), db))

abbrev server_error : {A : Type 0} → Response A
server_error = failed (record { status = 500; message = utf16 "Помилка сервера" })

-- `ROLES.includes(role)`
unfoldable pub role_of : Option Json → Option Role
unfolding text_eq
role_of j = elim (string_of j) [
  | none ↦ none
  | some s ↦
      if text_eq s (utf16 "author")
      then some author
      else if text_eq s (utf16 "moderator")
      then some moderator
      else none
]

-- The answer to a new key: the only time that its token is shown.
pub record NewKey : Type 0 where
  pub id : ℕ
  pub label : JsText
  pub role : Role
  pub token : JsText

module _ (sha256_hex : JsText → JsText) where
  -- INSERT INTO publish_keys …; `token_hash` is unique.
  unfoldable pub insert_key : JsText → Role → JsText → Tx ℕ
  unfolding any
  insert_key label role token = do
    taken ← gets (λ db. any (λ k. text_eq k.token_hash (sha256_hex token)) db.keys)
    throw_if taken unique_violation
    id ← gets (λ db. db.next_key)
    modify (λ db. record db {
      keys =
          db.keys
          ++ (record {
            id = id;
            label = label;
            role = role;
            token_hash = sha256_hex token;
            last_used_at = none;
            revoked_at = none;
          })
            ∷ [];
      next_key = suc db.next_key;
    })
    pure id

  unfoldable pub create_work : Principal → JsText → Role → JsText → Tx ℕ
  unfolding insert_key record_event role_name
  create_work principal label role token = do
    id ← insert_key label role token
    record_event principal (utf16 "key.create") none (
        (utf16 "keyId", number id)
        ∷ (utf16 "label", text label)
        ∷ (utf16 "role", text (role_name role))
        ∷ [])
    pure id

  -- POST /api/keys, with the token that was drawn.
  unfoldable pub post_key : Principal → Option Json → JsText → Db → Response NewKey × Db
  unfolding create_work role_of in_transaction describe_error
  post_key principal body token = authorized moderator principal (λ db.
      let label = trimmed (member (utf16 "label") body) in
      if is_empty label || ltb max_label_length (length label)
      then (failed (record { status = 400; message = utf16 "label: від 1 до 100 символів" }), db)
      else elim (role_of (member (utf16 "role") body)) [
        | none ↦ (
          failed (record {
            status = 400;
            message = utf16 "role має бути одним із: author, moderator";
          }),
          db,
        )
        | some role ↦
            let (result, db') = in_transaction (create_work principal label role token) db in
            elim result [
              | ok id ↦
                  (sent 201 (record { id = id; label = label; role = role; token = token }), db')
              | throw e ↦ (server_error, db')
            ]
      ])

-- `/^\d{1,10}$/`, then a number no larger than an id can be
unfoldable pub key_id_of : JsText → Option ℕ
unfolding is_decimal number_of
key_id_of raw =
    if is_decimal raw && leb (length raw) 10
    then if ltb max_key_id (number_of raw) then none else some (number_of raw)
    else none

-- COALESCE(revoked_at, NOW())
abbrev revoked : ℕ → Key → Key
revoked now k = elim k.revoked_at [ none ↦ record k { revoked_at = some now } | some _ ↦ k ]

-- UPDATE publish_keys SET revoked_at = … WHERE id = $1
unfoldable pub revoke : ℕ → ℕ → List Key → List Key
revoke id now [] = []
revoke id now (k ∷ ks) =
    let rest = revoke id now ks in if k.id == id then revoked now k ∷ rest else k ∷ rest

unfoldable pub revoke_work : Principal → ℕ → Tx (Option Key)
unfolding revoke record_event find
revoke_work principal id = do
  modify (λ db. record db { keys = revoke id db.now db.keys })
  key ← gets (λ db. find (λ k. k.id == id) db.keys)
  _ ← elim key [
    | none ↦ pure tt
    | some _ ↦ record_event principal (utf16 "key.revoke") none ((utf16 "keyId", number id) ∷ [])
  ]
  pure key

abbrev answer_revoked : Option Key → Response KeyRow
answer_revoked none = failed (record { status = 404; message = utf16 "Ключ не знайдено" })
answer_revoked (some key) = sent 200 (key_row key)

-- POST /api/keys/:id/revoke
unfoldable pub post_revoke : Principal → JsText → Db → Response KeyRow × Db
unfolding revoke_work key_id_of in_transaction
post_revoke principal raw = authorized moderator principal (λ db. elim (key_id_of raw) [
  | none ↦ (failed (record { status = 400; message = utf16 "Невалідний id ключа" }), db)
  | some id ↦
      let (result, db') = in_transaction (revoke_work principal id) db in
      elim result [ ok key ↦ (answer_revoked key, db') | throw e ↦ (server_error, db') ]
])
