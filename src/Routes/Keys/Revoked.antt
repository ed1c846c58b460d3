-- ===== src/Routes/Keys/Revoked.antt =====
-- What a new key opens, and what a revoked one no longer does.
use virtual_lab.Prelude.{
  ℕ, ◌≤◌, false, ◌||◌, Option, none, some, List, [], ◌∷◌, ◌++◌, ◌≡◌, ◌≢◌, refl, arith, ltb, ◌==◌,
  find, any, length, All, Option-cases, Bool-cases, inl, inr,
}
use virtual_lab.Prelude.Search.{All-find}
use virtual_lab.JsText.{JsText, utf16, text_eq, is_empty}
use virtual_lab.JsText.Laws.{text_eq_iff}
use virtual_lab.Db.Rows.{Db, Key, Role, moderator}
use virtual_lab.Db.Tx.{in_transaction}
use virtual_lab.Auth.{Principal, require_role}
use virtual_lab.Audit.{record_event}
use virtual_lab.Json.{Json, member}
use virtual_lab.CatalogInput.{trimmed}
use virtual_lab.RateLimits.{Windows}
use virtual_lab.Credentials.{
  passed, bearer_token, authenticate, find_key, resolve_principal, max_token_length,
}
use virtual_lab.Credentials.Checked.{Credential, bootstrap, key, authenticate_passed}
use virtual_lab.Routes.{sent}
use virtual_lab.Routes.Keys.{
  revoke, revoke_work, post_revoke, key_id_of, insert_key, create_work, post_key, NewKey, role_of,
  max_label_length,
}

revoke-revoked :
    (id now : ℕ) (ks : List Key) → All (λ k. k.id ≡ id → k.revoked_at ≢ none) (revoke id now ks)
unfolding revoke
revoke-revoked id now [] = tt
revoke-revoked id now (k ∷ ks) = elim (Bool-cases (k.id == id)) [
  | inl hit ↦ rw hit (λ _ e. ground arith, revoke-revoked id now ks)
  | inr other ↦ rw other (λ e. ground arith, revoke-revoked id now ks)
]

revoke_again :
    (id now later : ℕ) (ks : List Key) → revoke id later (revoke id now ks) ≡ revoke id now ks
unfolding revoke
revoke_again id now later [] = refl
revoke_again id now later (k ∷ ks) = ground (arith, revoke_again id now later ks)

-- The credentials of a principal are not those of a key whose rows are all revoked.
shut_out :
    (db : Db) (q : Principal) (token : JsText) (sha256_hex : JsText → JsText)
    (utf8 : JsText → List ℕ) (bootstrap_token : JsText) (id : ℕ)
    → All (λ k. k.id ≡ id → k.revoked_at ≢ none) db.keys
    → Credential sha256_hex utf8 bootstrap_token token db q
    → q.key_id ≢ some id
shut_out db q token sha256_hex utf8 bootstrap_token id gone (bootstrap _ _) h = ground arith
shut_out db q token sha256_hex utf8 bootstrap_token id gone (key k found hash live) h =
    All-find (λ l. l.id ≡ id → l.revoked_at ≢ none) (λ l. text_eq l.token_hash (sha256_hex token))
      db.keys k gone found (ground arith) live

module _ (p : Principal) (raw : JsText) (id : ℕ) where
  keys_after :
      (db : Db)
      → p.role ≡ moderator
      → key_id_of raw ≡ some id
      → (post_revoke p raw db).1.keys ≡ revoke id db.now db.keys
  unfolding post_revoke revoke_work in_transaction require_role record_event
  keys_after db m e = ground arith

  -- A moderator who revokes a key shuts it out: no token lets anyone in as that key afterwards. To
  -- revoke it again, at any later time, leaves the table of keys as it is, so the first time stands.
  pub post_revoke-final :
      (db : Db)
      → p.role ≡ moderator
      → key_id_of raw ≡ some id
      → ((sha256_hex : JsText → JsText) (utf8 : JsText → List ℕ) (bootstrap_token : JsText)
            (limit : ℕ) (header ip : JsText) (time : ℕ) (ws : Windows JsText) (q : Principal)
          → (authenticate sha256_hex utf8 bootstrap_token limit header ip time
              (post_revoke p raw db).1
              ws).0
            ≡ passed q
          → q.key_id ≢ some id)
        × ((later : ℕ)
            → (post_revoke p raw (record (post_revoke p raw db).1 { now = later })).1.keys
              ≡ (post_revoke p raw db).1.keys)
  post_revoke-final db m e = (
    λ sha256_hex utf8 bootstrap_token limit header ip time ws q h.
        shut_out (post_revoke p raw db).1 q (bearer_token header) sha256_hex utf8 bootstrap_token id
          (rw (keys_after db m e) (revoke-revoked id db.now db.keys))
          (authenticate_passed sha256_hex utf8 bootstrap_token limit header ip time
            (post_revoke p raw db).1 ws q h).0,
    λ later.
        rw (keys_after (record (post_revoke p raw db).1 { now = later }) m e)
          (rw (keys_after db m e) (revoke_again id db.now later db.keys)),
  )

find-append :
    (hash : JsText) (ks : List Key) (k : Key)
    → any (λ l. text_eq l.token_hash hash) ks ≡ false
    → k.token_hash ≡ hash
    → find_key hash (ks ++ k ∷ []) ≡ some k
unfolding any find
find-append hash [] k h e = ground (arith, text_eq_iff k.token_hash hash)
find-append hash (l ∷ ks) k h e = ground (arith, find-append hash ks k)

module _ (sha256_hex : JsText → JsText) (utf8 : JsText → List ℕ) (bootstrap_token : JsText) where
  -- The key that a request created, in the tables that it left.
  record Created (label : JsText) (role : Role) (token : JsText) (db db' : Db) (id : ℕ)
      : Type 0 where
    fresh : any (λ k. text_eq k.token_hash (sha256_hex token)) db.keys ≡ false
    keys :
        db'.keys
        ≡ db.keys
          ++ (record {
            id = id;
            label = label;
            role = role;
            token_hash = sha256_hex token;
            last_used_at = none;
            revoked_at = none;
          })
            ∷ []

  created :
      (p : Principal) (body : Option Json) (token : JsText) (db db' : Db) (k : NewKey)
      → post_key sha256_hex p body token db ≡ (sent 201 k, db')
      → Created k.label k.role token db db' k.id × (k.token ≡ token)
  unfolding post_key create_work insert_key in_transaction record_event
  created p body token db db' k h = elim (Option-cases (require_role moderator (some p))) [
    | inr (e, r) ↦ absurd (ground arith)
    | inl r ↦
        elim (Bool-cases (
          is_empty (trimmed (member (utf16 "label") body))
          || ltb max_label_length (length (trimmed (member (utf16 "label") body))))) [
            | inl bad ↦ absurd (ground arith)
            | inr good ↦ elim (Option-cases (role_of (member (utf16 "role") body))) [
              | inl e ↦ absurd (ground arith)
              | inr (role, e) ↦
                  elim (Bool-cases (any (λ k. text_eq k.token_hash (sha256_hex token)) db.keys)) [
                    | inl taken ↦ absurd (ground arith)
                    | inr fresh ↦ (record { fresh = fresh; keys = ground arith }, ground arith)
                  ]
            ]
          ]
  ]

  -- The token that a new key is answered with opens its role: no longer than a token may be, and not
  -- the bootstrap token's bytes, it stands for the key's role, id and label.
  pub post_key-opens :
      (p : Principal) (body : Option Json) (token : JsText) (db db' : Db) (k : NewKey)
      → post_key sha256_hex p body token db ≡ (sent 201 k, db')
      → length token ≤ max_token_length
      → utf8 token ≢ utf8 bootstrap_token
      → (resolve_principal sha256_hex utf8 bootstrap_token k.token db').0
        ≡ some (record { role = k.role; key_id = some k.id; label = k.label })
  unfolding resolve_principal
  post_key-opens p body token db db' k h short other =
      let (c, same) = created p body token db db' k h in
      let found =
        find-append (sha256_hex token) db.keys
          (record {
            id = k.id;
            label = k.label;
            role = k.role;
            token_hash = sha256_hex token;
            last_used_at = none;
            revoked_at = none;
          })
          c.fresh refl in
      rw (same, c.keys) (ground (arith, found, text_eq_iff (utf8 token) (utf8 bootstrap_token)))
