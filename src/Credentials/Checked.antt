-- ===== src/Credentials/Checked.antt =====
-- Who is let in, and who is slowed down.
use virtual_lab.Prelude.{
  ℕ, ◌≤◌, false, not, ◌&&◌, Option, some, none, List, ◌≡◌, ◌≢◌, inl, inr, refl, arith,
  if◌then◌else◌, ltb, subst, [], ◌∷◌, length, Bool-cases, Option-cases,
}
use virtual_lab.Prelude.Search.{find_holds}
use virtual_lab.JsText.{JsText, text_eq, is_empty}
use virtual_lab.JsText.Laws.{text_eq_iff}
use virtual_lab.HttpError.{Described}
use virtual_lab.Db.Rows.{Db, Key}
use virtual_lab.Auth.{Principal}
use virtual_lab.RateLimits.{Windows, consume, retry_after_seconds}
use virtual_lab.Credentials.{
  passed, refused, bearer_token, resolve_principal, wrong, authenticate, find_key, is_revoked,
  bootstrap_principal, max_token_length, tokens_match, failed_auth_window_ms, bad_token,
  too_many_failures,
}

module _ (sha256_hex : JsText → JsText) (utf8 : JsText → List ℕ) (bootstrap_token : JsText) where
  -- The credentials that stand for a principal: the bootstrap token, where it is set, or the token of
  -- a key that is not revoked.
  pub data Credential (token : JsText) (db : Db) : Principal → Type 0 where
    bootstrap :
        bootstrap_token ≢ []
        → utf8 token ≡ utf8 bootstrap_token
        → Credential token db bootstrap_principal
    key :
        (k : Key)
        → find_key (sha256_hex token) db.keys ≡ some k
        → k.token_hash ≡ sha256_hex token
        → k.revoked_at ≡ none
        → Credential token db (record { role = k.role; key_id = some k.id; label = k.label })

  not_empty : (s : JsText) → is_empty s ≡ false → s ≢ []
  not_empty s h e = ground arith

  not_revoked : (k : Key) → is_revoked k ≡ false → k.revoked_at ≡ none
  not_revoked k h = ground arith

  empty_of : (s : JsText) → s ≢ [] → is_empty s ≡ false
  empty_of [] h = absurd (h refl)
  empty_of (c ∷ s) h = refl

  resolved_by :
      (token : JsText) (db : Db) (p : Principal)
      → (resolve_principal sha256_hex utf8 bootstrap_token token db).0 ≡ some p
      → (length token ≤ max_token_length) × Credential token db p
  unfolding resolve_principal
  resolved_by token db p h = elim (Bool-cases (ltb max_token_length (length token))) [
    | inl long ↦ ground arith
    | inr short ↦
        elim (Bool-cases (
          not (is_empty bootstrap_token)
          && tokens_match sha256_hex utf8 bootstrap_token token bootstrap_token)) [
            | inl hit ↦ (
              ground arith,
              subst (Credential token db) {x = bootstrap_principal} (ground arith) (
                  bootstrap (not_empty bootstrap_token (ground arith))
                    ((text_eq_iff (utf8 token) (utf8 bootstrap_token)).0 (ground arith))),
            )
            | inr miss ↦ elim (Option-cases (find_key (sha256_hex token) db.keys)) [
              | inl unknown ↦ ground arith
              | inr (k, e) ↦ elim (Bool-cases (is_revoked k)) [
                | inl revoked ↦ ground arith
                | inr live ↦ (
                  ground arith,
                  subst (Credential token db)
                      {x = record { role = k.role; key_id = some k.id; label = k.label }}
                      (ground arith)
                      (key k e
                        ((text_eq_iff k.token_hash (sha256_hex token)).0
                          (find_holds (λ x. text_eq x.token_hash (sha256_hex token)) db.keys k e))
                        (not_revoked k live)),
                )
              ]
            ]
          ]
  ]

  resolves :
      (token : JsText) (db : Db) (p : Principal)
      → length token ≤ max_token_length
      → Credential token db p
      → (q : Principal) × ((resolve_principal sha256_hex utf8 bootstrap_token token db).0 ≡ some q)
  unfolding resolve_principal
  resolves token db p short c =
      elim (Bool-cases (
        not (is_empty bootstrap_token)
        && tokens_match sha256_hex utf8 bootstrap_token token bootstrap_token)) [
          | inl hit ↦ (bootstrap_principal, ground arith)
          | inr miss ↦ go p c miss
        ]
    where
      go :
          (p : Principal)
          → Credential token db p
          → (not (is_empty bootstrap_token)
              && tokens_match sha256_hex utf8 bootstrap_token token bootstrap_token)
            ≡ false
          → (q : Principal) × ((resolve_principal sha256_hex utf8 bootstrap_token token db).0
              ≡ some q)
      go p (bootstrap nonempty same) miss = absurd (
          ground (
            arith,
            (text_eq_iff (utf8 token) (utf8 bootstrap_token)).1 same,
            empty_of bootstrap_token nonempty,
          ))
      go p (key k e hash live) miss =
          (record { role = k.role; key_id = some k.id; label = k.label }, ground arith)

  unresolved_db :
      (token : JsText) (db : Db)
      → (resolve_principal sha256_hex utf8 bootstrap_token token db).0 ≡ none
      → (resolve_principal sha256_hex utf8 bootstrap_token token db).1 ≡ db
  unfolding resolve_principal
  unresolved_db token db h = ground arith

  module _ (limit : ℕ) (header ip : JsText) (time : ℕ) (db : Db) (ws : Windows JsText) where
    -- Whoever is let in presented the bootstrap token or the token of a key that is not revoked, and
    -- is counted as a failure nowhere.
    pub authenticate_passed :
        (p : Principal)
        → (authenticate sha256_hex utf8 bootstrap_token limit header ip time db ws).0 ≡ passed p
        → Credential (bearer_token header) db p
          × ((authenticate sha256_hex utf8 bootstrap_token limit header ip time db ws).2 ≡ ws)
    unfolding authenticate wrong
    authenticate_passed p h = elim (Bool-cases (is_empty (bearer_token header))) [
      | inl bare ↦ ground arith
      | inr given ↦
          elim (Option-cases
            (resolve_principal sha256_hex utf8 bootstrap_token (bearer_token header) db).0) [
              | inl unknown ↦
                  elim (Bool-cases (consume text_eq limit failed_auth_window_ms ip time ws).0) [
                    | inl counted ↦ ground arith
                    | inr limited ↦ ground arith
                  ]
              | inr (q, e) ↦ (
                subst (Credential (bearer_token header) db) {x = q} (ground arith)
                    (resolved_by (bearer_token header) db q e).1,
                ground arith,
              )
            ]
    ]

    -- A valid credential is let in whatever the address has failed at before, and no limit applies.
    pub valid_never_limited :
        (p : Principal)
        → bearer_token header ≢ []
        → length (bearer_token header) ≤ max_token_length
        → Credential (bearer_token header) db p
        → (q : Principal) × Credential (bearer_token header) db q
          × ((authenticate sha256_hex utf8 bootstrap_token limit header ip time db ws).0 ≡ passed q)
    unfolding authenticate
    valid_never_limited p given short c =
        let (q, e) = resolves (bearer_token header) db p short c in
        (
          q,
          (resolved_by (bearer_token header) db q e).1,
          ground (arith, empty_of (bearer_token header) given),
        )

    -- A wrong credential changes no table. It answers 403 and takes one of the address's slots
    -- while there is one, and 429 once there is none.
    pub wrong_token_answer :
        bearer_token header ≢ []
        → (resolve_principal sha256_hex utf8 bootstrap_token (bearer_token header) db).0 ≡ none
        → (d : Described) × (wait : Option ℕ) × (authenticate sha256_hex utf8 bootstrap_token limit
              header ip time db ws
            ≡ (refused d wait, db, (consume text_eq limit failed_auth_window_ms ip time ws).1))
          × (d.status
              ≡ (if (consume text_eq limit failed_auth_window_ms ip time ws).0 then 403 else 429))
    unfolding authenticate wrong
    wrong_token_answer given unknown =
        elim (Bool-cases (consume text_eq limit failed_auth_window_ms ip time ws).0) [
          | inl counted ↦ (
            bad_token,
            none,
            ground (
              arith,
              empty_of (bearer_token header) given,
              unresolved_db (bearer_token header) db unknown,
            ),
            ground arith,
          )
          | inr limited ↦ (
            too_many_failures,
            some (
                retry_after_seconds text_eq ip time
                  (consume text_eq limit failed_auth_window_ms ip time ws).1),
            ground (
              arith,
              empty_of (bearer_token header) given,
              unresolved_db (bearer_token header) db unknown,
            ),
            ground arith,
          )
        ]
