-- ===== src/GradeCache/Bounded.antt =====
-- The map with deadlines: its size, and what it answers.
use virtual_lab.Prelude.{
  ℕ, ◌+◌, ◌-◌, ◌≤◌, ◌<◌, Bool, not, some, none, [], ◌∷◌, ◌++◌, ◌≡◌, inl, inr, refl, arith, ◌∙◌,
  if◌then◌else◌, leb, keep, length, length-append, Bool-cases, Option-cases,
}
use virtual_lab.JsText.{JsText, text_eq}
use virtual_lab.JsText.Laws.{text_eq_refl}
use virtual_lab.GradeCache.{Entry, Entries, lookup, remove, get, drop_oldest, unexpired, evict, set}

module _ {V : Type 0} where
  length-keep-le : (q : JsText × Entry V → Bool) (es : Entries V) → length (keep q es) ≤ length es
  unfolding keep
  length-keep-le q [] = omega arith
  length-keep-le q (e ∷ es) = ground (arith, length-keep-le q es)

  length-drop_oldest : (es : Entries V) → length (drop_oldest es) ≤ length es - 1
  unfolding remove keep
  length-drop_oldest [] = omega arith
  length-drop_oldest (e ∷ es) =
      ground (arith, text_eq_refl e.0, length-keep-le (λ x. not (text_eq x.0 e.0)) es)

  length-evict :
      (max now : ℕ) (es : Entries V) → length es ≤ max → 1 ≤ max → length (evict max now es) < max
  unfolding evict
  length-evict max now es h pos = elim (Bool-cases (leb max (length es))) [
    | inl full ↦ elim (Bool-cases (leb max (length (unexpired now es)))) [
      | inl still ↦ ground (
        arith,
        length-drop_oldest (unexpired now es),
        length-keep-le (λ e. not (leb e.1.expires_at now)) es,
      )
      | inr freed ↦ ground arith
    ]
    | inr free ↦ ground arith
  ]

  -- The map never holds more than `max` entries.
  pub length-set-le :
      (max : ℕ) (key : JsText) (value : V) (ttl_ms now : ℕ) (es : Entries V)
      → 1 ≤ max
      → length es ≤ max
      → length (set max key value ttl_ms now es) ≤ max
  unfolding set remove
  length-set-le max key value ttl_ms now es pos h =
      let left = remove key es in
      let entry : Entry V = record { value = value; expires_at = now + ttl_ms } in
      omega (
        arith,
        length-append (evict max now left) ((key, entry) ∷ []),
        length-evict max now left (omega (arith, length-keep-le (λ e. not (text_eq e.0 key)) es))
            pos,
      )

  lookup-remove_self : (key : JsText) (es : Entries V) → lookup key (remove key es) ≡ none
  unfolding lookup remove keep
  lookup-remove_self key [] = refl
  lookup-remove_self key (e ∷ es) = ground (arith, lookup-remove_self key es)

  -- An expired entry is never answered, and a fresh one is until its deadline.
  pub get_live :
      (key : JsText) (now : ℕ) (es : Entries V) (e : Entry V)
      → (get key now es).0 ≡ some e
      → (lookup key es ≡ some e) × (now < e.expires_at)
  unfolding get
  get_live key now es e h = elim (Option-cases (lookup key es)) [
    | inl missing ↦ ground arith
    | inr (x, f) ↦ (ground arith, ground arith)
  ]

  lookup-keep-none :
      (q : JsText × Entry V → Bool) (key : JsText) (es : Entries V)
      → lookup key es ≡ none
      → lookup key (keep q es) ≡ none
  unfolding lookup keep
  lookup-keep-none q key [] h = refl
  lookup-keep-none q key (e ∷ es) h = ground (arith, lookup-keep-none q key es)

  lookup-drop_oldest :
      (key : JsText) (es : Entries V) → lookup key es ≡ none → lookup key (drop_oldest es) ≡ none
  unfolding remove lookup
  lookup-drop_oldest key [] h = refl
  lookup-drop_oldest key (e ∷ es) h = lookup-keep-none (λ x. not (text_eq x.0 e.0)) key (e ∷ es) h

  lookup-evict :
      (max now : ℕ) (key : JsText) (es : Entries V)
      → lookup key es ≡ none
      → lookup key (evict max now es) ≡ none
  unfolding evict
  lookup-evict max now key es h =
      let gone = lookup-keep-none (λ e. not (leb e.1.expires_at now)) key es h in
      ground (arith, gone, lookup-drop_oldest key (unexpired now es) gone)

  lookup-append :
      (key : JsText) (es fs : Entries V)
      → lookup key es ≡ none
      → lookup key (es ++ fs) ≡ lookup key fs
  unfolding lookup
  lookup-append key [] fs h = refl
  lookup-append key (e ∷ es) fs h = ground (arith, lookup-append key es fs)

  lookup-set :
      (max : ℕ) (key : JsText) (value : V) (ttl_ms now : ℕ) (es : Entries V)
      → lookup key (set max key value ttl_ms now es)
        ≡ some (record { value = value; expires_at = now + ttl_ms })
  unfolding set lookup
  lookup-set max key value ttl_ms now es =
      lookup-append key (evict max now (remove key es))
        ((key, record { value = value; expires_at = now + ttl_ms }) ∷ [])
        (lookup-evict max now key (remove key es) (lookup-remove_self key es))
      ∙ ground (arith, text_eq_refl key)

  -- What was stored is answered until its deadline, and not from then on, whatever was evicted to make
  -- room for it.
  pub get-set :
      (max : ℕ) (key : JsText) (value : V) (ttl_ms now later : ℕ) (es : Entries V)
      → (get key later (set max key value ttl_ms now es)).0 ≡ (
          if leb (now + ttl_ms) later
          then none
          else some (record { value = value; expires_at = now + ttl_ms }))
  unfolding get
  get-set max key value ttl_ms now later es = ground (arith, lookup-set max key value ttl_ms now es)
