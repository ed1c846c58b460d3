-- ===== src/RateLimits/Granted.antt =====
-- What a client of the counter gets: the slots of a window, and the wait that Retry-After names.
use virtual_lab.Prelude.{
  ℕ, suc, ◌+◌, ◌*◌, ◌≤◌, ◌<◌, Bool, true, not, ◌&&◌, some, List, [], ◌∷◌, ◌≡◌, ◌↔◌, inl, inr, refl,
  arith, sym, ◌∙◌, if◌then◌else◌, leb, ltb, keep, count_if, length, All, Bool-cases, Option-cases,
  subst,
}
use virtual_lab.RateLimits.{
  Window, Windows, get, set, sweep, is_over, opened, consume, retry_after_seconds, sweep_threshold,
}
use virtual_lab.RateLimits.Calls.{
  IsMap, consume_open, consume_other, consume_fresh, get-set_ne, get-keep-none,
}

abbrev pub min : ℕ → ℕ → ℕ
min a b = if leb a b then a else b

module _ {K : Type 0} (same : K → K → Bool) (limit window_ms : ℕ) where
  -- How many of the calls take a slot for `k`.
  unfoldable pub granted : K → List (K × ℕ) → Windows K → ℕ
  granted k [] ws = 0
  granted k (c ∷ cs) ws =
      let r = consume same limit window_ms c.0 c.1 ws in
      let rest = granted k cs r.1 in if same c.0 k && r.0 then suc rest else rest

module _ {K : Type 0} (same : K → K → Bool) (same_iff : (a b : K) → (same a b ≡ true) ↔ (a ≡ b))
    (limit window_ms : ℕ) where
  granted_open :
      (k : K) (calls : List (K × ℕ)) (ws : Windows K) (w : Window)
      → get same k ws ≡ some w
      → w.count ≤ limit
      → All (λ c. c.1 < w.reset_at) calls
      → granted same limit window_ms k calls ws + w.count
        ≡ min (w.count + count_if (λ c. same c.0 k) calls) limit
  unfolding granted count_if
  granted_open k [] ws w h le live = ground arith
  granted_open k ((j, t) ∷ calls) ws w h le live = elim (Bool-cases (same j k)) [
    | inr ne ↦ ground (
      arith,
      granted_open k calls (consume same limit window_ms j t ws).1 w
          (consume_other same same_iff limit window_ms j t ws k w ne h live.0) le live.1,
    )
    | inl eq ↦
        let here : get same j ws ≡ some w =
          subst (λ x. get same x ws ≡ some w) (sym ((same_iff j k).0 eq)) h in
        let (took, after) = consume_open same same_iff limit window_ms j t ws w here live.0 in
        let next =
          subst
            (λ x.
              get same x (consume same limit window_ms j t ws).1
              ≡ some (record w { count = if ltb w.count limit then suc w.count else w.count }))
            ((same_iff j k).0 eq) after in
        ground (
          arith,
          took,
          granted_open k calls (consume same limit window_ms j t ws).1
              (record w { count = if ltb w.count limit then suc w.count else w.count }) next
              (ground arith) live.1,
        )
  ]

  -- From the call that opens a key's window on, and as long as the window lasts, the key gets exactly
  -- as many slots as it asks for, up to the limit: no other key takes one, and no sweep gives one back.
  pub granted_window :
      (k : K) (start : ℕ) (calls : List (K × ℕ)) (ws : Windows K)
      → IsMap same same_iff ws
      → is_over (get same k ws) start ≡ true
      → All (λ c. c.1 < start + window_ms) calls
      → granted same limit window_ms k ((k, start) ∷ calls) ws
        ≡ min (suc (count_if (λ c. same c.0 k) calls)) limit
  unfolding granted
  granted_window k start calls ws m over within =
      let (took, after) = consume_fresh same same_iff limit window_ms k start ws m over in
      ground (
        arith,
        took,
        (same_iff k k).1 refl,
        granted_open k calls (consume same limit window_ms k start ws).1
            (record { count = if ltb 0 limit then 1 else 0; reset_at = start + window_ms }) after
            (ground arith) within,
      )

  over_after_wait :
      (k : K) (now : ℕ) (ws : Windows K)
      → is_over (get same k ws) (now + retry_after_seconds same k now ws * 1000) ≡ true
  unfolding retry_after_seconds
  over_after_wait k now ws = elim (Option-cases (get same k ws)) [
    | inl h ↦ ground arith
    | inr (w, h) ↦ ground arith
  ]

  -- A client that waits as many seconds as Retry-After says, and calls then, is let through.
  pub retry_after_suffices :
      (k : K) (now : ℕ) (ws : Windows K)
      → IsMap same same_iff ws
      → 0 < limit
      → (consume same limit window_ms k (now + retry_after_seconds same k now ws * 1000) ws).0
        ≡ true
  retry_after_suffices k now ws m h = ground (
    arith,
    (consume_fresh same same_iff limit window_ms k (now + retry_after_seconds same k now ws * 1000)
        ws m (over_after_wait k now ws)).0,
  )

  keep-IsMap :
      (q : K × Window → Bool) (ws : Windows K)
      → IsMap same same_iff ws
      → IsMap same same_iff (keep q ws)
  unfolding keep
  keep-IsMap q [] m = tt
  keep-IsMap q (x ∷ ws) m = elim (Bool-cases (q x)) [
    | inl kept ↦
        let both : IsMap same same_iff (x ∷ keep q ws) =
          (get-keep-none same same_iff q x.0 ws m.0, keep-IsMap q ws m.1) in
        subst (IsMap same same_iff) {x = x ∷ keep q ws} (ground arith) both
    | inr dropped ↦ subst (IsMap same same_iff) {x = keep q ws} (ground arith) (keep-IsMap q ws m.1)
  ]

  set-IsMap :
      (k : K) (w : Window) (ws : Windows K)
      → IsMap same same_iff ws
      → IsMap same same_iff (set same k w ws)
  unfolding set get
  set-IsMap k w [] m = (refl, tt)
  set-IsMap k w (x ∷ ws) m = elim (Bool-cases (same x.0 k)) [
    | inl hit ↦ subst (IsMap same same_iff) {x = (x.0, w) ∷ ws} (ground arith) m
    | inr miss ↦
        let both : IsMap same same_iff (x ∷ set same k w ws) = (
          get-set_ne same same_iff k x.0 w ws (ground (arith, same_iff k x.0, same_iff x.0 k))
              ∙ m.0,
          set-IsMap k w ws m.1,
        ) in
        subst (IsMap same same_iff) {x = x ∷ set same k w ws} (ground arith) both
  ]

  sweep-IsMap :
      (time : ℕ) (ws : Windows K)
      → IsMap same same_iff ws
      → IsMap same same_iff (sweep same time ws)
  unfolding sweep
  sweep-IsMap time ws m = elim (Bool-cases (ltb sweep_threshold (length ws))) [
    | inl big ↦
        subst (IsMap same same_iff) {x = keep (λ w. not (leb w.1.reset_at time)) ws} (ground arith)
          (keep-IsMap (λ w. not (leb w.1.reset_at time)) ws m)
    | inr small ↦ subst (IsMap same same_iff) {x = ws} (ground arith) m
  ]

  -- A call keeps one window for each key.
  pub consume-IsMap :
      (k : K) (time : ℕ) (ws : Windows K)
      → IsMap same same_iff ws
      → IsMap same same_iff (consume same limit window_ms k time ws).1
  unfolding consume
  consume-IsMap k time ws m =
      let swept = sweep same time ws in
      let still = sweep-IsMap time ws m in
      let window = opened time window_ms (get same k swept) in
      let taken = record window { count = suc window.count } in
      let over = is_over (get same k swept) time in
      let chosen : Windows K = if over then set same k window swept else swept in
      let one : IsMap same same_iff chosen = elim (Bool-cases over) [
        | inl h ↦
            subst (IsMap same same_iff) {x = set same k window swept} (ground arith)
              (set-IsMap k window swept still)
        | inr h ↦ subst (IsMap same same_iff) {x = swept} (ground arith) still
      ] in
      elim (Bool-cases (leb limit window.count)) [
        | inl full ↦ subst (IsMap same same_iff) {x = chosen} (ground arith) one
        | inr free ↦
            subst (IsMap same same_iff) {x = set same k taken chosen} (ground arith)
              (set-IsMap k taken chosen one)
      ]
