-- ===== src/RateLimits/Calls.antt =====
-- One call of the counter.
use virtual_lab.Prelude.{
  ℕ, suc, ◌+◌, ◌<◌, Bool, true, false, not, Option, some, none, [], ◌∷◌, ◌≡◌, ◌↔◌, inl, inr, refl,
  arith, if◌then◌else◌, leb, ltb, keep, Bool-cases,
}
use virtual_lab.RateLimits.{Window, Windows, get, set, sweep, is_over, opened, consume}

opened-over :
    (time window_ms : ℕ) (o : Option Window)
    → is_over o time ≡ true
    → opened time window_ms o ≡ record { count = 0; reset_at = time + window_ms }
opened-over time window_ms none h = refl
opened-over time window_ms (some w) h = ground arith

module _ {K : Type 0} (same : K → K → Bool)
    (same_iff : (a b : K) → (same a b ≡ true) ↔ (a ≡ b)) where
  pub get-set_self : (k : K) (w : Window) (ws : Windows K) → get same k (set same k w ws) ≡ some w
  unfolding get set
  get-set_self k w [] = ground (arith, (same_iff k k).1 refl)
  get-set_self k w (x ∷ ws) = ground (arith, get-set_self k w ws)

  pub get-set_ne :
      (k j : K) (w : Window) (ws : Windows K)
      → same k j ≡ false
      → get same j (set same k w ws) ≡ get same j ws
  unfolding get set
  get-set_ne k j w [] ne = ground arith
  get-set_ne k j w (x ∷ ws) ne =
      ground (arith, get-set_ne k j w ws ne, same_iff x.0 k, same_iff x.0 j, same_iff k j)

  kept_get :
      (k : K) (time : ℕ) (ws : Windows K) (w : Window)
      → get same k ws ≡ some w
      → time < w.reset_at
      → get same k (keep (λ x. not (leb x.1.reset_at time)) ws) ≡ some w
  unfolding get keep
  kept_get k time [] w h live = cc
  kept_get k time (x ∷ ws) w h live = ground (arith, kept_get k time ws w)

  -- Sweeping drops no window that is still open.
  pub get-sweep :
      (k : K) (time : ℕ) (ws : Windows K) (w : Window)
      → get same k ws ≡ some w
      → time < w.reset_at
      → get same k (sweep same time ws) ≡ some w
  unfolding sweep
  get-sweep k time ws w h live = ground (arith, kept_get k time ws w h live)

  -- Each key stands once, as in a `Map`.
  abbrev pub IsMap : Windows K → Type 0
  IsMap [] = Unit {0}
  IsMap (x ∷ ws) = (get same x.0 ws ≡ none) × IsMap ws

  pub get-keep-none :
      (q : K × Window → Bool) (k : K) (ws : Windows K)
      → get same k ws ≡ none
      → get same k (keep q ws) ≡ none
  unfolding get keep
  get-keep-none q k [] h = refl
  get-keep-none q k (x ∷ ws) h = ground (arith, get-keep-none q k ws)

  over_kept :
      (k : K) (time : ℕ) (ws : Windows K)
      → IsMap ws
      → is_over (get same k ws) time ≡ true
      → is_over (get same k (keep (λ x. not (leb x.1.reset_at time)) ws)) time ≡ true
  unfolding get keep
  over_kept k time [] m h = refl
  over_kept k time (x ∷ ws) m h = elim (Bool-cases (same x.0 k)) [
    | inl hit ↦ ground (
      arith,
      (same_iff x.0 k).0 hit,
      get-keep-none (λ x. not (leb x.1.reset_at time)) x.0 ws m.0,
      over_kept k time ws m.1,
    )
    | inr miss ↦ ground (arith, over_kept k time ws m.1)
  ]

  -- A window that is over is over after a sweep.
  over-sweep :
      (k : K) (time : ℕ) (ws : Windows K)
      → IsMap ws
      → is_over (get same k ws) time ≡ true
      → is_over (get same k (sweep same time ws)) time ≡ true
  unfolding sweep
  over-sweep k time ws m h = ground (arith, over_kept k time ws m h)

  module _ (limit window_ms : ℕ) (k : K) (time : ℕ) (ws : Windows K) where
    -- In an open window a call takes a slot exactly while fewer than `limit` are taken.
    pub consume_open :
        (w : Window)
        → get same k ws ≡ some w
        → time < w.reset_at
        → ((consume same limit window_ms k time ws).0 ≡ ltb w.count limit)
          × (get same k (consume same limit window_ms k time ws).1
              ≡ some (record w { count = if ltb w.count limit then suc w.count else w.count }))
    unfolding consume
    consume_open w h live = (
      ground (arith, get-sweep k time ws w h live),
      elim (Bool-cases (leb limit w.count)) [
        | inl full ↦ ground (arith, get-sweep k time ws w h live)
        | inr free ↦ ground (
          arith,
          get-sweep k time ws w h live,
          get-set_self k (record w { count = suc w.count }) (sweep same time ws),
        )
      ],
    )

    -- Another key's open window is what it was.
    pub consume_other :
        (j : K) (w : Window)
        → same k j ≡ false
        → get same j ws ≡ some w
        → time < w.reset_at
        → get same j (consume same limit window_ms k time ws).1 ≡ some w
    unfolding consume
    consume_other j w ne h live =
        let swept = sweep same time ws in
        let window = opened time window_ms (get same k swept) in
        let taken = record window { count = suc window.count } in
        elim (Bool-cases (is_over (get same k swept) time)) [
          | inl over ↦ ground (
            arith,
            get-sweep j time ws w h live,
            get-set_ne k j window swept ne,
            get-set_ne k j taken (set same k window swept) ne,
          )
          | inr open_still ↦
              ground (arith, get-sweep j time ws w h live, get-set_ne k j taken swept ne)
        ]

    -- With no window, or one that is over, the call opens a window and takes its first slot.
    pub consume_fresh :
        IsMap ws
        → is_over (get same k ws) time ≡ true
        → ((consume same limit window_ms k time ws).0 ≡ ltb 0 limit)
          × (get same k (consume same limit window_ms k time ws).1
              ≡ some (record { count = if ltb 0 limit then 1 else 0; reset_at = time + window_ms }))
    unfolding consume
    consume_fresh m h =
        let swept = sweep same time ws in
        let over = over-sweep k time ws m h in
        let window = opened time window_ms (get same k swept) in
        let taken = record window { count = suc window.count } in
        let is_new = opened-over time window_ms (get same k swept) over in
        (
          ground (arith, over, is_new),
          ground (
            arith,
            over,
            is_new,
            get-set_self k window swept,
            get-set_self k taken (set same k window swept),
          ),
        )
