-- ===== src/TrustProxy.antt =====
-- backend/trust-proxy.js: the value of Express's `trust proxy` setting from TRUST_PROXY. `isIP` of
-- node:net is a parameter.
use virtual_lab.Prelude.{
  ℕ, ◌≤◌, ◌<◌, Bool, true, false, not, ◌&&◌, ◌||◌, List, [], ◌∷◌, map, ◌≡◌, ◌≢◌, inl, inr, refl,
  subst, arith, if◌then◌else◌, leb, ◌==◌, all, keep, length, Bool-cases,
}
use virtual_lab.JsText.{JsText, utf16, text_eq, trim, is_empty, is_decimal, number_of}

-- What goes to `app.set('trust proxy', …)`.
pub data Trust : Type 0 where
  no_proxy : Trust
  hops : ℕ → Trust
  proxies : List JsText → Trust

-- `s.split(separator)`: the first piece, and the others.
unfoldable pub split_on : ℕ → JsText → JsText × List JsText
split_on separator [] = ([], [])
split_on separator (c ∷ s) =
    let (piece, pieces) = split_on separator s in
    if c == separator then ([], piece ∷ pieces) else (c ∷ piece, pieces)

abbrev pub default_hops : ℕ
default_hops = 1

abbrev pub max_hops : ℕ
max_hops = 10

-- KEYWORDS
unfoldable pub is_keyword : JsText → Bool
unfolding text_eq utf16
is_keyword s =
    text_eq s (utf16 "loopback") || text_eq s (utf16 "linklocal") || text_eq s (utf16 "uniquelocal")

module _ (is_ip : JsText → Bool) where
  -- `isAddress`
  unfoldable pub is_address : JsText → Bool
  unfolding split_on is_decimal
  is_address entry =
      let (address, pieces) = split_on b'/' entry in
      elim pieces [
        | [] ↦ is_ip address
        | prefix ∷ rest ↦ elim rest [
          | [] ↦ is_ip address && is_decimal prefix && leb (length prefix) 3
          | _ ∷ _ ↦ false
        ]
      ]

  abbrev pub is_entry : JsText → Bool
  is_entry e = is_keyword e || is_address e

  -- The pieces between commas, trimmed, without the empty ones.
  unfoldable pub entries_of : JsText → List JsText
  unfolding split_on trim keep
  entries_of s =
      let (piece, pieces) = split_on b',' s in
      keep (λ e. not (is_empty e)) (map trim (piece ∷ pieces))

  -- The value of a text that is not empty, and whether there is a warning.
  unfoldable pub value_of : JsText → Trust × Bool
  unfolding is_decimal number_of all
  value_of s =
      if is_decimal s
      then (if leb (number_of s) max_hops
          then (if number_of s == 0 then (no_proxy, false) else (hops (number_of s), false))
          else (hops default_hops, true))
      else elim (entries_of s) [
        | [] ↦ (hops default_hops, true)
        | e ∷ es ↦
            if all is_entry (e ∷ es) then (proxies (e ∷ es), false) else (hops default_hops, true)
      ]

  -- `parseTrustProxy`; an unset variable is the empty text.
  unfoldable pub parse_trust_proxy : JsText → Trust × Bool
  unfolding trim
  parse_trust_proxy raw =
      let s = trim raw in if is_empty s then (hops default_hops, false) else value_of s

  -- What is trusted: no proxy, one to ten hops, or a list of addresses and keywords that is not empty.
  pub data IsBounded : Trust → Type 0 where
    none_trusted : IsBounded no_proxy
    few : {n : ℕ} → 0 < n → n ≤ 10 → IsBounded (hops n)
    listed : {es : List JsText} → es ≢ [] → all is_entry es ≡ true → IsBounded (proxies es)

  value_of-IsBounded : (s : JsText) → IsBounded (value_of s).0
  unfolding value_of
  value_of-IsBounded s = elim (Bool-cases (is_decimal s)) [
    | inl digits ↦ elim (Bool-cases (leb (number_of s) max_hops)) [
      | inl small ↦ elim (Bool-cases (number_of s == 0)) [
        | inl zero ↦ subst IsBounded {x = no_proxy} (ground arith) none_trusted
        | inr some_hops ↦
            subst IsBounded {x = hops (number_of s)} (ground arith)
              (few (ground arith) (ground arith))
      ]
      | inr many ↦ subst IsBounded {x = hops 1} (ground arith) (few (omega arith) (omega arith))
    ]
    | inr words ↦ go (entries_of s) refl words
  ]
    where
      go : (es : List JsText) → entries_of s ≡ es → is_decimal s ≡ false → IsBounded (value_of s).0
      go [] e w = subst IsBounded {x = hops 1} (ground arith) (few (omega arith) (omega arith))
      go (x ∷ xs) e w = elim (Bool-cases (all is_entry (x ∷ xs))) [
        | inl good ↦
            subst IsBounded {x = proxies (x ∷ xs)} (ground arith) (listed (λ h. ground arith) good)
        | inr bad ↦ subst IsBounded {x = hops 1} (ground arith) (few (omega arith) (omega arith))
      ]

  -- Whatever TRUST_PROXY holds, the server trusts no proxy, one to ten hops, or a list, not empty, of
  -- addresses and keywords: never every hop.
  parse_trust_proxy-IsBounded : (raw : JsText) → IsBounded (parse_trust_proxy raw).0
  unfolding parse_trust_proxy
  parse_trust_proxy-IsBounded raw = elim (Bool-cases (is_empty (trim raw))) [
    | inl unset ↦ subst IsBounded {x = hops 1} (ground arith) (few (omega arith) (omega arith))
    | inr given ↦
        subst IsBounded {x = (value_of (trim raw)).0} (ground arith) (value_of-IsBounded (trim raw))
  ]
