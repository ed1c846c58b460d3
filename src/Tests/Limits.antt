-- ===== src/Tests/Limits.antt =====
-- The counters and the token check on small inputs.
use virtual_lab.Prelude.{
  all, Bool, false, ℕ, suc, ◌+◌, ◌*◌, true, none, List, [], ◌∷◌, ◌≡◌, ◌↔◌, refl, count_if, ◌==◌,
  arith, find,
}
use virtual_lab.JsText.{
  JsText, is_decimal, is_digit, number_of, number_from, trim, text_eq, utf16, starts_with,
}
use virtual_lab.Auth.{Principal}
use virtual_lab.RateLimits.{Windows, get, set, sweep, consume, retry_after_seconds}
use virtual_lab.RateLimits.Granted.{granted, min, granted_window, retry_after_suffices}
use virtual_lab.Credentials.{passed, authenticate, bearer_token, resolve_principal}
use virtual_lab.Credentials.Checked.{Credential, key, authenticate_passed, valid_never_limited}
use virtual_lab.TrustProxy.{parse_trust_proxy, value_of, hops}
use virtual_lab.Tests.Data.{db, author_key, an_author}

same_iff : (x y : ℕ) → ((x == y) ≡ true) ↔ (x ≡ y)
same_iff x y = ground arith

-- Three calls by key 5, one by key 6, against a limit of two.
abbrev calls : List (ℕ × ℕ)
calls = (5, 10) ∷ (6, 11) ∷ (5, 12) ∷ []

granted_window_example :
    granted (λ x y. x == y) 2 1000 5 ((5, 0) ∷ calls) []
    ≡ min (suc (count_if (λ c. c.0 == 5) calls)) 2
unfolding get
granted_window_example =
    granted_window (λ x y. x == y) same_iff 2 1000 5 0 calls [] tt refl
      (omega arith, (omega arith, (omega arith, tt)))

tests_granted : granted (λ x y. x == y) 2 1000 5 ((5, 0) ∷ calls) [] ≡ 2
unfolding granted consume get set sweep
tests_granted = refl

abbrev spent : Windows ℕ
spent = (5, record { count = 2; reset_at = 5000 }) ∷ []

retry_after_suffices_example :
    (consume
      (λ x y. x == y)
      2
      1000
      5
      (100 + retry_after_seconds (λ x y. x == y) 5 100 spent * 1000)
      spent).0
    ≡ true
unfolding get
retry_after_suffices_example =
    retry_after_suffices (λ x y. x == y) same_iff 2 1000 5 100 spent (refl, tt) (omega arith)

-- Stand-ins for SHA-256 and the UTF-8 encoder.
abbrev hash : JsText → JsText
hash s = s

abbrev header : JsText
header = b'B' ∷ b'e' ∷ b'a' ∷ b'r' ∷ b'e' ∷ b'r' ∷ b' ' ∷ b'x' ∷ []

abbrev bad_header : JsText
bad_header = b'B' ∷ b'e' ∷ b'a' ∷ b'r' ∷ b'e' ∷ b'r' ∷ b' ' ∷ b'q' ∷ []

header_token : bearer_token header ≡ b'x' ∷ []
unfolding bearer_token starts_with utf16
header_token = refl

passes : (authenticate hash (λ s. s) [] 3 header [] 0 db []).0 ≡ passed an_author
unfolding authenticate bearer_token starts_with utf16 resolve_principal find text_eq
passes = refl

authenticate_passed_example :
    Credential hash (λ s. s) [] (bearer_token header) db an_author
    × ((authenticate hash (λ s. s) [] 3 header [] 0 db []).2 ≡ [])
authenticate_passed_example =
    authenticate_passed hash (λ s. s) [] 3 header [] 0 db [] an_author passes

presented : Credential hash (λ s. s) [] (bearer_token header) db an_author
unfolding bearer_token starts_with utf16 find text_eq
presented = key author_key refl refl refl

valid_never_limited_example :
    (q : Principal) × Credential hash (λ s. s) [] (bearer_token header) db q
    × ((authenticate hash (λ s. s) [] 3 header [] 0 db []).0 ≡ passed q)
unfolding bearer_token starts_with utf16
valid_never_limited_example =
    valid_never_limited hash (λ s. s) [] 3 header [] 0 db [] an_author (λ h. cc) (omega arith)
      presented

unknown : (resolve_principal hash (λ s. s) [] (bearer_token bad_header) db).0 ≡ none
unfolding bearer_token starts_with utf16 resolve_principal find text_eq
unknown = refl

abbrev no_ip : JsText → Bool
no_ip s = false

tests_trust_proxy : (parse_trust_proxy no_ip (utf16 "11")).0 ≡ hops 1
unfolding parse_trust_proxy value_of is_decimal is_digit all number_of number_from trim utf16
tests_trust_proxy = refl
