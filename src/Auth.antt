-- ===== src/Auth.antt =====
-- backend/auth.js: principals, roles and who may edit a scenario. The check of a token is in
-- Credentials.antt.
pub mod Laws
use virtual_lab.Prelude.{ℕ, Bool, true, false, ◌||◌, Option, none, some, ◌==◌, ltb, if◌then◌else◌}
use virtual_lab.JsText.{JsText, utf16}
use virtual_lab.Db.Rows.{Role, author, moderator}
use virtual_lab.HttpError.{Failure, http_error}

-- `req.principal`; the bootstrap token has no key.
pub record Principal : Type 0 where
  pub role : Role
  pub key_id : Option ℕ
  pub label : JsText

abbrev pub role_rank : Role → ℕ
role_rank author = 1
role_rank moderator = 2

abbrev pub is_moderator : Role → Bool
is_moderator author = false
is_moderator moderator = true

-- `keyId != null && owner_key_id === keyId`
abbrev pub owns : Option ℕ → Option ℕ → Bool
owns none owner = false
owns (some key) none = false
owns (some key) (some owner) = owner == key

unfoldable pub can_edit_scenario : Principal → Option ℕ → Bool
can_edit_scenario principal owner_key_id =
    is_moderator principal.role || owns principal.key_id owner_key_id

-- `requireRole(role)`: `none` calls the next handler, `some` is the answer.
unfoldable pub require_role : Role → Option Principal → Option Failure
require_role role none = some (http_error 401 (utf16 "Потрібна авторизація"))
require_role role (some principal) =
    if ltb (role_rank principal.role) (role_rank role)
    then some (http_error 403 (utf16 "Недостатньо прав"))
    else none
