-- ===== src/Auth/Session/Guard.antt =====
-- internal/auth/middleware.go over the in-memory database. `validate` is ValidateAccessToken with the
-- server's key, `none` its error. The next handler is the answer `passed`.
use openlocalcrm.Base.{
  ℕ, String, Bool, true, false, ◌&&◌, Option, none, some, List, [], ◌∷◌, ◌==◌, if◌then◌else◌,
  nat_comparable, string_comparable, option_comparable,
}
use openlocalcrm.Base.Text.{Text, trim_space, text_comparable}
use openlocalcrm.Db.Demo.Users.{Users, current_token_version}

pub record AccessClaims : Type 0 where
  pub user_id : ℕ
  pub email : String
  pub role : String
  pub token_version : Option ℕ

-- What is read of a request: the text after `Bearer ` in its header, and its cookie.
pub record Credentials : Type 0 where
  pub bearer : Option Text
  pub cookie : Option Text

pub data Verdict : Type 0 where
  unauthorized : String → Verdict
  passed : AccessClaims → Bool → Verdict

abbrev pub cookie_value : Credentials → Text
cookie_value r = elim r.cookie [ none ↦ [] | some v ↦ v ]

abbrev pub token_of : Credentials → Text
token_of r = elim r.bearer [ none ↦ cookie_value r | some candidate ↦ trim_space candidate ]

abbrev pub is_bearer : Credentials → Bool
is_bearer r = elim r.bearer [ none ↦ false | some candidate ↦ true ]

-- The version of the token against the stored one.
unfoldable pub verify_version : Users → AccessClaims → Bool → Verdict
verify_version users claims via_bearer = elim (current_token_version users (some claims.user_id)) [
  | none ↦ unauthorized "session could not be verified"
  | some stored ↦
      if claims.token_version == some stored
      then passed claims via_bearer
      else unauthorized "session is no longer valid"
]

unfoldable pub auth_middleware : (Text → Option AccessClaims) → Users → Credentials → Verdict
auth_middleware validate users r =
    if token_of r == []
    then unauthorized "missing authentication token"
    else (elim (validate (token_of r)) [
      | none ↦ unauthorized "invalid or expired token"
      | some claims ↦ verify_version users claims (is_bearer r && cookie_value r == [])
    ])

unfoldable pub require_any_role : List String → Option AccessClaims → Bool
require_any_role roles none = false
require_any_role [] (some claims) = false
require_any_role (role ∷ roles) (some claims) =
    let rest = require_any_role roles (some claims) in if claims.role == role then true else rest

abbrev pub require_role : String → Option AccessClaims → Bool
require_role role claims = require_any_role (role ∷ []) claims
