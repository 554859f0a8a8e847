-- ===== src/Auth/Csrf/Middleware.antt =====
-- The two middlewares of internal/auth/csrf.go. A request has what they read of it: a missing cookie
-- and a missing header are empty, as the code treats them; `user_id` is that of its claims.
use openlocalcrm.Base.{
  ◌≡◌, String, Bool, true, false, not, ◌||◌, ◌&&◌, Option, [], ◌==◌, if◌then◌else◌, arith,
  string_comparable,
}
use openlocalcrm.Base.Text.{Text, text_comparable}
use openlocalcrm.Auth.Csrf.{Holder, validate}

pub record Request : Type 0 where
  pub method : String
  pub path : String
  pub via_bearer : Bool
  pub cookie : Text
  pub header : Text
  pub user_id : Text

-- The wrapped handler runs, or 403 with one of these errors is answered.
pub data Decision : Type 0 where
  passed cookie_missing header_missing token_mismatch token_invalid : Decision

abbrev pub passes : Decision → Bool
passes passed = true
passes cookie_missing = false
passes header_missing = false
passes token_mismatch = false
passes token_invalid = false

abbrev pub is_safe_method : String → Bool
is_safe_method method =
    method == "GET" || method == "HEAD" || method == "OPTIONS" || method == "TRACE"

abbrev pub is_exempt : Request → Bool
is_exempt r = is_safe_method r.method || r.path == "/api/v1/auth/login" || r.via_bearer

unfoldable pub double_submit : Request → Decision
double_submit r =
    if r.cookie == []
    then cookie_missing
    else (if r.header == []
        then header_missing
        else (if r.cookie == r.header then passed else token_mismatch))

module _ (hmac : Text → Text → Text) (to_hex : Text → Text) (from_hex : Text → Option Text) where
  unfoldable pub protects : Holder → Text → Request → Holder × Decision
  protects h random r =
      let (h', valid) = validate hmac to_hex from_hex h random r.header r.user_id in
      if is_safe_method r.method
      then (h, passed)
      else (if r.path == "/api/v1/auth/login"
          then (h, passed)
          else (if r.via_bearer
              then (h, passed)
              else (if r.cookie == []
                  then (h, cookie_missing)
                  else (if r.header == []
                      then (h, header_missing)
                      else (if r.cookie == r.header
                          then (h', if valid then passed else token_invalid)
                          else (h, token_mismatch))))))

  -- `CSRFProtectionMiddleware` lets a request pass exactly if its method is safe, it is the login or a
  -- verified bearer request, or if `CSRFDoubleSubmitMiddleware` lets it pass and its header
  -- validates for its user; the holder changes only where a token is validated.
  pub protects_lem :
      (h : Holder) (random : Text) (r : Request)
      → let valid = validate hmac to_hex from_hex h random r.header r.user_id in
        (passes (protects h random r).1 ≡ (is_exempt r || (passes (double_submit r) && valid.1)))
        × ((protects h random r).0
            ≡ (if not (is_exempt r) && passes (double_submit r) then valid.0 else h))
  unfolding protects double_submit
  protects_lem h random r = (ground arith, ground arith)
