-- ===== src/Auth/Session/Login.antt =====
-- `Login` of internal/auth/service.go.
use openlocalcrm.Base.{
  ℕ, ◌+◌, ◌/◌, String, not, ◌||◌, Option, none, some, [], ◌==◌, if◌then◌else◌, nat_comparable,
  string_comparable,
}
use openlocalcrm.Base.Text.{Text, to_lower, trim_space, text_comparable}
use openlocalcrm.Base.Results.{Result, failed, done}
use openlocalcrm.Db.Models.{Uuid, User}
use openlocalcrm.Db.Demo.Users.{
  Users, get_user_by_email, update_user_totp_last_used_step, update_user_last_login,
}
use openlocalcrm.Db.Demo.RefreshTokens.{create_refresh_token}
use openlocalcrm.Auth.Limiter.{is_locked, record_failure, reset}
use openlocalcrm.Auth.Session.{
  AuthError, invalid_credentials, invalid_totp_code, rate_limited, no_entropy, signing_failed,
  no_slot, AuthState, Outside, Library, log_audit, refresh_token_duration, to_pg_text,
  text_or_empty,
}
use openlocalcrm.Auth.Session.Totp.{validate_totp_code_with_step}

pub record LoginRequest : Type 0 where
  pub email : Text
  pub password : Text
  pub totp_code : Text
  pub ip : String
  pub user_agent : String

pub data LoginResult : Type 0 where
  totp_required : LoginResult
  session : Text → Text → User → LoginResult

-- A change of the users that may find no row; the login goes on without it.
abbrev pub with_users : {A : Type 0} → AuthState A → Option Users → AuthState A
with_users st none = st
with_users st (some users) = record st { querier = record st.querier { users = users } }

abbrev pub Outcome : Type 0 → Type 0
Outcome A = AuthState A × Result AuthError LoginResult

module _ {A : Type 0} (lib : Library) where
  -- A failure is counted, and audited with its reason.
  unfoldable pub refuse : AuthState A → ℕ → String → Uuid → String → AuthError → Outcome A
  refuse st now key user_id reason e =
      let counted = record st { limiter = (record_failure lib.range_keys st.limiter key now).0 } in
      (log_audit counted user_id "LOGIN_FAILED" reason, failed e)

  -- What follows a full authentication.
  unfoldable pub start_session : AuthState A → LoginRequest → String → User → Outside → Outcome A
  start_session st req key user o =
      let cleared = record st { limiter = reset st.limiter key } in
      let st' =
        with_users cleared
          (update_user_last_login cleared.querier.users o.now user.id (some o.now)) in
      elim (lib.sign user o.now) [
        | none ↦ (st', failed signing_failed)
        | some token ↦ elim o.raw_refresh [
          | none ↦ (st', failed no_entropy)
          | some raw ↦
              let tokens = create_refresh_token st'.querier.refresh_tokens o.new_id o.now (record {
                user_id = user.id;
                token_hash = lib.hash_token raw;
                user_agent = to_pg_text req.user_agent;
                ip_address = to_pg_text req.ip;
                expires_at = some (o.now + refresh_token_duration);
                family_id = some o.family;
              }) in
              let stored = record st' {
                querier = record st'.querier { refresh_tokens = tokens };
              } in
              (log_audit stored user.id "LOGIN_SUCCESS" "", done (session token raw user))
        ]
      ]

  unfoldable pub second_factor : AuthState A → LoginRequest → String → User → Outside → Outcome A
  second_factor st req key user o =
      if req.totp_code == []
      then (st, done totp_required)
      else elim (lib.decrypt_secret (text_or_empty user.totp_secret_encrypted)) [
        | none ↦ refuse st o.now key user.id "totp_decrypt_failed" invalid_totp_code
        | some secret ↦
            let (valid, step) =
              validate_totp_code_with_step lib.generate_code (o.now / 1000000000) req.totp_code
                secret user.totp_last_used_step in
            if valid
            then start_session
                (with_users st
                  (update_user_totp_last_used_step st.querier.users o.now user.id step))
                req key user o
            else refuse st o.now key user.id "invalid_totp_code" invalid_totp_code
      ]

  unfoldable pub known_user : AuthState A → LoginRequest → String → User → Outside → Outcome A
  known_user st req key user o =
      if not o.slot
      then (st, failed no_slot)
      else (if not (lib.check_password user.password_hash req.password)
          then refuse st o.now key user.id "invalid_password" invalid_credentials
          else (if not (user.status == "ACTIVE")
              then refuse st o.now key user.id "user_not_active" invalid_credentials
              else (if user.totp_enabled
                  then second_factor st req key user o
                  else start_session st req key user o)))

  unfoldable pub login : AuthState A → LoginRequest → Outside → Outcome A
  login st req o =
      let email = trim_space (to_lower req.email) in
      let key = lib.rate_key req.ip email in
      let (rl, locked, remaining) = is_locked st.limiter key o.now in
      let st' = record st { limiter = rl } in
      if email == [] || req.password == []
      then (log_audit st none "LOGIN_FAILED" "missing_credentials", failed invalid_credentials)
      else (if locked
          then (log_audit st' none "LOGIN_FAILED" "rate_limited", failed (rate_limited remaining))
          else (elim (get_user_by_email st'.querier.users email) [
            | none ↦ refuse st' o.now key none "user_not_found" invalid_credentials
            | some user ↦ known_user st' req key user o
          ]))
