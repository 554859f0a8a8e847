-- ===== src/Auth/Session/Account.antt =====
-- The second factor and the password of an account in internal/auth/service.go. Each operation has its
-- own reading of the clock.
use openlocalcrm.Base.{
  ℕ, ◌/◌, String, Bool, false, not, Option, none, some, ltb, if◌then◌else◌, length,
}
use openlocalcrm.Base.Text.{Text}
use openlocalcrm.Base.Results.{Result, failed, done}
use openlocalcrm.Db.Demo.Users.{
  get_user_by_id, enable_totp_with_secret, update_user_totp, update_user_totp_last_used_step,
  update_user_password, set_user_must_change_password, increment_user_token_version,
}
use openlocalcrm.Auth.Session.{
  AuthError, invalid_totp_code, password_too_short, invalid_old_password, user_not_found,
  no_entropy, no_cipher, no_hash, no_slot, no_rows, AuthState, Library, log_audit,
}
use openlocalcrm.Auth.Session.Totp.{validate_totp_code_with_step}
use openlocalcrm.Auth.Session.Login.{with_users}

module _ {A : Type 0} (lib : Library) where
  unfoldable pub setup_totp : AuthState A → ℕ → AuthState A × Result AuthError (Text × String)
  setup_totp st user_id = elim (get_user_by_id st.querier.users (some user_id)) [
    | none ↦ (st, failed user_not_found)
    | some user ↦ elim (lib.generate_totp_key user.email) [
      | none ↦ (st, failed no_entropy)
      | some key ↦ (log_audit st (some user_id) "TOTP_SETUP_INITIATED" "", done key)
    ]
  ]

  unfoldable pub verify_totp : AuthState A → ℕ → ℕ → Text → Text → AuthState A × Option AuthError
  verify_totp st now user_id secret code =
      let (valid, step) =
        validate_totp_code_with_step lib.generate_code (now / 1000000000) code secret 0 in
      if not valid then (st, some invalid_totp_code) else (elim (lib.encrypt_secret secret) [
        | none ↦ (st, some no_cipher)
        | some encrypted ↦
            elim (enable_totp_with_secret st.querier.users now (some user_id) (some encrypted)) [
              | none ↦ (st, some no_rows)
              | some users ↦
                  let enabled = with_users st (some users) in
                  let stepped = with_users enabled (
                    update_user_totp_last_used_step enabled.querier.users now (some user_id)
                      step) in
                  let bumped =
                    with_users stepped
                      (increment_user_token_version stepped.querier.users now (some user_id)) in
                  (log_audit bumped (some user_id) "TOTP_ENABLED" "", none)
            ]
      ])

  unfoldable pub disable_totp : AuthState A → ℕ → Bool → ℕ → Text → AuthState A × Option AuthError
  disable_totp st now slot user_id current_password =
      elim (get_user_by_id st.querier.users (some user_id)) [
        | none ↦ (st, some user_not_found)
        | some user ↦
            if not slot
            then (st, some no_slot)
            else (if not (lib.check_password user.password_hash current_password)
                then (st, some invalid_old_password)
                else (elim (update_user_totp st.querier.users now (some user_id) none false 0) [
                  | none ↦ (st, some no_rows)
                  | some users ↦
                      let disabled = with_users st (some users) in
                      let bumped =
                        with_users disabled (
                          increment_user_token_version disabled.querier.users now (some user_id)) in
                      (log_audit bumped (some user_id) "TOTP_DISABLED" "", none)
                ]))
      ]

  -- `slot` and `slot'` are the two slots that are asked for, `hash` the hash of the new password.
  unfoldable pub change_password :
      AuthState A
      → ℕ
      → Bool
      → Bool
      → Option String
      → ℕ
      → Text
      → Text
      → AuthState A × Option AuthError
  change_password st now slot slot' hash user_id old_password new_password =
      if ltb (length new_password) 8
      then (st, some password_too_short)
      else (elim (get_user_by_id st.querier.users (some user_id)) [
        | none ↦ (st, some user_not_found)
        | some user ↦
            if not slot
            then (st, some no_slot)
            else (if not (lib.check_password user.password_hash old_password)
                then (st, some invalid_old_password)
                else (if not slot' then (st, some no_slot) else (elim hash [
                  | none ↦ (st, some no_hash)
                  | some password_hash ↦
                      elim (update_user_password st.querier.users now (some user_id)
                        password_hash) [
                          | none ↦ (st, some no_rows)
                          | some users ↦
                              let changed = with_users st (some users) in
                              let cleared = with_users changed (
                                set_user_must_change_password changed.querier.users now
                                  (some user_id) false) in
                              (log_audit cleared (some user_id) "PASSWORD_CHANGED" "", none)
                        ]
                ])))
      ])
