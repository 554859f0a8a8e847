-- ===== src/Auth/Session/Growth.antt =====
-- What the sessions of internal/auth/service.go do to the table of refresh tokens.
use openlocalcrm.Base.{
  ℕ, ◌≡◌, refl, inl, inr, String, Option, none, some, [], ◌==◌, ◌||◌, Bool-cases, Option-cases,
  subst, ◌/◌, nat_comparable, string_comparable,
}
use openlocalcrm.Base.Dict.{insert}
use openlocalcrm.Base.Text.{Text, to_lower, trim_space, text_comparable}
use openlocalcrm.Db.Models.{Uuid, User, RefreshToken}
use openlocalcrm.Db.Demo.Users.{
  Users, get_user_by_email, update_user_totp_last_used_step, update_user_last_login,
}
use openlocalcrm.Db.Demo.RefreshTokens.{Tokens, create_refresh_token}
use openlocalcrm.Auth.Limiter.{is_locked, reset}
use openlocalcrm.Auth.Session.{AuthError, AuthState, Outside, Library, text_or_empty}
use openlocalcrm.Auth.Session.Totp.{validate_totp_code_with_step}
use openlocalcrm.Auth.Session.Login.{
  LoginRequest, with_users, refuse, start_session, second_factor, known_user, login,
}

-- The table is as before, or has one more token: that which was drawn, of the family that was drawn.
pub data Grown (lib : Library) (o : Outside) : Tokens → Tokens → Type 0 where
  unchanged : {t : Tokens} → Grown lib o t t
  added :
      {t : Tokens} (raw : Text) (r : RefreshToken)
      → o.raw_refresh ≡ some raw
      → r.family_id ≡ some o.family
      → Grown lib o t (insert (lib.hash_token raw) r t)

module _ {A : Type 0} where
  abbrev pub tokens : AuthState A → Tokens
  tokens st = st.querier.refresh_tokens

  pub tokens-with_users :
      (st : AuthState A) (users : Option Users) → tokens (with_users st users) ≡ tokens st
  tokens-with_users st none = refl
  tokens-with_users st (some users) = refl

module _ {A : Type 0} (lib : Library) where
  refuse-Grown :
      (st : AuthState A) (now : ℕ) (key : String) (id : Uuid) (reason : String) (e : AuthError)
      (o : Outside)
      → Grown lib o (tokens st) (tokens (refuse lib st now key id reason e).0)
  unfolding refuse
  refuse-Grown st now key id reason e o = unchanged

  start_session-Grown :
      (st : AuthState A) (req : LoginRequest) (key : String) (user : User) (o : Outside)
      → Grown lib o (tokens st) (tokens (start_session lib st req key user o).0)
  unfolding start_session create_refresh_token
  start_session-Grown st req key user o =
      let same =
        tokens-with_users (record st { limiter = reset st.limiter key })
          (update_user_last_login st.querier.users o.now user.id (some o.now)) in
      elim (Option-cases (lib.sign user o.now)) [
        | inl q ↦ simp (start_session, q, same) unchanged
        | inr (token, q) ↦ elim (Option-cases o.raw_refresh) [
          | inl r ↦ simp (start_session, q, r, same) unchanged
          | inr (raw, r) ↦ simp (start_session, q, r, same) (added raw _ r refl)
        ]
      ]

  second_factor-Grown :
      (st : AuthState A) (req : LoginRequest) (key : String) (user : User) (o : Outside)
      → Grown lib o (tokens st) (tokens (second_factor lib st req key user o).0)
  unfolding second_factor
  second_factor-Grown st req key user o = elim (Bool-cases (req.totp_code == [])) [
    | inl q ↦ rw q unchanged
    | inr q ↦ elim (Option-cases (lib.decrypt_secret (text_or_empty user.totp_secret_encrypted))) [
      | inl r ↦ rw (q, r) (refuse-Grown st o.now key user.id _ _ o)
      | inr (secret, r) ↦
          let answer =
            validate_totp_code_with_step lib.generate_code (o.now / 1000000000) req.totp_code secret
              user.totp_last_used_step in
          elim (Bool-cases answer.0) [
            | inr v ↦ rw (q, r, v) (refuse-Grown st o.now key user.id _ _ o)
            | inl v ↦
                let users =
                  update_user_totp_last_used_step st.querier.users o.now user.id answer.1 in
                rw (q, r, v)
                  (subst
                    (λ t.
                      Grown lib o t
                        (tokens (start_session lib (with_users st users) req key user o).0))
                    (tokens-with_users st users)
                    (start_session-Grown (with_users st users) req key user o))
          ]
    ]
  ]

  known_user-Grown :
      (st : AuthState A) (req : LoginRequest) (key : String) (user : User) (o : Outside)
      → Grown lib o (tokens st) (tokens (known_user lib st req key user o).0)
  unfolding known_user
  known_user-Grown st req key user o = elim (Bool-cases o.slot) [
    | inr q ↦ simp q unchanged
    | inl q ↦ elim (Bool-cases (lib.check_password user.password_hash req.password)) [
      | inr r ↦ simp (q, r) (refuse-Grown st o.now key user.id _ _ o)
      | inl r ↦ elim (Bool-cases (user.status == "ACTIVE")) [
        | inr s ↦ simp (q, r, s) (refuse-Grown st o.now key user.id _ _ o)
        | inl s ↦ elim (Bool-cases user.totp_enabled) [
          | inl t ↦ simp (q, r, s, t) (second_factor-Grown st req key user o)
          | inr t ↦ simp (q, r, s, t) (start_session-Grown st req key user o)
        ]
      ]
    ]
  ]

  pub login-Grown :
      (st : AuthState A) (req : LoginRequest) (o : Outside)
      → Grown lib o (tokens st) (tokens (login lib st req o).0)
  unfolding login
  login-Grown st req o =
      let email = trim_space (to_lower req.email) in
      let key = lib.rate_key req.ip email in
      let lock = is_locked st.limiter key o.now in
      let st' = record st { limiter = lock.0 } in
      elim (Bool-cases (email == [] || req.password == [])) [
        | inl q ↦ simp q unchanged
        | inr q ↦ elim (Bool-cases lock.1) [
          | inl r ↦ simp (q, r) unchanged
          | inr r ↦ elim (Option-cases (get_user_by_email st.querier.users email)) [
            | inl s ↦ simp (q, r, s) (refuse-Grown st' o.now key none _ _ o)
            | inr (user, s) ↦ simp (q, r, s) (known_user-Grown st' req key user o)
          ]
        ]
      ]
