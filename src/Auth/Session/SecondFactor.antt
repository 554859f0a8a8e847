-- ===== src/Auth/Session/SecondFactor.antt =====
-- Who gets a session from `Login` of internal/auth/service.go.
use openlocalcrm.Base.{
  ℕ, ◌/◌, ◌≡◌, ◌<◌, ◌⊎◌, refl, subst, inl, inr, String, true, false, not, ◌||◌, Option, some, List,
  [], ◌∷◌, ◌==◌, leb, length, arith, eq→≡, Bool-cases, Option-cases, string_comparable,
  nat_comparable,
}
use openlocalcrm.Base.Text.{Text, to_lower, trim_space, text_comparable}
use openlocalcrm.Base.Results.{done}
use openlocalcrm.Db.Models.{User}
use openlocalcrm.Db.Demo.Users.{get_user_by_email, update_user_totp_last_used_step}
use openlocalcrm.Auth.Limiter.{is_locked}
use openlocalcrm.Auth.Session.{AuthState, Outside, Library, text_or_empty}
use openlocalcrm.Auth.Session.Totp.{fits, first_fit, window, validate_totp_code_with_step}
use openlocalcrm.Auth.Session.Login.{
  LoginRequest, session, with_users, refuse, start_session, second_factor, known_user, login,
}

module _ (generate_code : Text → ℕ → Option Text) (passcode secret : Text) (last : ℕ) where
  fits-Fresh :
      (step : ℕ)
      → fits generate_code passcode secret last step ≡ true
      → (last < step) × (generate_code secret step ≡ some passcode)
  unfolding fits
  fits-Fresh step h = elim (Bool-cases (leb step last)) [
    | inl q ↦ absurd (cc (simp (fits, q) at h))
    | inr q ↦ elim (Option-cases (generate_code secret step)) [
      | inl r ↦ absurd (cc (simp (fits, q, r) at h))
      | inr (code, r) ↦
          let same = eq→≡ code passcode (simp (fits, q, r) at h) in
          (ground (arith, q), rw (r, same) refl)
    ]
  ]

  first_fit-fits :
      (steps : List ℕ) (step : ℕ)
      → first_fit generate_code passcode secret last steps ≡ (true, step)
      → fits generate_code passcode secret last step ≡ true
  unfolding first_fit
  first_fit-fits [] step h = absurd (cc h)
  first_fit-fits (s ∷ steps) step h =
      elim (Bool-cases (fits generate_code passcode secret last s)) [
        | inl q ↦ cc (rw q at h, q)
        | inr q ↦ first_fit-fits steps step (rw q at h)
      ]

  -- A passcode that is accepted is that of a step after the last one that was used.
  pub validate-Fresh :
      (now step : ℕ)
      → validate_totp_code_with_step generate_code now passcode secret last ≡ (true, step)
      → (last < step) × (generate_code secret step ≡ some passcode)
  unfolding validate_totp_code_with_step
  validate-Fresh now step h = elim (Bool-cases (not (length passcode == 6) || secret == [])) [
    | inl q ↦ absurd (cc (simp (validate_totp_code_with_step, q) at h))
    | inr q ↦
        fits-Fresh step
          (first_fit-fits (window now) step (simp (validate_totp_code_with_step, q) at h))
  ]

-- The code of the request is that of the user's secret at a step that was not used.
pub record SecondFactor (lib : Library) (req : LoginRequest) (user : User) : Type 0 where
  pub secret : Text
  pub step : ℕ
  pub decrypted : lib.decrypt_secret (text_or_empty user.totp_secret_encrypted) ≡ some secret
  pub fresh : user.totp_last_used_step < step
  pub matches : lib.generate_code secret step ≡ some req.totp_code

-- What a session was given for.
pub record Authenticated (lib : Library) (req : LoginRequest) (user : User) : Type 0 where
  pub password : lib.check_password user.password_hash req.password ≡ true
  pub active : (user.status == "ACTIVE") ≡ true
  pub factor : (user.totp_enabled ≡ false) ⊎ SecondFactor lib req user

module _ {A : Type 0} (lib : Library) where
  start_session_user :
      (st : AuthState A) (req : LoginRequest) (key : String) (user u : User) (o : Outside)
      (access raw : Text)
      → (start_session lib st req key user o).1 ≡ done (session access raw u)
      → user ≡ u
  unfolding start_session
  start_session_user st req key user u o access raw h = elim (Option-cases (lib.sign user o.now)) [
    | inl q ↦ absurd (cc (simp (start_session, q) at h))
    | inr (token, q) ↦ elim (Option-cases o.raw_refresh) [
      | inl r ↦ absurd (cc (simp (start_session, q, r) at h))
      | inr (raw', r) ↦ cc (simp (start_session, q, r) at h)
    ]
  ]

  second_factor-Authenticated :
      (st : AuthState A) (req : LoginRequest) (key : String) (user u : User) (o : Outside)
      (access raw : Text)
      → (second_factor lib st req key user o).1 ≡ done (session access raw u)
      → (user ≡ u) × SecondFactor lib req user
  unfolding second_factor refuse
  second_factor-Authenticated st req key user u o access raw h =
      elim (Bool-cases (req.totp_code == [])) [
        | inl q ↦ absurd (cc (simp (second_factor, q) at h))
        | inr q ↦
            elim (Option-cases (lib.decrypt_secret (text_or_empty user.totp_secret_encrypted))) [
              | inl r ↦ absurd (cc (simp (second_factor, q, r, refuse) at h))
              | inr (secret, r) ↦
                  let answer =
                    validate_totp_code_with_step lib.generate_code (o.now / 1000000000)
                      req.totp_code secret user.totp_last_used_step in
                  elim (Bool-cases answer.0) [
                    | inr v ↦ absurd (cc (simp (second_factor, q, r, v, refuse) at h))
                    | inl v ↦
                        let same =
                          start_session_user
                            (with_users st (
                              update_user_totp_last_used_step st.querier.users o.now user.id
                                answer.1))
                            req key user u o access raw (simp (second_factor, q, r, v) at h) in
                        let (later, code) =
                          validate-Fresh lib.generate_code req.totp_code secret
                            user.totp_last_used_step (o.now / 1000000000) answer.1 (cc v) in
                        (
                          same,
                          record {
                            secret = secret;
                            step = answer.1;
                            decrypted = r;
                            fresh = later;
                            matches = code;
                          },
                        )
                  ]
            ]
      ]

  known_user-Authenticated :
      (st : AuthState A) (req : LoginRequest) (key : String) (user u : User) (o : Outside)
      (access raw : Text)
      → (known_user lib st req key user o).1 ≡ done (session access raw u)
      → (user ≡ u) × Authenticated lib req user
  unfolding known_user refuse
  known_user-Authenticated st req key user u o access raw h = elim (Bool-cases o.slot) [
    | inr q ↦ absurd (cc (simp (known_user, q) at h))
    | inl q ↦ elim (Bool-cases (lib.check_password user.password_hash req.password)) [
      | inr r ↦ absurd (cc (simp (known_user, q, r, refuse) at h))
      | inl r ↦ elim (Bool-cases (user.status == "ACTIVE")) [
        | inr s ↦ absurd (cc (simp (known_user, q, r, s, refuse) at h))
        | inl s ↦ elim (Bool-cases user.totp_enabled) [
          | inl t ↦
              let (same, factor) =
                second_factor-Authenticated st req key user u o access raw
                  (simp (known_user, q, r, s, t) at h) in
              (same, record { password = r; active = s; factor = inr factor })
          | inr t ↦
              let same =
                start_session_user st req key user u o access raw
                  (simp (known_user, q, r, s, t) at h) in
              (same, record { password = r; active = s; factor = inl t })
        ]
      ]
    ]
  ]

  -- A login that opens a session does so for the active user that the address names, with the
  -- password of that user and, where the second factor is on, a passcode of a time step after the
  -- last one that was used; and its key was not locked.
  pub login-Authenticated :
      (st : AuthState A) (req : LoginRequest) (o : Outside) (access raw : Text) (user : User)
      → (login lib st req o).1 ≡ done (session access raw user)
      → (get_user_by_email st.querier.users (trim_space (to_lower req.email)) ≡ some user)
        × ((is_locked st.limiter (lib.rate_key req.ip (trim_space (to_lower req.email))) o.now).1
            ≡ false)
        × Authenticated lib req user
  unfolding login refuse
  login-Authenticated st req o access raw user h =
      let email = trim_space (to_lower req.email) in
      let key = lib.rate_key req.ip email in
      let lock = is_locked st.limiter key o.now in
      elim (Bool-cases (email == [] || req.password == [])) [
        | inl q ↦ absurd (cc (simp (login, q) at h))
        | inr q ↦ elim (Bool-cases lock.1) [
          | inl r ↦ absurd (cc (simp (login, q, r) at h))
          | inr r ↦ elim (Option-cases (get_user_by_email st.querier.users email)) [
            | inl s ↦ absurd (cc (simp (login, q, r, s, refuse) at h))
            | inr (u, s) ↦
                let (same, auth) =
                  known_user-Authenticated (record st { limiter = lock.0 }) req key u user o access
                    raw (simp (login, q, r, s) at h) in
                (rw same at s, r, subst (Authenticated lib req) same auth)
          ]
        ]
      ]
