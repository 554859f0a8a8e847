-- ===== src/Auth/Session/Versions.antt =====
-- The token version of internal/auth/service.go against the check of internal/auth/middleware.go.
use openlocalcrm.Base.{
  ℕ, ◌≡◌, ◌≢◌, refl, ◌∙◌, ap, inl, inr, String, Bool, false, not, Option, some, [], ltb, ◌==◌,
  length, arith, eq→≡, Bool-cases, Option-cases, string_comparable, option_comparable,
  nat_comparable,
}
use openlocalcrm.Base.Count.{count, count-retain_none}
use openlocalcrm.Base.Dict.{lookup, insert, lookup-insert, lookup-insert_self}
use openlocalcrm.Base.Text.{Text, text_comparable}
use openlocalcrm.Db.Models.{Uuid, User}
use openlocalcrm.Db.Demo.Users.{
  Users, change_user, current_token_version, next_version, update_user_password,
}
use openlocalcrm.Db.Demo.RefreshTokens.{Tokens, delete_user_refresh_tokens, same_id}
use openlocalcrm.Auth.Session.{AuthState, Library}
use openlocalcrm.Auth.Session.Rotation.{revoke_all_sessions}
use openlocalcrm.Auth.Session.Login.{with_users}
use openlocalcrm.Auth.Session.Account.{change_password}
use openlocalcrm.Auth.Session.Guard.{
  AccessClaims, Credentials, unauthorized, passed, token_of, verify_version, auth_middleware,
}
use openlocalcrm.Auth.Session.Growth.{tokens, tokens-with_users}
use openlocalcrm.Auth.Session.Ending.{bumped, revoke_all_sessions-known}

next_version-apart : (v : ℕ) → next_version v ≢ v
next_version-apart v h = omega (arith, h)

-- A version that is not the stored one does not pass.
verify_version-stale :
    (users : Users) (claims : AccessClaims) (via : Bool) (v : ℕ)
    → current_token_version users (some claims.user_id) ≡ some v
    → claims.token_version ≢ some v
    → verify_version users claims via ≡ unauthorized "session is no longer valid"
unfolding verify_version
verify_version-stale users claims via v stored apart =
    elim (Bool-cases (claims.token_version == some v)) [
      | inl q ↦ absurd (apart (eq→≡ _ _ q))
      | inr q ↦ simp (verify_version, stored, q) refl
    ]

-- What the middleware says of a valid token is what it says of its version.
auth_middleware-valid :
    (validate : Text → Option AccessClaims) (users : Users) (r : Credentials)
    (claims : AccessClaims) (via : Bool)
    → validate (token_of r) ≡ some claims
    → ((b : Bool) → verify_version users claims b ≢ passed claims via)
    → auth_middleware validate users r ≢ passed claims via
unfolding auth_middleware
auth_middleware-valid validate users r claims via valid stale h =
    elim (Bool-cases (token_of r == [])) [
      | inl q ↦ absurd (cc (simp (auth_middleware, q) at h))
      | inr q ↦ absurd (stale _ (simp (auth_middleware, q, valid) at h))
    ]

user_tokens_gone :
    (t : Tokens) (id : ℕ)
    → count (λ r. same_id r.user_id (some id)) (delete_user_refresh_tokens t (some id)) ≡ 0
unfolding delete_user_refresh_tokens
user_tokens_gone t id =
    count-retain_none (λ r. same_id r.user_id (some id)) (λ r. not (same_id r.user_id (some id))) t
      (λ v h. rw h refl)

module _ {A : Type 0} where
  -- Once all sessions of a user are revoked, no refresh token of the user is left, and the middleware
  -- passes no request whose valid access token has the version that the user had before.
  pub revoked_tokens_are_refused :
      (validate : Text → Option AccessClaims) (st : AuthState A) (now id : ℕ) (u : User)
      (r : Credentials) (claims : AccessClaims) (via : Bool)
      → lookup (some id) st.querier.users ≡ some u
      → validate (token_of r) ≡ some claims
      → claims.user_id ≡ id
      → claims.token_version ≡ some u.token_version
      → let st' = (revoke_all_sessions st now (some id)).0 in
        (count (λ t. same_id t.user_id (some id)) (tokens st') ≡ 0)
        × (auth_middleware validate st'.querier.users r ≢ passed claims via)
  unfolding current_token_version
  revoked_tokens_are_refused validate st now id u r claims via known valid own version =
      let whole = revoke_all_sessions-known st now (some id) u known in
      let users = insert (some id) (bumped u now) st.querier.users in
      let stored : current_token_version users (some claims.user_id)
          ≡ some (next_version u.token_version) =
        rw
          (own, current_token_version, lookup-insert_self (some id) (bumped u now) st.querier.users)
          refl in
      let apart : claims.token_version ≢ some (next_version u.token_version) =
        λ h. next_version-apart u.token_version (cc (h, version)) in
      (
        rw whole (user_tokens_gone (tokens st) id),
        rw whole (
            auth_middleware-valid validate users r claims via valid
              (λ b h. absurd (cc (verify_version-stale users claims b _ stored apart, h)))),
      )

-- A change of a user that keeps the version keeps every version.
change_user-version :
    {A : Type 0} (st : AuthState A) (f : User → User) (now : ℕ) (id j : Uuid)
    → ((u : User) → (f u).token_version ≡ u.token_version)
    → current_token_version (with_users st (change_user f st.querier.users now id)).querier.users j
      ≡ current_token_version st.querier.users j
unfolding change_user current_token_version
change_user-version st f now id j keeps = elim (Option-cases (lookup id st.querier.users)) [
  | inl q ↦ simp (change_user, q) refl
  | inr (u, q) ↦
      let found = lookup-insert id j (record (f u) { updated_at = some now }) st.querier.users in
      elim (Bool-cases (id == j)) [
        | inr r ↦ simp (change_user, q, current_token_version, found, r) refl
        | inl r ↦
            let at : lookup j st.querier.users ≡ some u = rw (← eq→≡ id j r) q in
            simp (change_user, q, current_token_version, found, r, at) (ap some (keeps u))
      ]
]

-- The middleware reads nothing of the users but their versions.
auth_middleware-versions :
    (validate : Text → Option AccessClaims) (users users' : Users) (r : Credentials)
    → ((id : Uuid) → current_token_version users' id ≡ current_token_version users id)
    → auth_middleware validate users' r ≡ auth_middleware validate users r
unfolding auth_middleware verify_version
auth_middleware-versions validate users users' r same = elim (Bool-cases (token_of r == [])) [
  | inl q ↦ simp (auth_middleware, q) refl
  | inr q ↦ elim (Option-cases (validate (token_of r))) [
    | inl p ↦ simp (auth_middleware, q, p) refl
    | inr (claims, p) ↦
        simp (auth_middleware, q, p, verify_version, same (some claims.user_id)) refl
  ]
]

module _ {A : Type 0} (lib : Library) where
  change_password_versions :
      (st : AuthState A) (now : ℕ) (slot slot' : Bool) (hash : Option String) (user_id : ℕ)
      (old_password new_password : Text) (id : Uuid)
      → let st' =
          (change_password lib st now slot slot' hash user_id old_password new_password).0 in
        (tokens st' ≡ tokens st)
        × (current_token_version st'.querier.users id ≡ current_token_version st.querier.users id)
  unfolding change_password
  change_password_versions st now slot slot' hash user_id old_password new_password id =
      elim (Bool-cases (ltb (length new_password) 8)) [
        | inl a ↦ simp (change_password, a) (refl, refl)
        | inr a ↦ elim (Option-cases (lookup (some user_id) st.querier.users)) [
          | inl b ↦ simp (change_password, a, b) (refl, refl)
          | inr (user, b) ↦ elim (Bool-cases slot) [
            | inr c ↦ simp (change_password, a, b, c) (refl, refl)
            | inl c ↦ elim (Bool-cases (lib.check_password user.password_hash old_password)) [
              | inr d ↦ simp (change_password, a, b, c, d) (refl, refl)
              | inl d ↦ elim (Bool-cases slot') [
                | inr e ↦ simp (change_password, a, b, c, d, e) (refl, refl)
                | inl e ↦ elim (Option-cases hash) [
                  | inl f ↦ simp (change_password, a, b, c, d, e, f) (refl, refl)
                  | inr (h, f) ↦
                      elim (Option-cases
                        (update_user_password st.querier.users now (some user_id) h)) [
                          | inl g ↦ simp (change_password, a, b, c, d, e, f, g) (refl, refl)
                          | inr (users, g) ↦
                              let changed = with_users st (some users) in
                              let first =
                                change_user-version st (λ u. record u { password_hash = h }) now
                                  (some user_id) id (λ u. refl) in
                              let second =
                                change_user-version changed
                                  (λ u. record u { must_change_password = false }) now
                                  (some user_id) id (λ u. refl) in
                              simp (change_password, a, b, c, d, e, f, g)
                                (tokens-with_users changed _, second ∙ rw g at first)
                        ]
                ]
              ]
            ]
          ]
        ]
      ]

  -- A change of the password, whatever it answers, ends no session: no refresh token is removed or
  -- changed, and the middleware answers every request as it did before, so an access token that was
  -- issued under the old password still passes.
  pub change_password_keeps_sessions :
      (validate : Text → Option AccessClaims) (r : Credentials) (st : AuthState A) (now : ℕ)
      (slot slot' : Bool) (hash : Option String) (user_id : ℕ) (old_password new_password : Text)
      → let st' =
          (change_password lib st now slot slot' hash user_id old_password new_password).0 in
        (tokens st' ≡ tokens st)
        × (auth_middleware validate st'.querier.users r
            ≡ auth_middleware validate st.querier.users r)
  change_password_keeps_sessions validate r st now slot slot' hash user_id old_password
        new_password =
      let kept =
        change_password_versions st now slot slot' hash user_id old_password new_password in
      (
        (kept (some user_id)).0,
        auth_middleware-versions validate st.querier.users
            (change_password lib st now slot slot' hash user_id old_password
              new_password).0.querier.users
            r (λ id. (kept id).1),
      )
