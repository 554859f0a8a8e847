-- ===== src/Auth/Session/Spent.antt =====
-- A refresh token of internal/auth/service.go that was refreshed is refused ever after.
use openlocalcrm.Base.{
  ℕ, ◌≡◌, ◌≢◌, refl, ap, inl, inr, String, true, false, none, some, [], ◌==◌, Bool-cases,
  Option-cases, eq→≡, string_comparable, option_comparable, nat_comparable,
}
use openlocalcrm.Base.Dict.{lookup, insert, lookup-insert, lookup-insert_self}
use openlocalcrm.Base.Text.{Text, text_comparable}
use openlocalcrm.Base.Results.{failed, done}
use openlocalcrm.Db.Models.{User, RefreshToken}
use openlocalcrm.Db.Demo.RefreshTokens.{Tokens, new_token, create_refresh_token}
use openlocalcrm.Auth.Session.{invalid_refresh_token, AuthState, Outside, Library}
use openlocalcrm.Auth.Session.Rotation.{Client, is_past, refresh_token}
use openlocalcrm.Auth.Session.Growth.{tokens}
use openlocalcrm.Auth.Session.Refresh.{
  Presented, refused, replayed, renewed, renewed_tokens, successor, used, refresh_token-cases,
  refresh_token-used,
}
use openlocalcrm.Auth.Session.Replay.{FamilyEnded, reuse_ends_family}
use openlocalcrm.Auth.Session.Later.{Spent, Later, later-Spent}

still_there :
    (lib : Library) (t : Tokens) (raw fresh : Text) (spent : RefreshToken) (client : Client)
    (o : Outside)
    → lib.hash_token fresh ≢ lib.hash_token raw
    → lookup (lib.hash_token raw) (renewed_tokens lib t raw fresh spent client o)
      ≡ some (used spent o.now)
unfolding create_refresh_token
still_there lib t raw fresh spent client o apart =
    let old = lookup-insert_self (lib.hash_token raw) (used spent o.now) t in
    let new =
      lookup-insert (lib.hash_token fresh) (lib.hash_token raw)
        (new_token o.new_id o.now (successor lib fresh spent client o))
        (insert (lib.hash_token raw) (used spent o.now) t) in
    elim (Bool-cases (lib.hash_token fresh == lib.hash_token raw)) [
      | inl q ↦ absurd (apart (eq→≡ _ _ q))
      | inr q ↦ cc (rw q at new, old)
    ]

module _ {A : Type 0} (lib : Library) where
  -- What a replay meets: no row, an expired one, one of an unknown user, or it ends the sessions.
  pub data Replayed (st st' : AuthState A) (key : String) (spent : RefreshToken) (now f : ℕ)
      : Type 0 where
    row_gone : lookup key (tokens st) ≡ none → Replayed st st' key spent now f
    row_expired : is_past spent.expires_at now ≡ true → Replayed st st' key spent now f
    user_gone : lookup spent.user_id st.querier.users ≡ none → Replayed st st' key spent now f
    sessions_ended :
        (u : User)
        → lookup spent.user_id st.querier.users ≡ some u
        → FamilyEnded st st' f u spent.user_id
        → Replayed st st' key spent now f

  refresh_token-missing :
      (st : AuthState A) (raw : Text) (client : Client) (o : Outside)
      → lookup (lib.hash_token raw) (tokens st) ≡ none
      → (refresh_token lib st raw client o).1 ≡ failed invalid_refresh_token
  unfolding refresh_token
  refresh_token-missing st raw client o gone = elim (Bool-cases (raw == [])) [
    | inl q ↦ simp (refresh_token, q) refl
    | inr q ↦ simp (refresh_token, q, gone) refl
  ]

  refresh_token-expired :
      (st : AuthState A) (raw : Text) (client : Client) (o : Outside) (w : RefreshToken)
      → lookup (lib.hash_token raw) (tokens st) ≡ some w
      → is_past w.expires_at o.now ≡ true
      → (refresh_token lib st raw client o).1 ≡ failed invalid_refresh_token
  unfolding refresh_token
  refresh_token-expired st raw client o w there over = elim (Bool-cases (raw == [])) [
    | inl q ↦ simp (refresh_token, q) refl
    | inr q ↦ simp (refresh_token, q, there, over) refl
  ]

  Spent-Replayed :
      (st : AuthState A) (raw : Text) (client : Client) (o : Outside) (spent : RefreshToken)
      (at f : ℕ)
      → (raw == []) ≡ false
      → spent.family_id ≡ some f
      → Spent (lib.hash_token raw) (used spent at) (tokens st)
      → ((refresh_token lib st raw client o).1 ≡ failed invalid_refresh_token)
        × Replayed st (refresh_token lib st raw client o).0 (lib.hash_token raw) spent o.now f
  Spent-Replayed st raw client o spent at f full own (inl gone) =
      (refresh_token-missing st raw client o gone, row_gone gone)
  Spent-Replayed st raw client o spent at f full own (inr there) =
      elim (Bool-cases (is_past spent.expires_at o.now)) [
        | inl q ↦ (refresh_token-expired st raw client o (used spent at) there q, row_expired q)
        | inr q ↦
            let given : Presented lib (tokens st) raw o.now (used spent at) = record {
              stored = there;
              current = q;
            } in
            elim (Option-cases (lookup spent.user_id st.querier.users)) [
              | inl r ↦ (
                ap (λ r. r.1)
                    (refresh_token-used lib st raw client o (used spent at) full given refl),
                user_gone r,
              )
              | inr (u, r) ↦
                  let (no', over) =
                    reuse_ends_family lib st raw client o (used spent at) u f full given refl r
                      own in
                  (no', sessions_ended u r over)
            ]
      ]

  -- A refresh of a token that belongs to a family keeps its row, marked as used, and the token is
  -- refused, whoever sends it and whenever, in every later state that logins, refreshes, logouts,
  -- revocations, the cleanup and whatever else leaves the refresh tokens alone lead to, where each
  -- token that is drawn, the first successor included, has another hash. The refused attempt ends
  -- the sessions of the family and of the user as they are then: no token of the family is left, the
  -- user has the next token version and the user's streams are closed; it does not, if the row was
  -- deleted before (by a logout with the old token, an earlier replay, a revocation or the cleanup),
  -- if the token has expired, or if the user has no row.
  pub refreshed_once :
      (st later : AuthState A) (raw access fresh : Text) (client thief : Client) (o o' : Outside)
      (spent : RefreshToken) (f : ℕ)
      → (raw == []) ≡ false
      → lookup (lib.hash_token raw) (tokens st) ≡ some spent
      → spent.family_id ≡ some f
      → lib.hash_token fresh ≢ lib.hash_token raw
      → (refresh_token lib st raw client o).1 ≡ done (access, fresh)
      → Later lib (lib.hash_token raw) (refresh_token lib st raw client o).0 later
      → (lookup (lib.hash_token raw) (tokens (refresh_token lib st raw client o).0)
          ≡ some (used spent o.now))
        × ((refresh_token lib later raw thief o').1 ≡ failed invalid_refresh_token)
        × Replayed later
            (refresh_token lib later raw thief o').0
            (lib.hash_token raw)
            spent
            o'.now
            f
  refreshed_once st later raw access fresh client thief o o' spent f full stored own apart ok l =
      elim (refresh_token-cases lib st raw client o) [
        | refused e out ↦ absurd (cc (rw out at ok))
        | replayed other found w out ↦ absurd (cc (rw out at ok))
        | renewed other user access' fresh' found unused known active drawn signed out ↦
            let same : fresh' ≡ fresh = cc (rw out at ok) in
            let one : other ≡ spent = cc (found.stored, stored) in
            let first : lookup (lib.hash_token raw) (tokens (refresh_token lib st raw client o).0)
                ≡ some (used spent o.now) =
              rw (out, same, one) (still_there lib (tokens st) raw fresh spent client o apart) in
            let (no', seen) = Spent-Replayed later raw thief o' spent o.now f full own (
              later-Spent lib (lib.hash_token raw) (used spent o.now)
                (refresh_token lib st raw client o).0 later refl l (inr first)) in
            (first, no', seen)
      ]
