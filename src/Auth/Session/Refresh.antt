-- ===== src/Auth/Session/Refresh.antt =====
-- The outcomes of `RefreshToken` of internal/auth/service.go: it refuses and changes nothing, it ends
-- the family of a token that was used already, or it puts a successor in the place of the token.
use openlocalcrm.Base.{
  ℕ, ◌+◌, ◌≡◌, refl, ap, inl, inr, true, false, none, some, [], ◌==◌, Bool-cases, Option-cases,
  string_comparable, option_comparable, nat_comparable,
}
use openlocalcrm.Base.Dict.{lookup, insert}
use openlocalcrm.Base.Text.{Text, text_comparable}
use openlocalcrm.Base.Results.{Result, failed, done}
use openlocalcrm.Db.Models.{PgTime, User, RefreshToken}
use openlocalcrm.Db.Demo.Users.{get_user_by_id}
use openlocalcrm.Db.Demo.RefreshTokens.{
  Tokens, CreateRefreshTokenParams, create_refresh_token, consume_refresh_token, is_set, is_before,
}
use openlocalcrm.Db.Demo.Transactions.{InMemoryQuerier, run_tx, run_tx-failed, run_tx-done}
use openlocalcrm.Auth.Session.{
  AuthError, no_rows, user_not_active, no_entropy, signing_failed, invalid_refresh_token, AuthState,
  Outside, Library, refresh_token_duration, to_pg_text,
}
use openlocalcrm.Auth.Session.Rotation.{
  Client, is_past, handle_replay, succeed, rotate, rotated, refresh_token,
}

-- The row of the successor.
abbrev pub successor : Library → Text → RefreshToken → Client → Outside → CreateRefreshTokenParams
successor lib fresh spent client o = record {
  user_id = spent.user_id;
  token_hash = lib.hash_token fresh;
  user_agent = to_pg_text client.user_agent;
  ip_address = to_pg_text client.ip;
  expires_at = some (o.now + refresh_token_duration);
  family_id = spent.family_id;
}

abbrev pub used : RefreshToken → ℕ → RefreshToken
used spent now = record spent { used_at = some now }

-- The table after the token is used and has its successor.
abbrev pub renewed_tokens :
    Library → Tokens → Text → Text → RefreshToken → Client → Outside → Tokens
renewed_tokens lib tokens raw fresh spent client o =
    create_refresh_token (insert (lib.hash_token raw) (used spent o.now) tokens) o.new_id o.now
      (successor lib fresh spent client o)

-- A token that is stored and has not expired.
pub record Presented (lib : Library) (tokens : Tokens) (raw : Text) (now : ℕ) (spent : RefreshToken)
    : Type 0 where
  pub stored : lookup (lib.hash_token raw) tokens ≡ some spent
  pub current : is_past spent.expires_at now ≡ false

module _ {A : Type 0} (lib : Library) where
  pub data Refreshed (st : AuthState A) (raw : Text) (client : Client) (o : Outside)
      (out : AuthState A × Result AuthError (Text × Text)) : Type 0 where
    refused : (e : AuthError) → out ≡ (st, failed e) → Refreshed st raw client o out
    replayed :
        (spent : RefreshToken)
        → Presented lib st.querier.refresh_tokens raw o.now spent
        → is_set spent.used_at ≡ true
        → out ≡ (handle_replay st spent client o.now, failed invalid_refresh_token)
        → Refreshed st raw client o out
    renewed :
        (spent : RefreshToken) (user : User) (access fresh : Text)
        → Presented lib st.querier.refresh_tokens raw o.now spent
        → is_set spent.used_at ≡ false
        → get_user_by_id st.querier.users spent.user_id ≡ some user
        → (user.status == "ACTIVE") ≡ true
        → o.raw_refresh ≡ some fresh
        → lib.sign user o.now ≡ some access
        → out ≡ (
          record st {
            querier = record st.querier {
              refresh_tokens =
                  renewed_tokens lib st.querier.refresh_tokens raw fresh spent client o;
            };
          },
          done (access, fresh),
        )
        → Refreshed st raw client o out

is_past-before : (t : PgTime) (now : ℕ) → is_past t now ≡ false → is_before t now ≡ false
is_past-before none now h = absurd (cc h)
is_past-before (some t) now h = h

consume-Presented :
    (lib : Library) (tokens : Tokens) (raw : Text) (now : ℕ) (spent : RefreshToken)
    → Presented lib tokens raw now spent
    → is_set spent.used_at ≡ false
    → consume_refresh_token tokens now (lib.hash_token raw)
      ≡ some (insert (lib.hash_token raw) (record spent { used_at = some now }) tokens, spent)
unfolding consume_refresh_token
consume-Presented lib tokens raw now spent given unused =
    simp
      (
        consume_refresh_token,
        given.stored,
        unused,
        is_past-before spent.expires_at now given.current,
      )
      refl

module _ {A : Type 0} (lib : Library) (st : AuthState A) (raw : Text) (client : Client)
    (o : Outside) where
  abbrev attempt : InMemoryQuerier × Result AuthError (Text × Text)
  attempt = rotate lib (lib.hash_token raw) client o st.querier

  abbrev outcome : AuthState A × Result AuthError (Text × Text)
  outcome = rotated st (run_tx st.querier (rotate lib (lib.hash_token raw) client o))

  rolled_back : (e : AuthError) → attempt.1 ≡ failed e → Refreshed lib st raw client o outcome
  unfolding rotated
  rolled_back e h =
      refused e
        (ap (rotated st) (run_tx-failed st.querier (rotate lib (lib.hash_token raw) client o) e h))

  rotation-Refreshed :
      (spent : RefreshToken)
      → Presented lib st.querier.refresh_tokens raw o.now spent
      → is_set spent.used_at ≡ false
      → Refreshed lib st raw client o outcome
  unfolding rotated rotate succeed
  rotation-Refreshed spent given unused =
      let consumed = consume-Presented lib st.querier.refresh_tokens raw o.now spent given unused in
      elim (Option-cases (get_user_by_id st.querier.users spent.user_id)) [
        | inl q ↦ rolled_back no_rows (simp (rotate, consumed, q) refl)
        | inr (user, q) ↦ elim (Bool-cases (user.status == "ACTIVE")) [
          | inr r ↦ rolled_back user_not_active (simp (rotate, consumed, q, r) refl)
          | inl r ↦ elim (Option-cases o.raw_refresh) [
            | inl s ↦ rolled_back no_entropy (simp (rotate, consumed, q, r, succeed, s) refl)
            | inr (fresh, s) ↦ elim (Option-cases (lib.sign user o.now)) [
              | inl t ↦
                  rolled_back signing_failed (simp (rotate, consumed, q, r, succeed, s, t) refl)
              | inr (access, t) ↦
                  let shadow : InMemoryQuerier = record st.querier {
                    refresh_tokens =
                        renewed_tokens lib st.querier.refresh_tokens raw fresh spent client o;
                  } in
                  let ran : attempt ≡ (shadow, done (access, fresh)) =
                    simp (rotate, consumed, q, r, succeed, s, t) refl in
                  let made =
                    run_tx-done st.querier shadow (rotate lib (lib.hash_token raw) client o)
                      (access, fresh) ran in
                  renewed spent user access fresh given unused q r s t (ap (rotated st) made)
            ]
          ]
        ]
      ]

module _ {A : Type 0} (lib : Library) where
  pub refresh_token-used :
      (st : AuthState A) (raw : Text) (client : Client) (o : Outside) (spent : RefreshToken)
      → (raw == []) ≡ false
      → Presented lib st.querier.refresh_tokens raw o.now spent
      → is_set spent.used_at ≡ true
      → refresh_token lib st raw client o
        ≡ (handle_replay st spent client o.now, failed invalid_refresh_token)
  unfolding refresh_token
  refresh_token-used st raw client o spent q given t =
      simp (refresh_token, q, given.stored, given.current, t) refl

  pub refresh_token-cases :
      (st : AuthState A) (raw : Text) (client : Client) (o : Outside)
      → Refreshed lib st raw client o (refresh_token lib st raw client o)
  unfolding refresh_token
  refresh_token-cases st raw client o = elim (Bool-cases (raw == [])) [
    | inl q ↦ simp q (refused _ refl)
    | inr q ↦ elim (Option-cases (lookup (lib.hash_token raw) st.querier.refresh_tokens)) [
      | inl r ↦ simp (q, r) (refused _ refl)
      | inr (spent, r) ↦ elim (Bool-cases (is_past spent.expires_at o.now)) [
        | inl s ↦ simp (q, r, s) (refused _ refl)
        | inr s ↦
            let given : Presented lib st.querier.refresh_tokens raw o.now spent = record {
              stored = r;
              current = s;
            } in
            elim (Bool-cases (is_set spent.used_at)) [
              | inl t ↦ simp (q, r, s, t) (replayed spent given t refl)
              | inr t ↦ simp (q, r, s, t) (rotation-Refreshed lib st raw client o spent given t)
            ]
      ]
    ]
  ]
