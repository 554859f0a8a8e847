-- ===== src/Auth/Session/Ending.antt =====
-- What the revocations of internal/auth/service.go leave, whether the user has a row or not.
use openlocalcrm.Base.{ℕ, ◌≡◌, refl, ap, none, some, option_comparable, nat_comparable}
use openlocalcrm.Base.Dict.{lookup, insert}
use openlocalcrm.Base.Results.{failed, done}
use openlocalcrm.Db.Models.{Uuid, User, RefreshToken}
use openlocalcrm.Db.Demo.Users.{change_user, next_version}
use openlocalcrm.Db.Demo.RefreshTokens.{
  Tokens, delete_refresh_token_family, delete_user_refresh_tokens,
}
use openlocalcrm.Db.Demo.Transactions.{InMemoryQuerier, run_tx-failed, run_tx-done}
use openlocalcrm.Auth.Session.{no_rows, AuthState, close_streams}
use openlocalcrm.Auth.Session.Rotation.{
  Client, bump_version, revoke_family, revoke_user_tokens, revoked, handle_replay,
  revoke_all_sessions,
}

-- The user's row with the next version.
abbrev pub bumped : User → ℕ → User
bumped u now = record u { token_version = next_version u.token_version; updated_at = some now }

-- The database after its tokens became `tokens` and the user's version was counted up.
abbrev pub after_bump : InMemoryQuerier → Tokens → ℕ → Uuid → User → InMemoryQuerier
after_bump q tokens now id u = record q {
  refresh_tokens = tokens;
  users = insert id (bumped u now) q.users;
}

bump_version-known :
    (q : InMemoryQuerier) (now : ℕ) (id : Uuid) (u : User)
    → lookup id q.users ≡ some u
    → bump_version q now id ≡ (record q { users = insert id (bumped u now) q.users }, done now)
unfolding bump_version change_user
bump_version-known q now id u h = simp (bump_version, change_user, h) refl

bump_version-missing :
    (q : InMemoryQuerier) (now : ℕ) (id : Uuid)
    → lookup id q.users ≡ none
    → (bump_version q now id).1 ≡ failed no_rows
unfolding bump_version change_user
bump_version-missing q now id h = simp (bump_version, change_user, h) refl

module _ {A : Type 0} (st : AuthState A) (now : ℕ) where
  -- The state after a revocation that commits.
  abbrev pub ended : Tokens → Uuid → User → AuthState A
  ended tokens id u = record st {
    querier = after_bump st.querier tokens now id u;
    revoker = close_streams st.revoker id;
  }

  pub revoke_all_sessions-known :
      (id : Uuid) (u : User)
      → lookup id st.querier.users ≡ some u
      → revoke_all_sessions st now id
        ≡ (ended (delete_user_refresh_tokens st.querier.refresh_tokens id) id u, done now)
  unfolding revoke_all_sessions revoke_user_tokens
  revoke_all_sessions-known id u h =
      let tokens = delete_user_refresh_tokens st.querier.refresh_tokens id in
      ap (revoked st id) (
        run_tx-done st.querier (after_bump st.querier tokens now id u) (revoke_user_tokens id now)
          now (bump_version-known (record st.querier { refresh_tokens = tokens }) now id u h))

  pub revoke_all_sessions-missing :
      (id : Uuid)
      → lookup id st.querier.users ≡ none
      → revoke_all_sessions st now id ≡ (st, failed no_rows)
  unfolding revoke_all_sessions revoke_user_tokens
  revoke_all_sessions-missing id h =
      let tokens = delete_user_refresh_tokens st.querier.refresh_tokens id in
      ap (revoked st id) (
        run_tx-failed st.querier (revoke_user_tokens id now) no_rows
          (bump_version-missing (record st.querier { refresh_tokens = tokens }) now id h))

  pub handle_replay-known :
      (spent : RefreshToken) (client : Client) (u : User)
      → lookup spent.user_id st.querier.users ≡ some u
      → (handle_replay st spent client now).querier
        ≡ after_bump st.querier
            (delete_refresh_token_family st.querier.refresh_tokens spent.family_id)
            now
            spent.user_id
            u
  unfolding handle_replay revoke_family
  handle_replay-known spent client u h =
      let tokens = delete_refresh_token_family st.querier.refresh_tokens spent.family_id in
      ap (λ r. (revoked st spent.user_id r).0.querier)
        (run_tx-done st.querier (after_bump st.querier tokens now spent.user_id u)
          (revoke_family spent now) now
          (bump_version-known (record st.querier { refresh_tokens = tokens }) now spent.user_id u
            h))

  pub handle_replay-streams :
      (spent : RefreshToken) (client : Client) (u : User)
      → lookup spent.user_id st.querier.users ≡ some u
      → (handle_replay st spent client now).revoker ≡ close_streams st.revoker spent.user_id
  unfolding handle_replay revoke_family
  handle_replay-streams spent client u h =
      let tokens = delete_refresh_token_family st.querier.refresh_tokens spent.family_id in
      ap (λ r. (revoked st spent.user_id r).0.revoker)
        (run_tx-done st.querier (after_bump st.querier tokens now spent.user_id u)
          (revoke_family spent now) now
          (bump_version-known (record st.querier { refresh_tokens = tokens }) now spent.user_id u
            h))

  pub handle_replay-missing :
      (spent : RefreshToken) (client : Client)
      → lookup spent.user_id st.querier.users ≡ none
      → (handle_replay st spent client now).querier ≡ st.querier
  unfolding handle_replay revoke_family
  handle_replay-missing spent client h =
      let tokens = delete_refresh_token_family st.querier.refresh_tokens spent.family_id in
      ap (λ r. (revoked st spent.user_id r).0.querier)
        (run_tx-failed st.querier (revoke_family spent now) no_rows (
          bump_version-missing (record st.querier { refresh_tokens = tokens }) now spent.user_id h))
