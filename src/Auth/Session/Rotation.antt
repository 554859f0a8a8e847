-- ===== src/Auth/Session/Rotation.antt =====
-- Refresh tokens and the end of sessions in internal/auth/service.go.
use openlocalcrm.Base.{
  ℕ, ◌+◌, String, Bool, true, not, ◌||◌, none, some, [], ltb, ◌==◌, if◌then◌else◌,
  string_comparable,
}
use openlocalcrm.Base.Text.{Text, text_comparable}
use openlocalcrm.Base.Results.{Result, failed, done}
use openlocalcrm.Db.Models.{Uuid, PgTime, User, RefreshToken}
use openlocalcrm.Db.Demo.Users.{get_user_by_id, increment_user_token_version}
use openlocalcrm.Db.Demo.RefreshTokens.{
  create_refresh_token, consume_refresh_token, get_refresh_token_by_hash,
  delete_refresh_token_family, delete_user_refresh_tokens, delete_refresh_token, is_set,
}
use openlocalcrm.Db.Demo.Transactions.{InMemoryQuerier, run_tx}
use openlocalcrm.Auth.Session.{
  Library, AuthError, user_not_active, invalid_refresh_token, no_entropy, signing_failed, no_rows,
  AuthState, Outside, refresh_token_duration, to_pg_text, text_or_empty, log_audit, close_streams,
}

-- The address and the program of a client.
pub record Client : Type 0 where
  pub ip : String
  pub user_agent : String

-- `time.Now().After(t.Time)`; the time of an invalid value is the year 1.
abbrev pub is_past : PgTime → ℕ → Bool
is_past none now = true
is_past (some t) now = ltb t now

-- The version of a user is counted up in a transaction.
unfoldable pub bump_version : InMemoryQuerier → ℕ → Uuid → InMemoryQuerier × Result AuthError ℕ
bump_version q now user_id = elim (increment_user_token_version q.users now user_id) [
  | none ↦ (q, failed no_rows)
  | some users ↦ (record q { users = users }, done now)
]

unfoldable pub revoke_family :
    RefreshToken → ℕ → InMemoryQuerier → InMemoryQuerier × Result AuthError ℕ
revoke_family spent now q =
    bump_version
      (record q { refresh_tokens = delete_refresh_token_family q.refresh_tokens spent.family_id })
      now spent.user_id

unfoldable pub revoke_user_tokens :
    Uuid → ℕ → InMemoryQuerier → InMemoryQuerier × Result AuthError ℕ
revoke_user_tokens user_id now q =
    bump_version (record q { refresh_tokens = delete_user_refresh_tokens q.refresh_tokens user_id })
      now user_id

unfoldable pub replay_reason : RefreshToken → Client → String
replay_reason spent client =
    if not (text_or_empty spent.user_agent == client.user_agent)
      || not (text_or_empty spent.ip_address == client.ip)
    then "refresh_token_reuse_other_client"
    else "refresh_token_reuse"

module _ {A : Type 0} where
  -- The state after a transaction that revokes; the streams are closed once it has committed.
  abbrev pub revoked :
      AuthState A → Uuid → InMemoryQuerier × Result AuthError ℕ → AuthState A × Result AuthError ℕ
  revoked st user_id (q, failed e) = (record st { querier = q }, failed e)
  revoked st user_id (q, done n) =
      (record st { querier = q; revoker = close_streams st.revoker user_id }, done n)

  unfoldable pub handle_replay : AuthState A → RefreshToken → Client → ℕ → AuthState A
  handle_replay st spent client now =
      let (st', ended) = revoked st spent.user_id (run_tx st.querier (revoke_family spent now)) in
      log_audit st' spent.user_id "REFRESH_TOKEN_REUSE" (replay_reason spent client)

  unfoldable pub revoke_all_sessions : AuthState A → ℕ → Uuid → AuthState A × Result AuthError ℕ
  revoke_all_sessions st now user_id =
      revoked st user_id (run_tx st.querier (revoke_user_tokens user_id now))

module _ {A : Type 0} (lib : Library) where
  unfoldable pub revoke_refresh_token_with_audit : AuthState A → Text → AuthState A
  revoke_refresh_token_with_audit st raw =
      let key = lib.hash_token raw in
      let logged : AuthState A = elim (get_refresh_token_by_hash st.querier.refresh_tokens key) [
        | none ↦ st
        | some token ↦ log_audit st token.user_id "LOGOUT" ""
      ] in
      if raw == [] then st else record logged {
        querier = record logged.querier {
          refresh_tokens = delete_refresh_token logged.querier.refresh_tokens key;
        };
      }

module _ (lib : Library) where
  -- The successor of a token that was consumed, and the access token beside it.
  unfoldable pub succeed :
      InMemoryQuerier
      → RefreshToken
      → User
      → Client
      → Outside
      → InMemoryQuerier × Result AuthError (Text × Text)
  succeed q consumed user client o = elim o.raw_refresh [
    | none ↦ (q, failed no_entropy)
    | some fresh ↦
        let tokens = create_refresh_token q.refresh_tokens o.new_id o.now (record {
          user_id = consumed.user_id;
          token_hash = lib.hash_token fresh;
          user_agent = to_pg_text client.user_agent;
          ip_address = to_pg_text client.ip;
          expires_at = some (o.now + refresh_token_duration);
          family_id = consumed.family_id;
        }) in
        elim (lib.sign user o.now) [
          | none ↦ (record q { refresh_tokens = tokens }, failed signing_failed)
          | some access ↦ (record q { refresh_tokens = tokens }, done (access, fresh))
        ]
  ]

  -- The callback of the transaction.
  unfoldable pub rotate :
      String → Client → Outside → InMemoryQuerier → InMemoryQuerier × Result AuthError (Text × Text)
  rotate key client o q = elim (consume_refresh_token q.refresh_tokens o.now key) [
    | none ↦ (q, failed invalid_refresh_token)
    | some (tokens, consumed) ↦
        let q' = record q { refresh_tokens = tokens } in
        elim (get_user_by_id q'.users consumed.user_id) [
          | none ↦ (q', failed no_rows)
          | some user ↦
              if not (user.status == "ACTIVE")
              then (q', failed user_not_active)
              else succeed q' consumed user client o
        ]
  ]

module _ {A : Type 0} where
  unfoldable pub rotated :
      AuthState A
      → InMemoryQuerier × Result AuthError (Text × Text)
      → AuthState A × Result AuthError (Text × Text)
  rotated st (q, answer) = (record st { querier = q }, answer)

module _ {A : Type 0} (lib : Library) where
  unfoldable pub refresh_token :
      AuthState A → Text → Client → Outside → AuthState A × Result AuthError (Text × Text)
  refresh_token st raw client o =
      let key = lib.hash_token raw in
      if raw == []
      then (st, failed invalid_refresh_token)
      else (elim (get_refresh_token_by_hash st.querier.refresh_tokens key) [
        | none ↦ (st, failed invalid_refresh_token)
        | some existing ↦
            if is_past existing.expires_at o.now
            then (st, failed invalid_refresh_token)
            else (if is_set existing.used_at
                then (handle_replay st existing client o.now, failed invalid_refresh_token)
                else rotated st (run_tx st.querier (rotate lib key client o)))
      ])
