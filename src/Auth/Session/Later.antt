-- ===== src/Auth/Session/Later.antt =====
-- The row of a refresh token of internal/auth/service.go that was used, through all later calls.
use openlocalcrm.Base.{
  ℕ, ◌≡◌, ◌⊎◌, refl, inl, inr, String, Bool, true, false, not, none, some, [], ◌==◌, Bool-cases,
  Option-cases, eq→≡, string_comparable, option_comparable, nat_comparable, arith,
}
use openlocalcrm.Base.Dict.{
  kept, lookup, insert, delete, lookup-insert, lookup-retain, lookup-delete,
}
use openlocalcrm.Base.Text.{Text, text_comparable}
use openlocalcrm.Db.Models.{Uuid, RefreshToken}
use openlocalcrm.Db.Demo.RefreshTokens.{
  Tokens, create_refresh_token, delete_refresh_token_family, delete_user_refresh_tokens,
  delete_expired_and_spent_refresh_tokens, is_set,
}
use openlocalcrm.Auth.Session.{AuthState, Outside, Library}
use openlocalcrm.Auth.Session.Login.{LoginRequest, login}
use openlocalcrm.Auth.Session.Rotation.{
  Client, refresh_token, revoke_all_sessions, revoke_refresh_token_with_audit,
}
use openlocalcrm.Auth.Session.Growth.{Grown, unchanged, added, tokens, login-Grown}
use openlocalcrm.Auth.Session.Refresh.{refused, replayed, renewed, used, refresh_token-cases}
use openlocalcrm.Auth.Session.Ending.{
  revoke_all_sessions-known, revoke_all_sessions-missing, handle_replay-known,
  handle_replay-missing,
}

-- The refresh token that is drawn, if any, has another hash.
abbrev pub is_apart : Library → String → Outside → Bool
is_apart lib key o = elim o.raw_refresh [ none ↦ true | some raw ↦ not (lib.hash_token raw == key) ]

-- The table holds nothing under the hash, or this row.
abbrev pub Spent : String → RefreshToken → Tokens → Type 0
Spent key w t = (lookup key t ≡ none) ⊎ (lookup key t ≡ some w)

retained-Spent :
    (key : String) (w : RefreshToken) (t t' : Tokens) (p : RefreshToken → Bool)
    → lookup key t' ≡ kept p (lookup key t)
    → Spent key w t
    → Spent key w t'
retained-Spent key w t t' p left (inl gone) = inl (rw (left, gone) refl)
retained-Spent key w t t' p left (inr there) = elim (Bool-cases (p w)) [
  | inl q ↦ inr (rw (left, there, q) refl)
  | inr q ↦ inl (rw (left, there, q) refl)
]

inserted-Spent :
    (key h : String) (w r : RefreshToken) (t : Tokens)
    → (h == key) ≡ false
    → Spent key w t
    → Spent key w (insert h r t)
inserted-Spent key h w r t other s =
    let same : lookup key (insert h r t) ≡ lookup key t =
      rw (lookup-insert h key r t, other) refl in
    rw same s

deleted-Spent :
    (key h : String) (w : RefreshToken) (t : Tokens) → Spent key w t → Spent key w (delete h t)
deleted-Spent key h w t s = elim (Bool-cases (h == key)) [
  | inl q ↦ inl (rw (lookup-delete h key t, q) refl)
  | inr q ↦
      let same : lookup key (delete h t) ≡ lookup key t = rw (lookup-delete h key t, q) refl in
      rw same s
]

drawn_apart :
    (lib : Library) (key : String) (o : Outside) (raw : Text)
    → is_apart lib key o ≡ true
    → o.raw_refresh ≡ some raw
    → (lib.hash_token raw == key) ≡ false
drawn_apart lib key o raw apart drawn = ground (arith, rw drawn at apart)

module _ {A : Type 0} (lib : Library) (key : String) (w : RefreshToken)
    (consumed : is_set w.used_at ≡ true) where
  login-Spent :
      (st : AuthState A) (req : LoginRequest) (o : Outside)
      → is_apart lib key o ≡ true
      → Spent key w (tokens st)
      → Spent key w (tokens (login lib st req o).0)
  login-Spent st req o apart s = grown (tokens (login lib st req o).0) (login-Grown lib st req o)
    where
      grown : (after : Tokens) → Grown lib o (tokens st) after → Spent key w after
      grown _ unchanged = s
      grown _ (added raw r drawn own) =
          inserted-Spent key (lib.hash_token raw) w r (tokens st)
            (drawn_apart lib key o raw apart drawn) s

  refresh-Spent :
      (st : AuthState A) (raw : Text) (client : Client) (o : Outside)
      → is_apart lib key o ≡ true
      → Spent key w (tokens st)
      → Spent key w (tokens (refresh_token lib st raw client o).0)
  unfolding create_refresh_token delete_refresh_token_family
  refresh-Spent st raw client o apart s = elim (refresh_token-cases lib st raw client o) [
    | refused e out ↦ rw out s
    | replayed spent given was_used out ↦
        rw out (elim (Option-cases (lookup spent.user_id st.querier.users)) [
          | inl q ↦ rw (handle_replay-missing st o.now spent client q) s
          | inr (u, q) ↦
              rw (handle_replay-known st o.now spent client u q)
                (retained-Spent key w (tokens st) _ _ (lookup-retain _ key (tokens st)) s)
        ])
    | renewed spent user access fresh given unused known active drawn signed out ↦
        let other : (lib.hash_token raw == key) ≡ false =
          elim (Bool-cases (lib.hash_token raw == key)) [
            | inr q ↦ q
            | inl q ↦
                let stored = rw (eq→≡ (lib.hash_token raw) key q) at given.stored in
                elim s [
                  | inl gone ↦ absurd (cc (gone, stored))
                  | inr there ↦
                      let one : w ≡ spent = cc (there, stored) in
                      absurd (cc (rw one at consumed, unused))
                ]
          ] in
        rw out (
          inserted-Spent key (lib.hash_token fresh) w _ _ (drawn_apart lib key o fresh apart drawn)
            (inserted-Spent key (lib.hash_token raw) w (used spent o.now) (tokens st) other s))
  ]

  ends_all-Spent :
      (st : AuthState A) (now : ℕ) (id : Uuid)
      → Spent key w (tokens st)
      → Spent key w (tokens (revoke_all_sessions st now id).0)
  unfolding delete_user_refresh_tokens
  ends_all-Spent st now id s = elim (Option-cases (lookup id st.querier.users)) [
    | inl q ↦ rw (revoke_all_sessions-missing st now id q) s
    | inr (u, q) ↦
        rw (revoke_all_sessions-known st now id u q)
          (retained-Spent key w (tokens st) _ _ (lookup-retain _ key (tokens st)) s)
  ]

  logs_out-Spent :
      (st : AuthState A) (raw : Text)
      → Spent key w (tokens st)
      → Spent key w (tokens (revoke_refresh_token_with_audit lib st raw))
  unfolding revoke_refresh_token_with_audit
  logs_out-Spent st raw s =
      let gone = deleted-Spent key (lib.hash_token raw) w (tokens st) s in
      elim (Bool-cases (raw == [])) [
        | inl q ↦ rw q s
        | inr q ↦ elim (Option-cases (lookup (lib.hash_token raw) (tokens st))) [
          | inl r ↦ simp (q, r) gone
          | inr (t, r) ↦ simp (q, r) gone
        ]
      ]

-- The later states of the service: logins and refreshes whose tokens have other hashes, logouts,
-- revocations and the cleanup, and whatever else leaves the refresh tokens alone.
pub data Later {A : Type 0} (lib : Library) (key : String) (st : AuthState A)
    : AuthState A → Type 0 where
  now_on : Later lib key st st
  logs_in :
      {d : AuthState A} (req : LoginRequest) (o : Outside)
      → is_apart lib key o ≡ true
      → Later lib key st d
      → Later lib key st (login lib d req o).0
  refreshes :
      {d : AuthState A} (raw : Text) (client : Client) (o : Outside)
      → is_apart lib key o ≡ true
      → Later lib key st d
      → Later lib key st (refresh_token lib d raw client o).0
  logs_out :
      {d : AuthState A} (raw : Text)
      → Later lib key st d
      → Later lib key st (revoke_refresh_token_with_audit lib d raw)
  ends_all :
      {d : AuthState A} (now : ℕ) (id : Uuid)
      → Later lib key st d
      → Later lib key st (revoke_all_sessions d now id).0
  cleans_up :
      {d : AuthState A} (now : ℕ)
      → Later lib key st d
      → Later lib key st (record d {
        querier = record d.querier {
          refresh_tokens = delete_expired_and_spent_refresh_tokens (tokens d) now;
        };
      })
  elsewhere :
      {d : AuthState A} (next : AuthState A)
      → tokens next ≡ tokens d
      → Later lib key st d
      → Later lib key st next

module _ {A : Type 0} (lib : Library) where
  pub later-Spent :
      (key : String) (w : RefreshToken) (st later : AuthState A)
      → is_set w.used_at ≡ true
      → Later lib key st later
      → Spent key w (tokens st)
      → Spent key w (tokens later)
  unfolding delete_expired_and_spent_refresh_tokens
  later-Spent key w st _ c now_on s = s
  later-Spent key w st _ c (logs_in {d} req o apart l) s =
      login-Spent lib key w c d req o apart (later-Spent key w st d c l s)
  later-Spent key w st _ c (refreshes {d} raw client o apart l) s =
      refresh-Spent lib key w c d raw client o apart (later-Spent key w st d c l s)
  later-Spent key w st _ c (logs_out {d} raw l) s =
      logs_out-Spent lib key w c d raw (later-Spent key w st d c l s)
  later-Spent key w st _ c (ends_all {d} now id l) s =
      ends_all-Spent lib key w c d now id (later-Spent key w st d c l s)
  later-Spent key w st _ c (cleans_up {d} now l) s =
      retained-Spent key w (tokens d) _ _ (lookup-retain _ key (tokens d))
        (later-Spent key w st d c l s)
  later-Spent key w st _ c (elsewhere {d} next same l) s = rw same (later-Spent key w st d c l s)
