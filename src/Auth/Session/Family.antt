-- ===== src/Auth/Session/Family.antt =====
-- The families of refresh tokens of internal/auth/service.go, through all calls of the service and
-- the cleanup job.
use openlocalcrm.Base.{
  ℕ, ◌≡◌, subst, ap, ◌≤◌, ◌+◌, inl, inr, String, Bool, true, false, not, ◌&&◌, some, [], ◌==◌,
  arith, Bool-cases, Option-cases, eq→≡, nat_comparable, string_comparable, option_comparable,
}
use openlocalcrm.Base.Count.{bit, count, count-insert, count-delete-le, count-retain-le}
use openlocalcrm.Base.Dict.{insert, lookup}
use openlocalcrm.Base.Text.{Text, text_comparable}
use openlocalcrm.Db.Models.{Uuid, RefreshToken}
use openlocalcrm.Db.Demo.RefreshTokens.{
  Tokens, new_token, create_refresh_token, delete_refresh_token_family, delete_user_refresh_tokens,
  delete_expired_and_spent_refresh_tokens, is_set, same_id,
}
use openlocalcrm.Auth.Session.{AuthState, Outside, Library}
use openlocalcrm.Auth.Session.Login.{LoginRequest, login}
use openlocalcrm.Auth.Session.Rotation.{
  Client, revoke_all_sessions, revoke_refresh_token_with_audit, refresh_token,
}
use openlocalcrm.Auth.Session.Growth.{Grown, unchanged, added, tokens, login-Grown}
use openlocalcrm.Auth.Session.Refresh.{
  refused, replayed, renewed, renewed_tokens, successor, used, refresh_token-cases,
}
use openlocalcrm.Auth.Session.Ending.{
  revoke_all_sessions-known, revoke_all_sessions-missing, handle_replay-known,
  handle_replay-missing,
}

-- A token of the family that was not used.
abbrev pub is_live : ℕ → RefreshToken → Bool
is_live f t = not (is_set t.used_at) && same_id t.family_id (some f)

unfoldable pub live : ℕ → Tokens → ℕ
live f table = count (is_live f) table

pub data Reachable {A : Type 0} (lib : Library) : AuthState A → Type 0 where
  start : (st : AuthState A) → tokens st ≡ [] → Reachable lib st
  logs_in :
      {st : AuthState A} (req : LoginRequest) (o : Outside)
      → live o.family (tokens st) ≡ 0
      → Reachable lib st
      → Reachable lib (login lib st req o).0
  refreshes :
      {st : AuthState A} (raw : Text) (client : Client) (o : Outside)
      → Reachable lib st
      → Reachable lib (refresh_token lib st raw client o).0
  logs_out :
      {st : AuthState A} (raw : Text)
      → Reachable lib st
      → Reachable lib (revoke_refresh_token_with_audit lib st raw)
  ends_all :
      {st : AuthState A} (now : ℕ) (id : Uuid)
      → Reachable lib st
      → Reachable lib (revoke_all_sessions st now id).0
  cleans_up :
      {st : AuthState A} (now : ℕ)
      → Reachable lib st
      → Reachable lib (record st {
        querier = record st.querier {
          refresh_tokens = delete_expired_and_spent_refresh_tokens (tokens st) now;
        };
      })

bit-and-le : (b c : Bool) → bit (b && c) ≤ bit c
bit-and-le true c = omega arith
bit-and-le false c = omega arith

added_live :
    (f g : ℕ) (h : String) (r : RefreshToken) (t : Tokens)
    → r.family_id ≡ some g
    → live f (insert h r t) ≤ live f t + bit (g == f)
unfolding live
added_live f g h r t own =
    let weight : bit (is_live f r) ≤ bit (g == f) =
      subst (λ id. bit (is_live f r) ≤ bit (same_id id (some f))) own
        (bit-and-le (not (is_set r.used_at)) (same_id r.family_id (some f))) in
    omega (arith, count-insert (is_live f) h r t, weight)

-- The successor takes the place of the token that is used.
renewed_live :
    (lib : Library) (f : ℕ) (t : Tokens) (raw fresh : Text) (spent : RefreshToken) (client : Client)
    (o : Outside)
    → lookup (lib.hash_token raw) t ≡ some spent
    → is_set spent.used_at ≡ false
    → live f (renewed_tokens lib t raw fresh spent client o) ≤ live f t
unfolding live create_refresh_token
renewed_live lib f t raw fresh spent client o stored unused =
    let was : bit (is_live f spent) ≡ bit (same_id spent.family_id (some f)) =
      ap (λ b. bit (not b && same_id spent.family_id (some f))) unused in
    let consumed = count-insert (is_live f) (lib.hash_token raw) (used spent o.now) t in
    let counted = rw stored at consumed in
    let inserted =
      count-insert (is_live f) (lib.hash_token fresh)
        (new_token o.new_id o.now (successor lib fresh spent client o))
        (insert (lib.hash_token raw) (used spent o.now) t) in
    omega (arith, was, counted, inserted)

Grown-live :
    (lib : Library) (f : ℕ) (o : Outside) (before after : Tokens)
    → Grown lib o before after
    → live o.family before ≡ 0
    → live f before ≤ 1
    → live f after ≤ 1
Grown-live lib f o before _ unchanged fresh one = one
Grown-live lib f o before _ (added raw r drawn own) fresh one =
    let grown = added_live f o.family (lib.hash_token raw) r before own in
    elim (Bool-cases (o.family == f)) [
      | inl q ↦ omega (arith, rw q at grown, rw (eq→≡ o.family f q) at fresh)
      | inr q ↦ omega (arith, rw q at grown, one)
    ]

module _ {A : Type 0} (lib : Library) where
  refresh_live :
      (f : ℕ) (st : AuthState A) (raw : Text) (client : Client) (o : Outside)
      → live f (tokens (refresh_token lib st raw client o).0) ≤ live f (tokens st)
  unfolding live delete_refresh_token_family
  refresh_live f st raw client o = elim (refresh_token-cases lib st raw client o) [
    | refused e out ↦ rw out (omega arith)
    | renewed spent user access fresh given unused known active drawn signed out ↦
        rw out (renewed_live lib f (tokens st) raw fresh spent client o given.stored unused)
    | replayed spent given was_used out ↦
        rw out (elim (Option-cases (lookup spent.user_id st.querier.users)) [
          | inl q ↦ rw (handle_replay-missing st o.now spent client q) (omega arith)
          | inr (u, q) ↦
              rw (handle_replay-known st o.now spent client u q)
                (count-retain-le (is_live f) _ (tokens st))
        ])
  ]

  ends_all_live :
      (f : ℕ) (st : AuthState A) (now : ℕ) (id : Uuid)
      → live f (tokens (revoke_all_sessions st now id).0) ≤ live f (tokens st)
  unfolding live delete_user_refresh_tokens
  ends_all_live f st now id = elim (Option-cases (lookup id st.querier.users)) [
    | inl q ↦ rw (revoke_all_sessions-missing st now id q) (omega arith)
    | inr (u, q) ↦
        rw (revoke_all_sessions-known st now id u q) (count-retain-le (is_live f) _ (tokens st))
  ]

  logs_out_live :
      (f : ℕ) (st : AuthState A) (raw : Text)
      → live f (tokens (revoke_refresh_token_with_audit lib st raw)) ≤ live f (tokens st)
  unfolding live revoke_refresh_token_with_audit
  logs_out_live f st raw =
      let fewer = count-delete-le (is_live f) (lib.hash_token raw) (tokens st) in
      elim (Bool-cases (raw == [])) [
        | inl q ↦ rw q (omega arith)
        | inr q ↦ elim (Option-cases (lookup (lib.hash_token raw) (tokens st))) [
          | inl r ↦ simp (q, r) fewer
          | inr (t, r) ↦ simp (q, r) fewer
        ]
      ]

  -- In every state that the service reaches from an empty table of refresh tokens by logins,
  -- refreshes, logouts, revocations and the cleanup, each login with the id of a family that has no
  -- unused token, a family has at most one unused token.
  pub one_live_per_family : (f : ℕ) (st : AuthState A) → Reachable lib st → live f (tokens st) ≤ 1
  unfolding live delete_expired_and_spent_refresh_tokens count
  one_live_per_family f _ (start st empty) = rw empty (omega arith)
  one_live_per_family f _ (logs_in {st} req o fresh r) =
      Grown-live lib f o (tokens st) (tokens (login lib st req o).0) (login-Grown lib st req o)
        fresh (one_live_per_family f st r)
  one_live_per_family f _ (refreshes {st} raw client o r) =
      omega (arith, one_live_per_family f st r, refresh_live f st raw client o)
  one_live_per_family f _ (logs_out {st} raw r) =
      omega (arith, one_live_per_family f st r, logs_out_live f st raw)
  one_live_per_family f _ (ends_all {st} now id r) =
      omega (arith, one_live_per_family f st r, ends_all_live f st now id)
  one_live_per_family f _ (cleans_up {st} now r) =
      omega (arith, one_live_per_family f st r, count-retain-le (is_live f) _ (tokens st))
