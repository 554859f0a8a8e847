-- ===== src/Auth/Session/Replay.antt =====
-- A refresh token of internal/auth/service.go that is presented again.
use openlocalcrm.Base.{
  ℕ, ◌≡◌, ◌⊎◌, refl, sym, ap, subst, inl, inr, Bool, true, false, not, some, [], ◌==◌,
  string_comparable, option_comparable, nat_comparable,
}
use openlocalcrm.Base.Count.{count, count-retain_none}
use openlocalcrm.Base.Dict.{lookup, lookup-insert_self}
use openlocalcrm.Base.Text.{Text, text_comparable}
use openlocalcrm.Base.Results.{failed}
use openlocalcrm.Db.Models.{Uuid, User, RefreshToken}
use openlocalcrm.Db.Demo.Users.{current_token_version, next_version}
use openlocalcrm.Db.Demo.RefreshTokens.{Tokens, delete_refresh_token_family, same_id, is_set}
use openlocalcrm.Auth.Session.{
  AuthError, invalid_refresh_token, AuthState, Outside, Library, close_streams,
}
use openlocalcrm.Auth.Session.Rotation.{Client, handle_replay, refresh_token}
use openlocalcrm.Auth.Session.Growth.{tokens}
use openlocalcrm.Auth.Session.Refresh.{
  Presented, refused, replayed, renewed, refresh_token-cases, refresh_token-used,
}
use openlocalcrm.Auth.Session.Ending.{handle_replay-known, handle_replay-streams}

abbrev pub in_family : ℕ → RefreshToken → Bool
in_family f t = same_id t.family_id (some f)

-- The sessions of a family are over: none of its tokens is left, the access tokens of the user have
-- an old version, and the user's streams are closed.
pub record FamilyEnded {A : Type 0} (st st' : AuthState A) (f : ℕ) (u : User) (id : Uuid)
    : Type 0 where
  pub no_token : count (in_family f) (tokens st') ≡ 0
  pub next : current_token_version st'.querier.users id ≡ some (next_version u.token_version)
  pub closed : st'.revoker ≡ close_streams st.revoker id

family_gone :
    (f : ℕ) (t : Tokens) (spent : RefreshToken)
    → spent.family_id ≡ some f
    → count (in_family f) (delete_refresh_token_family t spent.family_id) ≡ 0
unfolding delete_refresh_token_family
family_gone f t spent own =
    count-retain_none (in_family f) (λ t. not (same_id t.family_id spent.family_id)) t
      (λ v h. rw own (rw h refl))

handle_replay-FamilyEnded :
    {A : Type 0} (st : AuthState A) (now f : ℕ) (spent : RefreshToken) (client : Client) (u : User)
    → lookup spent.user_id st.querier.users ≡ some u
    → spent.family_id ≡ some f
    → FamilyEnded st (handle_replay st spent client now) f u spent.user_id
unfolding current_token_version
handle_replay-FamilyEnded st now f spent client u known own =
    let whole = handle_replay-known st now spent client u known in
    record {
      no_token = rw whole (family_gone f (tokens st) spent own);
      next = rw (whole, current_token_version, lookup-insert_self spent.user_id) refl;
      closed = handle_replay-streams st now spent client u known;
    }

module _ {A : Type 0} (lib : Library) where
  -- A stored token that has not expired, but was used, is refused and ends the sessions of its family
  -- and its user: no token of the family is left, the user has the next token version, and the
  -- user's streams are closed.
  pub reuse_ends_family :
      (st : AuthState A) (raw : Text) (client : Client) (o : Outside) (spent : RefreshToken)
      (u : User) (f : ℕ)
      → (raw == []) ≡ false
      → Presented lib (tokens st) raw o.now spent
      → is_set spent.used_at ≡ true
      → lookup spent.user_id st.querier.users ≡ some u
      → spent.family_id ≡ some f
      → ((refresh_token lib st raw client o).1 ≡ failed invalid_refresh_token)
        × FamilyEnded st (refresh_token lib st raw client o).0 f u spent.user_id
  reuse_ends_family st raw client o spent u f full given was_used known own =
      let whole = refresh_token-used lib st raw client o spent full given was_used in
      (
        ap (λ r. r.1) whole,
        subst (λ r. FamilyEnded st r.0 f u spent.user_id) (sym whole)
            (handle_replay-FamilyEnded st o.now f spent client u known own),
      )

  -- A refresh that fails changes nothing at all, unless the token it was given had been used.
  pub failed_refresh_keeps :
      (st : AuthState A) (raw : Text) (client : Client) (o : Outside) (e : AuthError)
      → (refresh_token lib st raw client o).1 ≡ failed e
      → ((refresh_token lib st raw client o).0 ≡ st)
        ⊎ ((spent : RefreshToken) × Presented lib (tokens st) raw o.now spent
            × (is_set spent.used_at ≡ true))
  failed_refresh_keeps st raw client o e h = elim (refresh_token-cases lib st raw client o) [
    | refused e' out ↦ inl (ap (λ r. r.0) out)
    | replayed spent found w out ↦ inr (spent, found, w)
    | renewed other user access fresh found unused known active drawn signed out ↦
        absurd (cc (rw out at h))
  ]
