-- ===== src/Core/Invite/Agreement.antt =====
-- How validation and acceptance in internal/core/invite/service.go agree.
use openlocalcrm.Base.{
  ℕ, ◌≡◌, refl, ap, sym, subst, inl, inr, String, true, false, Option, none, some, [], ◌∷◌, ltb,
  ◌==◌, length, arith, Bool-cases, Option-cases, nat_comparable, string_comparable,
  option_comparable,
}
use openlocalcrm.Base.Dict.{lookup, insert, lookup-insert_self}
use openlocalcrm.Base.Text.{Text, trim_space, text_comparable}
use openlocalcrm.Base.Results.{Result, failed, done, Result-cases}
use openlocalcrm.Db.Models.{Uuid, User, UserInvite}
use openlocalcrm.Db.Demo.Invites.{
  Invites, Tables, is_active, find_active, consume, activated, accept_user_invite,
  get_user_invite_by_token_hash,
}
use openlocalcrm.Core.Invite.{
  min_password_length, InviteError, InviteView, invite_not_usable, answer, accept,
  resolve_active_invite, validate,
}

find_active_first :
    (token_hash : String) (now : ℕ) (rows : Invites) (invite : UserInvite)
    → get_user_invite_by_token_hash token_hash rows ≡ some invite
    → is_active now invite ≡ true
    → find_active token_hash now rows ≡ some invite
unfolding get_user_invite_by_token_hash find_active
find_active_first token_hash now [] invite h active = absurd (cc h)
find_active_first token_hash now ((id, first) ∷ rows) invite h active =
    elim (Bool-cases (first.token_hash == token_hash)) [
      | inl q ↦ let same : first ≡ invite = cc (rw q at h) in rw (q, same) (ground (arith, active))
      | inr q ↦ rw q (find_active_first token_hash now rows invite (rw q at h) active)
    ]

abbrev email_of : Result InviteError InviteView → String
email_of (failed e) = ""
email_of (done view) = view.email

module _ (hash_token : Text → String) (hash_password : Text → String) where
  resolved :
      (t : Tables) (now : ℕ) (raw_token : Text) (invite : UserInvite) (user : User)
      → resolve_active_invite hash_token hash_password t now raw_token ≡ done (invite, user)
      → (find_active (hash_token raw_token) now t.user_invites ≡ some invite)
        × (lookup invite.user_id t.users ≡ some user)
  unfolding resolve_active_invite
  resolved t now raw_token invite user h = elim (Bool-cases (trim_space raw_token == [])) [
    | inl r ↦ absurd (cc (rw (resolve_active_invite, r) at h))
    | inr r ↦
        elim (Option-cases (get_user_invite_by_token_hash (hash_token raw_token) t.user_invites)) [
          | inl q ↦ absurd (cc (rw (resolve_active_invite, r, q) at h))
          | inr (i, q) ↦ elim (Bool-cases (is_active now i)) [
            | inr a ↦ absurd (cc (rw (resolve_active_invite, r, q, a) at h))
            | inl a ↦ elim (Option-cases (lookup i.user_id t.users)) [
              | inl l ↦ absurd (cc (rw (resolve_active_invite, r, q, a, l) at h))
              | inr (u, l) ↦
                  let both : (i ≡ invite) × (u ≡ user) = (
                    cc (rw (resolve_active_invite, r, q, a, l) at h),
                    cc (rw (resolve_active_invite, r, q, a, l) at h),
                  ) in
                  let first = find_active_first (hash_token raw_token) now t.user_invites i q a in
                  (rw both.0 at first, rw (both.0, both.1) at l)
            ]
          ]
        ]
  ]

  accepted :
      (t : Tables) (now : ℕ) (raw_token password : Text)
      → ltb (length password) min_password_length ≡ false
      → (made : Tables × Option User)
      → accept_user_invite t now (hash_token raw_token) (hash_password password) ≡ made
      → accept hash_token hash_password t now raw_token password
        ≡ answer hash_token hash_password made
  unfolding accept
  accepted t now raw_token password long made q = rw (accept, long, q) refl

  -- While a token validates, it is accepted with every password of at least 8 characters: the user
  -- whom the validation shows becomes ACTIVE with the new password, and is stored so.
  pub valid_is_accepted :
      (t : Tables) (now : ℕ) (raw_token password : Text) (view : InviteView)
      → validate hash_token hash_password t now raw_token ≡ done view
      → ltb (length password) min_password_length ≡ false
      → let after = accept hash_token hash_password t now raw_token password in
        (user : User) × (after.1 ≡ done user)
        × (user.email ≡ view.email)
        × (user.status ≡ "ACTIVE")
        × (user.password_hash ≡ hash_password password)
        × ((id : Uuid) × (lookup id after.0.users ≡ some user))
  unfolding validate answer
  valid_is_accepted t now raw_token password view h long =
      elim (Result-cases (resolve_active_invite hash_token hash_password t now raw_token)) [
        | inl (e, q) ↦ absurd (cc (rw (q, validate) at h))
        | inr ((invite, user), q) ↦
            let (found, held) = resolved t now raw_token invite user q in
            let shown : user.email ≡ view.email = ap email_of (rw (q, validate) at h) in
            let active = activated user now (hash_password password) in
            let tables = record (consume t now invite) {
              users = insert invite.user_id active t.users;
            } in
            let whole : accept hash_token hash_password t now raw_token password
                ≡ (tables, done active) =
              accepted t now raw_token password long (tables, some active)
                (unfold accept_user_invite in rw (found, accept_user_invite, held) refl) in
            subst
              (λ after.
                (u : User) × (after.1 ≡ done u)
                × (u.email ≡ view.email)
                × (u.status ≡ "ACTIVE")
                × (u.password_hash ≡ hash_password password)
                × ((id : Uuid) × (lookup id after.0.users ≡ some u)))
              (sym whole)
              (
                active,
                refl,
                shown,
                refl,
                refl,
                (invite.user_id, lookup-insert_self invite.user_id active t.users),
              )
      ]

  -- An invite whose user is missing is used up by an acceptance that answers that it is not usable.
  pub orphan_is_consumed :
      (t : Tables) (now : ℕ) (raw_token password : Text) (locked : UserInvite)
      → find_active (hash_token raw_token) now t.user_invites ≡ some locked
      → lookup locked.user_id t.users ≡ none
      → ltb (length password) min_password_length ≡ false
      → let after = accept hash_token hash_password t now raw_token password in
        (after.1 ≡ failed invite_not_usable)
        × (lookup locked.id after.0.user_invites ≡ some (record locked { consumed_at = some now }))
  unfolding answer
  orphan_is_consumed t now raw_token password locked found missing long =
      let used = record locked { consumed_at = some now } in
      let whole : accept hash_token hash_password t now raw_token password
          ≡ (consume t now locked, failed invite_not_usable) =
        accepted t now raw_token password long (consume t now locked, none)
          (unfold accept_user_invite in rw (found, accept_user_invite, missing) refl) in
      subst
        (λ after.
          (after.1 ≡ failed invite_not_usable)
          × (lookup locked.id after.0.user_invites ≡ some used))
        (sym whole) (refl, lookup-insert_self locked.id used t.user_invites)
