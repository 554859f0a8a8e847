-- ===== src/Core/Invite/Once.antt =====
-- What an acceptance of internal/core/invite/service.go finds and leaves.
use openlocalcrm.Base.{
  ℕ, suc, ◌≡◌, refl, inl, inr, String, none, some, [], ◌∷◌, ltb, ◌==◌, if◌then◌else◌, length, All,
  Bool-cases, Option-cases, nat_comparable, string_comparable, option_comparable,
}
use openlocalcrm.Base.Dict.{lookup, insert}
use openlocalcrm.Base.Text.{Text}
use openlocalcrm.Base.Results.{failed, done}
use openlocalcrm.Db.Models.{User, UserInvite}
use openlocalcrm.Db.Demo.Invites.{Invites, Tables, find_active, accept_user_invite}
use openlocalcrm.Core.Invite.{min_password_length, invite_not_usable, weak_password, answer, accept}

-- How many rows have the hash.
unfoldable pub count_hash : String → Invites → ℕ
count_hash token_hash [] = 0
count_hash token_hash ((id, invite) ∷ rows) =
    let rest = count_hash token_hash rows in
    if invite.token_hash == token_hash then suc rest else rest

-- Every row stands under its own id.
abbrev pub IsKeyed : Invites → Type 0
IsKeyed rows = All (λ e. e.0 ≡ e.1.id) rows

pub accepted_tables :
    (t : Tables) (now : ℕ) (token_hash password_hash : String) (user : User)
    → (accept_user_invite t now token_hash password_hash).1 ≡ some user
    → (locked : UserInvite) × (find_active token_hash now t.user_invites ≡ some locked)
      × ((accept_user_invite t now token_hash password_hash).0.user_invites
          ≡ insert locked.id (record locked { consumed_at = some now }) t.user_invites)
unfolding accept_user_invite
accepted_tables t now token_hash password_hash user h =
    elim (Option-cases (find_active token_hash now t.user_invites)) [
      | inl q ↦ absurd (cc (rw (q, accept_user_invite) at h))
      | inr (locked, q) ↦ elim (Option-cases (lookup locked.user_id t.users)) [
        | inl r ↦ absurd (cc (rw (q, accept_user_invite, r) at h))
        | inr (u, r) ↦ (locked, q, rw (q, accept_user_invite, r) refl)
      ]
    ]

module _ (hash_token : Text → String) (hash_password : Text → String) where
  pub accept_done :
      (t : Tables) (now : ℕ) (raw_token password : Text) (user : User)
      → (accept hash_token hash_password t now raw_token password).1 ≡ done user
      → let made = accept_user_invite t now (hash_token raw_token) (hash_password password) in
        (made.1 ≡ some user)
        × ((accept hash_token hash_password t now raw_token password).0 ≡ made.0)
  unfolding accept answer
  accept_done t now raw_token password user h =
      let made = accept_user_invite t now (hash_token raw_token) (hash_password password) in
      elim (Bool-cases (ltb (length password) min_password_length)) [
        | inl r ↦ absurd (cc (rw (accept, r) at h))
        | inr r ↦ elim (Option-cases made.1) [
          | inl q ↦ absurd (cc (rw (accept, r, answer, q) at h))
          | inr (u, q) ↦
              let same : u ≡ user = cc (rw (accept, r, answer, q) at h) in
              (rw same at q, rw (accept, r, answer, q) refl)
        ]
      ]

  pub accept_again :
      (t : Tables) (now : ℕ) (raw_token password : Text)
      → find_active (hash_token raw_token) now t.user_invites ≡ none
      → accept hash_token hash_password t now raw_token password ≡ (
        t,
        failed (
            if ltb (length password) min_password_length then weak_password else invite_not_usable),
      )
  unfolding accept accept_user_invite
  accept_again t now raw_token password q =
      elim (Bool-cases (ltb (length password) min_password_length)) [
        | inl r ↦ rw (accept, r) refl
        | inr r ↦ rw (accept, r, q, accept_user_invite) refl
      ]
