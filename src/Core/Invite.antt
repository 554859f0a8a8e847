-- ===== src/Core/Invite.antt =====
-- internal/core/invite/service.go: issuing, validation and acceptance of an invite, over the in-memory
-- database. `hash_token` is `HashToken`, `hash_password` the argon2 hash of package auth, whose own
-- failures are not modelled. A token and a password are texts; the audit calls are left out, since
-- their result is discarded.
pub mod Once
pub mod Issue
pub mod Host
pub mod Issued
pub mod Sound
pub mod Reachable
pub mod Spent
pub mod Agreement
mod Tests
use openlocalcrm.Base.{
  ℕ, String, Bool, true, false, ◌||◌, ◌&&◌, not, Option, none, some, [], ltb, ◌==◌, if◌then◌else◌,
  length, nat_comparable, string_comparable, option_comparable,
}
use openlocalcrm.Base.Dict.{lookup}
use openlocalcrm.Base.Text.{Text, trim_space, text_comparable}
use openlocalcrm.Base.Results.{Result, failed, done}
use openlocalcrm.Db.Models.{PgTime, User, UserInvite}
use openlocalcrm.Db.Demo.Invites.{
  Tables, is_active, accept_user_invite, get_user_invite_by_token_hash,
}

abbrev pub min_password_length : ℕ
min_password_length = 8

pub data InviteError : Type 0 where
  invite_not_usable weak_password invalid_request : InviteError
  no_entropy email_taken hash_taken : InviteError

pub record InviteView : Type 0 where
  pub email : String
  pub first_name : String
  pub last_name : String
  pub expires_at : PgTime

module _ (hash_token : Text → String) (hash_password : Text → String) where
  answer : Tables × Option User → Tables × Result InviteError User
  answer (t, none) = (t, failed invite_not_usable)
  answer (t, some user) = (t, done user)

  unfoldable pub accept : Tables → ℕ → Text → Text → Tables × Result InviteError User
  unfolding answer
  accept t now raw_token password =
      if ltb (length password) min_password_length
      then (t, failed weak_password)
      else answer (accept_user_invite t now (hash_token raw_token) (hash_password password))

  unfoldable pub resolve_active_invite : Tables → ℕ → Text → Result InviteError (UserInvite × User)
  resolve_active_invite t now raw_token =
      if trim_space raw_token == []
      then failed invite_not_usable
      else elim (get_user_invite_by_token_hash (hash_token raw_token) t.user_invites) [
        | none ↦ failed invite_not_usable
        | some invite ↦
            if is_active now invite
            then elim (lookup invite.user_id t.users) [
              | none ↦ failed invite_not_usable
              | some user ↦ done (invite, user)
            ]
            else failed invite_not_usable
      ]

  unfoldable pub validate : Tables → ℕ → Text → Result InviteError InviteView
  validate t now raw_token = elim (resolve_active_invite t now raw_token) [
    | failed e ↦ failed e
    | done (invite, user) ↦ done (record {
      email = user.email;
      first_name = user.first_name;
      last_name = user.last_name;
      expires_at = invite.expires_at;
    })
  ]
