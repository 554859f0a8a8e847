-- ===== src/Db/Demo/Invites.antt =====
-- The user invites of internal/db/demo/querier.go, with the users that they activate. The rows are
-- met in the order in which `range q.userInvites` meets them.
use openlocalcrm.Base.{
  ℕ, String, Bool, true, false, ◌&&◌, not, Option, none, some, [], ◌∷◌, ltb, ◌==◌, if◌then◌else◌,
  nat_comparable, string_comparable, option_comparable,
}
use openlocalcrm.Base.Dict.{Dict, lookup, insert}
use openlocalcrm.Base.Text.{Text}
use openlocalcrm.Base.Results.{Result, failed, done}
use openlocalcrm.Db.Demo.Users.{find_email}
use openlocalcrm.Db.Models.{Uuid, PgTime, User, UserInvite}

abbrev pub Invites : Type 0
Invites = Dict Uuid UserInvite

pub record Tables : Type 0 where
  pub users : Dict Uuid User
  pub user_invites : Invites

-- Neither consumed nor revoked, and still before its end.
unfoldable pub is_active : ℕ → UserInvite → Bool
is_active now invite =
    invite.consumed_at == none
    && invite.revoked_at == none
    && elim invite.expires_at [ none ↦ false | some end ↦ ltb now end ]

unfoldable pub find_active : String → ℕ → Invites → Option UserInvite
find_active token_hash now [] = none
find_active token_hash now ((id, invite) ∷ rows) =
    let rest = find_active token_hash now rows in
    if invite.token_hash == token_hash && is_active now invite then some invite else rest

abbrev pub consume : Tables → ℕ → UserInvite → Tables
consume t now locked = record t {
  user_invites = insert locked.id (record locked { consumed_at = some now }) t.user_invites;
}

abbrev pub activated : User → ℕ → String → User
activated user now password_hash = record user {
  password_hash = password_hash;
  status = "ACTIVE";
  updated_at = some now;
}

-- The tables, and the user, or `none` for ErrNotFound.
unfoldable pub accept_user_invite : Tables → ℕ → String → String → Tables × Option User
accept_user_invite t now token_hash password_hash =
    elim (find_active token_hash now t.user_invites) [
      | none ↦ (t, none)
      | some locked ↦ elim (lookup locked.user_id t.users) [
        | none ↦ (consume t now locked, none)
        | some user ↦
            let active = activated user now password_hash in
            (
              record (consume t now locked) { users = insert locked.user_id active t.users },
              some active,
            )
      ]
    ]

unfoldable pub get_user_invite_by_token_hash : String → Invites → Option UserInvite
get_user_invite_by_token_hash token_hash [] = none
get_user_invite_by_token_hash token_hash ((id, invite) ∷ rows) =
    let rest = get_user_invite_by_token_hash token_hash rows in
    if invite.token_hash == token_hash then some invite else rest

unfoldable pub revoke_user_invite : Tables → ℕ → Uuid → Tables
revoke_user_invite t now id = elim (lookup id t.user_invites) [
  | none ↦ t
  | some invite ↦ if not (invite.consumed_at == none) then t else record t {
    user_invites = insert id (record invite { revoked_at = some now }) t.user_invites;
  }
]

pub record CreateInvitedUserWithInviteParams : Type 0 where
  pub email : Text
  pub password_hash : String
  pub first_name : String
  pub last_name : String
  pub role : String
  pub token_hash : String
  pub created_by : Uuid
  pub expires_at : PgTime

-- The two errors of the insertion.
pub data Duplicate : Type 0 where
  same_email same_hash : Duplicate

unfoldable pub has_hash : String → Invites → Bool
has_hash token_hash [] = false
has_hash token_hash ((id, invite) ∷ rows) =
    let rest = has_hash token_hash rows in if invite.token_hash == token_hash then true else rest

-- `spell` makes a string of the runes of the address.
abbrev pub invited_user : (Text → String) → ℕ → ℕ → CreateInvitedUserWithInviteParams → User
invited_user spell now user_id arg = record {
  id = some user_id;
  email = spell arg.email;
  password_hash = arg.password_hash;
  first_name = arg.first_name;
  last_name = arg.last_name;
  role = arg.role;
  status = "INVITED";
  totp_secret_encrypted = none;
  totp_enabled = false;
  last_login_at = none;
  created_at = some now;
  updated_at = some now;
  totp_last_used_step = 0;
  token_version = 0;
  must_change_password = false;
}

abbrev pub new_invite : ℕ → ℕ → ℕ → CreateInvitedUserWithInviteParams → UserInvite
new_invite now user_id new_id arg = record {
  id = some new_id;
  user_id = some user_id;
  token_hash = arg.token_hash;
  created_by = arg.created_by;
  expires_at = arg.expires_at;
  consumed_at = none;
  revoked_at = none;
  created_at = some now;
}

unfoldable pub create_invited_user_with_invite :
    (Text → String)
    → Tables
    → ℕ
    → ℕ
    → ℕ
    → CreateInvitedUserWithInviteParams
    → Tables × Result Duplicate UserInvite
create_invited_user_with_invite spell t now user_id new_id arg =
    elim (find_email t.users arg.email) [
      | some u ↦ (t, failed same_email)
      | none ↦ if has_hash arg.token_hash t.user_invites then (t, failed same_hash) else (
        record {
          users = insert (some user_id) (invited_user spell now user_id arg) t.users;
          user_invites = insert (some new_id) (new_invite now user_id new_id arg) t.user_invites;
        },
        done (new_invite now user_id new_id arg),
      )
    ]
