-- ===== src/Core/Invite/Tests.antt =====
-- An invite accepted, and the theorems at inputs that meet their hypotheses.
use openlocalcrm.Base.{
  ◌⊎◌, All, ◌≡◌, refl, String, false, none, some, [], ◌∷◌, ◌==◌, if◌then◌else◌, nat_comparable,
  string_comparable, option_comparable,
}
use openlocalcrm.Base.Dict.{lookup, insert}
use openlocalcrm.Base.Text.{
  Text, text_comparable, codes, is_space, trim_left, trim_space, to_lower, to_upper, lower_rune,
  upper_rune, contains,
}
use openlocalcrm.Base.Results.{failed, done}
use openlocalcrm.Db.Models.{Uuid, User, UserInvite}
use openlocalcrm.Db.Demo.Invites.{
  CreateInvitedUserWithInviteParams, create_invited_user_with_invite, has_hash, new_invite,
  invited_user, Tables, is_active, find_active, activated, accept_user_invite,
  get_user_invite_by_token_hash, revoke_user_invite,
}
use openlocalcrm.Core.Invite.{invite_not_usable, answer, accept, resolve_active_invite, validate}
use openlocalcrm.Db.Demo.Users.{find_email}
use openlocalcrm.Core.Invite.Host.{
  build_invite_url, drop_slashes, sanitize_host, IsPlain, sanitize_host_lem,
}
use openlocalcrm.Core.Invite.Issue.{
  CreateUserInput, Draws, params, issue, valid_email, index_of, occurrences, contains_any,
  is_one_of,
}
use openlocalcrm.Core.Invite.Issued.{issued_is_accepted}
use openlocalcrm.Core.Invite.Reachable.{fresh, creates}
use openlocalcrm.Core.Invite.Spent.{now_on, accepts, revokes, accepted_once}
use openlocalcrm.Core.Invite.Agreement.{valid_is_accepted}

abbrev hash : Text → String
hash s = if s == codes "t1" then "h1" else "h2"

abbrev eva : User
eva = record {
  id = some 3;
  email = "eva@example.de";
  password_hash = "";
  first_name = "Eva";
  last_name = "E";
  role = "BENUTZER";
  status = "INVITED";
  totp_secret_encrypted = none;
  totp_enabled = false;
  last_login_at = none;
  created_at = some 1;
  updated_at = some 1;
  totp_last_used_step = 0;
  token_version = 0;
  must_change_password = false;
}

abbrev open_invite : UserInvite
open_invite = record {
  id = some 4;
  user_id = some 3;
  token_hash = "h1";
  created_by = none;
  expires_at = some 100;
  consumed_at = none;
  revoked_at = none;
  created_at = some 1;
}

abbrev tables : Tables
tables = record { users = (some 3, eva) ∷ []; user_invites = (some 4, open_invite) ∷ [] }

abbrev secret : Text
secret = codes "passwort1"

expired_refused : (accept hash hash tables 100 (codes "t1") secret).1 ≡ failed invite_not_usable
unfolding accept answer accept_user_invite find_active is_active
expired_refused = refl

abbrev used : Tables
used = (accept hash hash tables 50 (codes "t1") secret).0

abbrev request : CreateUserInput
request = record {
  email = codes " Eva@example.de ";
  first_name = codes "Eva";
  last_name = codes "E";
  role = codes "benutzer";
}

abbrev draws : Draws
draws = record {
  now = 10;
  raw_token = some (codes "t1");
  discarded = some "x";
  user_id = 3;
  new_id = 4;
}

abbrev nothing : Tables
nothing = record { users = []; user_invites = [] }

abbrev spell : Text → String
spell s = if s == codes "eva@example.de" then "eva@example.de" else "Eva"

issued_is_accepted_example :
    let t = (issue hash spell (λ s. s) nothing none request [] draws).0 in
    (user : User) × ((accept hash hash t 50 (codes "t1") secret).1 ≡ done user)
    × (user.email ≡ "eva@example.de")
    × (user.status ≡ "ACTIVE")
    × (user.password_hash ≡ "h2")
    × ((id : Uuid) × (lookup id (accept hash hash t 50 (codes "t1") secret).0.users ≡ some user))
unfolding issue create_invited_user_with_invite find_email has_hash valid_email index_of occurrences
    contains_any is_one_of contains is_space trim_left trim_space to_lower lower_rune to_upper
    upper_rune build_invite_url drop_slashes
issued_is_accepted_example =
    issued_is_accepted hash hash spell (λ s. s) nothing none request [] secret draws
      (record {
        invite = new_invite 10 3 4 (params hash spell none request 10 (codes "t1") "x");
        raw_token = codes "t1";
        url = codes "/accept-invite?token=t1";
        expires_at = 259200000000010;
      })
      50 refl refl refl refl

abbrev arg : CreateInvitedUserWithInviteParams
arg = params hash spell none request 10 (codes "t1") "x"

abbrev invited : Tables
invited = (create_invited_user_with_invite spell nothing 10 3 4 arg).0

-- The invite is revoked in vain, and another one is tried, after the first acceptance.
abbrev later_on : Tables
later_on =
    (accept_user_invite
      (revoke_user_invite (accept hash hash invited 50 (codes "t1") secret).0 55 (some 4)) 56 "h2"
      "x").0

accepted_once_example :
    accept hash hash later_on 60 (codes "t1") secret ≡ (later_on, failed invite_not_usable)
unfolding accept answer accept_user_invite find_active is_active lookup
    create_invited_user_with_invite find_email has_hash insert
accepted_once_example =
    accepted_once hash hash spell invited later_on 50 60 (codes "t1") secret secret
      (activated (invited_user spell 10 3 arg) 50 "h2") (creates 10 3 4 arg (fresh nothing refl))
      refl (accepts 56 "h2" "x" (revokes 55 (some 4) now_on))

sanitize_host_lem_example :
    (sanitize_host (codes "crm.example.de") ≡ [])
    ⊎ ((sanitize_host (codes "crm.example.de") ≡ codes "crm.example.de")
        × All IsPlain (codes "crm.example.de"))
sanitize_host_lem_example = sanitize_host_lem (codes "crm.example.de")

valid_is_accepted_example :
    (user : User) × ((accept hash hash tables 50 (codes "t1") secret).1 ≡ done user)
    × (user.email ≡ "eva@example.de")
    × (user.status ≡ "ACTIVE")
    × (user.password_hash ≡ "h2")
    × ((id : Uuid) × (lookup id (accept hash hash tables 50 (codes "t1") secret).0.users
          ≡ some user))
unfolding validate resolve_active_invite get_user_invite_by_token_hash is_active lookup is_space
    trim_left trim_space
valid_is_accepted_example =
    valid_is_accepted hash hash tables 50 (codes "t1") secret
      (record {
        email = "eva@example.de";
        first_name = "Eva";
        last_name = "E";
        expires_at = some 100;
      })
      refl refl
