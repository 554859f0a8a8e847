-- ===== src/Core/Invite/Issue.antt =====
-- `Issue` of internal/core/invite/service.go.
use openlocalcrm.Base.{
  ℕ, suc, ◌+◌, String, Bool, false, not, ◌&&◌, ◌||◌, Option, none, some, [], ◌∷◌, eqb, ◌==◌,
  if◌then◌else◌, length, drop, nat_comparable,
}
use openlocalcrm.Base.Text.{
  Text, codes, text_comparable, trim_space, to_lower, to_upper, has_prefix, contains,
}
use openlocalcrm.Base.Results.{Result, failed, done}
use openlocalcrm.Db.Models.{Uuid, UserInvite}
use openlocalcrm.Db.Demo.Invites.{
  CreateInvitedUserWithInviteParams, Tables, same_email, same_hash, create_invited_user_with_invite,
}
use openlocalcrm.Core.Invite.{InviteError, invalid_request, no_entropy, email_taken, hash_taken}
use openlocalcrm.Core.Invite.Host.{build_invite_url}
use mathlib.Core.List.{reverse}

-- 72 hours, in nanoseconds.
abbrev pub token_ttl : ℕ
token_ttl = 259200000000000

pub record CreateUserInput : Type 0 where
  pub email : Text
  pub first_name : Text
  pub last_name : Text
  pub role : Text

pub record IssuedInvite : Type 0 where
  pub invite : UserInvite
  pub raw_token : Text
  pub url : Text
  pub expires_at : ℕ

-- What an issue draws: the time, a raw token and the hash of a random password (`none` without
-- entropy), and the ids of the two rows.
pub record Draws : Type 0 where
  pub now : ℕ
  pub raw_token : Option Text
  pub discarded : Option String
  pub user_id : ℕ
  pub new_id : ℕ

abbrev pub is_valid_role : Text → Bool
is_valid_role role =
    role == codes "ADMIN"
    || role == codes "BENUTZER"
    || role == codes "VERTRIEB"
    || role == codes "BACKOFFICE"

-- `strings.IndexByte`.
unfoldable pub index_of : ℕ → Text → Option ℕ
index_of c [] = none
index_of c (d ∷ s) =
    let rest = index_of c s in
    if eqb d c then some 0 else (elim rest [ none ↦ none | some i ↦ some (suc i) ])

unfoldable pub occurrences : ℕ → Text → ℕ
occurrences c [] = 0
occurrences c (d ∷ s) = let rest = occurrences c s in if eqb d c then suc rest else rest

unfoldable pub is_one_of : ℕ → Text → Bool
is_one_of c [] = false
is_one_of c (d ∷ set) = eqb c d || is_one_of c set

unfoldable pub contains_any : Text → Text → Bool
contains_any [] set = false
contains_any (c ∷ s) set = is_one_of c set || contains_any s set

-- The bytes of " \t\r\n\"'<>()[]{}".
abbrev pub not_in_address : Text
not_in_address = 0x20 ∷ 9 ∷ 13 ∷ 10 ∷ 0x22 ∷ 0x27 ∷ codes "<>()[]{}"

unfoldable pub valid_email : Text → Bool
valid_email email = elim (index_of b'@' email) [
  | none ↦ false
  | some at ↦
      let domain = drop (suc at) email in
      not (at == 0)
      && not (suc at == length email)
      && occurrences b'@' email == 1
      && not (contains_any email not_in_address)
      && contains domain (codes ".")
      && not (has_prefix domain (codes "."))
      && not (has_prefix (reverse domain) (codes "."))
      && not (contains email (codes ".."))
]

module _ (hash_token : Text → String) (spell : Text → String) where
  -- The arguments of the insertion, which Issue writes after its checks.
  abbrev pub params : Uuid → CreateUserInput → ℕ → Text → String → CreateInvitedUserWithInviteParams
  params actor_id req now raw discarded = record {
    email = to_lower (trim_space req.email);
    password_hash = discarded;
    first_name = spell (trim_space req.first_name);
    last_name = spell (trim_space req.last_name);
    role = spell (to_upper (trim_space req.role));
    token_hash = hash_token raw;
    created_by = actor_id;
    expires_at = some (now + token_ttl);
  }

module _ (hash_token : Text → String) (spell : Text → String) (query_escape : Text → Text) where
  unfoldable pub issue :
      Tables → Uuid → CreateUserInput → Text → Draws → Tables × Result InviteError IssuedInvite
  issue t actor_id req base_url draws =
      let email = to_lower (trim_space req.email) in
      let first_name = trim_space req.first_name in
      let last_name = trim_space req.last_name in
      let role = to_upper (trim_space req.role) in
      if email == [] || first_name == [] || last_name == [] || not (valid_email email)
      then (t, failed invalid_request)
      else (if not (is_valid_role role)
          then (t, failed invalid_request)
          else (elim draws.raw_token [
            | none ↦ (t, failed no_entropy)
            | some raw ↦ elim draws.discarded [
              | none ↦ (t, failed no_entropy)
              | some discarded ↦
                  let expires_at = draws.now + token_ttl in
                  let (t', made) =
                    create_invited_user_with_invite spell t draws.now draws.user_id draws.new_id
                      (params hash_token spell actor_id req draws.now raw discarded) in
                  elim made [
                    | failed d ↦ elim d [
                      | same_email ↦ (t', failed email_taken)
                      | same_hash ↦ (t', failed hash_taken)
                    ]
                    | done invite ↦ (
                      t',
                      done (record {
                        invite = invite;
                        raw_token = raw;
                        url = build_invite_url query_escape base_url raw;
                        expires_at = expires_at;
                      }),
                    )
                  ]
            ]
          ]))
