-- ===== src/Db/Demo/Users.antt =====
-- The users of internal/db/demo/querier.go. A change of a user answers the new table, or `none` for
-- ErrNotFound. `token_version` is the bit pattern of an int32, and wraps.
use openlocalcrm.Base.{
  ℕ, ◌+◌, ◌%◌, ◌^◌, String, Bool, true, Option, none, some, [], ◌∷◌, if◌then◌else◌, nat_comparable,
  option_comparable,
}
use openlocalcrm.Base.Dict.{Dict, lookup, insert}
use openlocalcrm.Base.Text.{Text, codes, equal_fold}
use openlocalcrm.Db.Models.{Uuid, PgText, PgTime, User}

abbrev pub Users : Type 0
Users = Dict Uuid User

abbrev pub get_user_by_id : Users → Uuid → Option User
get_user_by_id users id = lookup id users

-- The first user with this address, in the order in which `range q.users` meets them.
unfoldable pub find_email : Users → Text → Option User
find_email [] email = none
find_email ((id, u) ∷ users) email =
    let rest = find_email users email in if equal_fold (codes u.email) email then some u else rest

-- Two old addresses stand for the new ones.
unfoldable pub get_user_by_email : Users → Text → Option User
get_user_by_email users email = elim (find_email users email) [
  | some u ↦ some u
  | none ↦
      let vertrieb : Option User =
        if equal_fold email (codes "vertrieb@mavalio.local")
        then find_email users (codes "vertrieb@openlocalcrm.local")
        else none in
      if equal_fold email (codes "admin@mavalio.local")
      then (elim (find_email users (codes "admin@openlocalcrm.local")) [
        | some u ↦ some u
        | none ↦ vertrieb
      ])
      else vertrieb
]

-- `u, ok := q.users[id]; if !ok { return ErrNotFound }; ...; u.UpdatedAt = now; q.users[id] = u`.
unfoldable pub change_user : (User → User) → Users → ℕ → Uuid → Option Users
change_user change users now id = elim (lookup id users) [
  | none ↦ none
  | some u ↦ some (insert id (record (change u) { updated_at = some now }) users)
]

abbrev pub update_user_last_login : Users → ℕ → Uuid → PgTime → Option Users
update_user_last_login users now id last_login_at =
    change_user (λ u. record u { last_login_at = last_login_at }) users now id

abbrev pub update_user_password : Users → ℕ → Uuid → String → Option Users
update_user_password users now id password_hash =
    change_user (λ u. record u { password_hash = password_hash }) users now id

abbrev pub update_user_role : Users → ℕ → Uuid → String → Option Users
update_user_role users now id role = change_user (λ u. record u { role = role }) users now id

abbrev pub update_user_status : Users → ℕ → Uuid → String → Option Users
update_user_status users now id status =
    change_user (λ u. record u { status = status }) users now id

abbrev pub update_user_totp : Users → ℕ → Uuid → PgText → Bool → ℕ → Option Users
update_user_totp users now id secret enabled step =
    change_user
      (λ u. record u {
        totp_secret_encrypted = secret;
        totp_enabled = enabled;
        totp_last_used_step = step;
      })
      users now id

abbrev pub update_user_totp_last_used_step : Users → ℕ → Uuid → ℕ → Option Users
update_user_totp_last_used_step users now id step =
    change_user (λ u. record u { totp_last_used_step = step }) users now id

abbrev pub enable_totp_with_secret : Users → ℕ → Uuid → PgText → Option Users
enable_totp_with_secret users now id secret = update_user_totp users now id secret true 0

abbrev pub set_user_must_change_password : Users → ℕ → Uuid → Bool → Option Users
set_user_must_change_password users now id must =
    change_user (λ u. record u { must_change_password = must }) users now id

unfoldable pub current_token_version : Users → Uuid → Option ℕ
current_token_version users id = elim (lookup id users) [
  | none ↦ none
  | some u ↦ some u.token_version
]

-- `TokenVersion++` of an int32.
abbrev pub next_version : ℕ → ℕ
next_version version = (version + 1) % 2 ^ 32

abbrev pub increment_user_token_version : Users → ℕ → Uuid → Option Users
increment_user_token_version users now id =
    change_user (λ u. record u { token_version = next_version u.token_version }) users now id
