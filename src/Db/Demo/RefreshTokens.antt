-- ===== src/Db/Demo/RefreshTokens.antt =====
-- The refresh tokens of internal/db/demo/querier.go, keyed by the hash of the token.
use openlocalcrm.Base.{
  ℕ, ◌-◌, String, Bool, true, false, not, ◌||◌, Option, none, some, ltb, ◌==◌, if◌then◌else◌,
  nat_comparable, string_comparable,
}
use openlocalcrm.Base.Dict.{Dict, lookup, insert, delete, retain}
use openlocalcrm.Db.Models.{Uuid, PgText, PgTime, RefreshToken}

abbrev pub Tokens : Type 0
Tokens = Dict String RefreshToken

pub record CreateRefreshTokenParams : Type 0 where
  pub user_id : Uuid
  pub token_hash : String
  pub user_agent : PgText
  pub ip_address : PgText
  pub expires_at : PgTime
  pub family_id : Uuid

abbrev pub new_token : ℕ → ℕ → CreateRefreshTokenParams → RefreshToken
new_token new_id now arg = record {
  id = some new_id;
  user_id = arg.user_id;
  token_hash = arg.token_hash;
  user_agent = arg.user_agent;
  ip_address = arg.ip_address;
  expires_at = arg.expires_at;
  created_at = some now;
  family_id = arg.family_id;
  used_at = none;
}

unfoldable pub create_refresh_token : Tokens → ℕ → ℕ → CreateRefreshTokenParams → Tokens
create_refresh_token tokens new_id now arg = insert arg.token_hash (new_token new_id now arg) tokens

abbrev pub is_set : PgTime → Bool
is_set none = false
is_set (some t) = true

-- `t.Valid && t.Time.Before(now)`.
abbrev pub is_before : PgTime → ℕ → Bool
is_before none now = false
is_before (some t) now = ltb t now

-- Marks the token as used, unless it is missing, used or expired.
unfoldable pub consume_refresh_token : Tokens → ℕ → String → Option (Tokens × RefreshToken)
consume_refresh_token tokens now token_hash = elim (lookup token_hash tokens) [
  | none ↦ none
  | some t ↦
      if is_set t.used_at || is_before t.expires_at now
      then none
      else some (insert token_hash (record t { used_at = some now }) tokens, t)
]

abbrev pub get_refresh_token_by_hash : Tokens → String → Option RefreshToken
get_refresh_token_by_hash tokens token_hash = lookup token_hash tokens

unfoldable pub get_refresh_token : Tokens → ℕ → String → Option RefreshToken
get_refresh_token tokens now token_hash = elim (lookup token_hash tokens) [
  | none ↦ none
  | some t ↦ if is_before t.expires_at now then none else some t
]

-- Both are valid and their bytes are the same.
abbrev pub same_id : Uuid → Uuid → Bool
same_id none id = false
same_id (some a) none = false
same_id (some a) (some b) = a == b

unfoldable pub delete_refresh_token_family : Tokens → Uuid → Tokens
delete_refresh_token_family tokens family_id =
    retain (λ t. not (same_id t.family_id family_id)) tokens

unfoldable pub delete_user_refresh_tokens : Tokens → Uuid → Tokens
delete_user_refresh_tokens tokens user_id = retain (λ t. not (same_id t.user_id user_id)) tokens

abbrev pub delete_refresh_token : Tokens → String → Tokens
delete_refresh_token tokens token_hash = delete token_hash tokens

-- 30 days in nanoseconds.
abbrev pub thirty_days : ℕ
thirty_days = 2592000000000000

unfoldable pub delete_expired_and_spent_refresh_tokens : Tokens → ℕ → Tokens
delete_expired_and_spent_refresh_tokens tokens now =
    retain (λ t. not (is_before t.expires_at now || is_before t.used_at (now - thirty_days))) tokens
