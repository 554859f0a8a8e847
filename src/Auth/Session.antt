-- ===== src/Auth/Session.antt =====
-- internal/auth/service.go: sessions, over the in-memory database. The state is the database, the
-- rate limiter of logins, the hub whose streams a revocation closes (`none` if there is none) and the
-- calls of the audit service. A password and a token are texts; what an operation draws from
-- outside, one clock reading among it, is in `Outside`, and `Library` has the functions of other
-- packages.
pub mod Totp
pub mod Login
pub mod Rotation
pub mod Account
pub mod Guard
pub mod Growth
pub mod Refresh
pub mod Ending
pub mod Family
pub mod Replay
pub mod Later
pub mod Spent
pub mod Versions
pub mod SecondFactor
mod Tests
use openlocalcrm.Base.{
  ℕ, String, Bool, Option, none, some, List, ◌∷◌, ◌==◌, if◌then◌else◌, string_comparable,
}
use openlocalcrm.Base.Text.{Text}
use openlocalcrm.Db.Models.{Uuid, PgText, User}
use openlocalcrm.Db.Demo.Transactions.{InMemoryQuerier}
use openlocalcrm.Auth.Limiter.{Attempts, RateLimiter}
use openlocalcrm.Sse.Hub.{Hub, revoke_user}

-- The errors of the service. The last six are not declared by it: those of the random source, the
-- signer, the cipher, the hash of a password and the context of an Argon2 slot, and that of a row
-- that a transaction does not find.
pub data AuthError : Type 0 where
  invalid_credentials user_not_active invalid_totp_code password_too_short : AuthError
  invalid_old_password user_not_found invalid_refresh_token : AuthError
  rate_limited : ℕ → AuthError
  no_entropy signing_failed no_cipher no_hash no_slot no_rows : AuthError

-- A call of the audit service.
pub record AuditCall : Type 0 where
  pub user_id : Uuid
  pub action : String
  pub reason : String

pub record AuthState (A : Type 0) : Type 0 where
  pub querier : InMemoryQuerier
  pub limiter : RateLimiter
  pub revoker : Option (Hub A)
  pub audit_calls : List AuditCall

-- The clock, whether an Argon2 slot was acquired, the raw token that is drawn (`none` without
-- entropy), and the random ids of a family and a row.
pub record Outside : Type 0 where
  pub now : ℕ
  pub slot : Bool
  pub raw_refresh : Option Text
  pub family : ℕ
  pub new_id : ℕ

-- The functions of other packages: Argon2 with a stored hash, the cipher of internal/crypto, the TOTP
-- code of a secret at a time step and a new secret with its address, the JWT of a user at a time,
-- SHA-256 in hex, the text `ip:email`, and the order in which Go ranges over the limiter's map.
pub record Library : Type 0 where
  pub check_password : String → Text → Bool
  pub encrypt_secret : Text → Option String
  pub decrypt_secret : String → Option Text
  pub generate_code : Text → ℕ → Option Text
  pub generate_totp_key : String → Option (Text × String)
  pub sign : User → ℕ → Option Text
  pub hash_token : Text → String
  pub rate_key : String → Text → String
  pub range_keys : Attempts → List String

-- 30 days, in nanoseconds.
abbrev pub refresh_token_duration : ℕ
refresh_token_duration = 2592000000000000

abbrev pub to_pg_text : String → PgText
to_pg_text s = if s == "" then none else some s

abbrev pub text_or_empty : PgText → String
text_or_empty none = ""
text_or_empty (some s) = s

-- The bytes of a UUID, zero where it is not valid.
abbrev pub uuid_bytes : Uuid → ℕ
uuid_bytes none = 0
uuid_bytes (some n) = n

module _ {A : Type 0} where
  abbrev pub log_audit : AuthState A → Uuid → String → String → AuthState A
  log_audit st user_id action reason = record st {
    audit_calls = record { user_id = user_id; action = action; reason = reason } ∷ st.audit_calls;
  }

  abbrev pub close_streams : Option (Hub A) → Uuid → Option (Hub A)
  close_streams none user_id = none
  close_streams (some hub) user_id = some (revoke_user hub (uuid_bytes user_id))
