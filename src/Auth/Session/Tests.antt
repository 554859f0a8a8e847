-- ===== src/Auth/Session/Tests.antt =====
-- A session that is opened, refreshed and stolen, and the theorems at inputs that meet their
-- hypotheses.
use openlocalcrm.Base.{
  ◌≡◌, ◌≢◌, ◌≤◌, ◌⊎◌, ◌∷◌, refl, String, true, false, none, some, List, [], ◌==◌, if◌then◌else◌,
  arith, nat_comparable, string_comparable, option_comparable,
}
use openlocalcrm.Base.Count.{count}
use openlocalcrm.Base.Dict.{lookup, insert}
use openlocalcrm.Base.Text.{
  Text, text_comparable, codes, is_space, trim_left, trim_space, to_lower, lower_rune, fold_rune,
  equal_fold,
}
use openlocalcrm.Base.Results.{failed}
use openlocalcrm.Db.Models.{User, RefreshToken}
use openlocalcrm.Db.Demo.Users.{change_user, find_email, get_user_by_email, current_token_version}
use openlocalcrm.Db.Demo.RefreshTokens.{
  create_refresh_token, consume_refresh_token, same_id, is_set,
}
use openlocalcrm.Db.Demo.Transactions.{run_tx, clone_for_transaction, adopt_from}
use openlocalcrm.Auth.Limiter.{Attempts, is_locked, reset}
use openlocalcrm.Auth.Session.{AuthState, Outside, Library, invalid_refresh_token, user_not_active}
use openlocalcrm.Auth.Session.Totp.{fits, first_fit, validate_totp_code_with_step}
use openlocalcrm.Auth.Session.Login.{LoginRequest, start_session, second_factor, known_user, login}
use openlocalcrm.Auth.Session.Rotation.{
  Client, rotate, rotated, succeed, refresh_token, revoke_all_sessions,
}
use openlocalcrm.Auth.Session.Account.{change_password}
use openlocalcrm.Auth.Session.Guard.{
  AccessClaims, Credentials, passed, auth_middleware, verify_version,
}
use openlocalcrm.Auth.Session.Growth.{tokens}
use openlocalcrm.Auth.Session.Refresh.{Presented, used}
use openlocalcrm.Auth.Session.Family.{live, start, logs_in, refreshes, one_live_per_family}
use openlocalcrm.Auth.Session.Replay.{failed_refresh_keeps}
use openlocalcrm.Auth.Session.Later.{Later, now_on}
use openlocalcrm.Auth.Session.Spent.{Replayed, refreshed_once}
use openlocalcrm.Auth.Session.Versions.{revoked_tokens_are_refused, change_password_keeps_sessions}
use openlocalcrm.Auth.Session.SecondFactor.{Authenticated, login-Authenticated}

abbrev keys_of : Attempts → List String
keys_of [] = []
keys_of ((k, v) ∷ m) = k ∷ keys_of m

abbrev hash : Text → String
hash s = if s == codes "r1" then "h1" else "h2"

abbrev lib : Library
lib = record {
  check_password = λ h p. p == codes "geheim12";
  encrypt_secret = λ s. some "cipher";
  decrypt_secret = λ s. some (codes "secret");
  generate_code = λ s step. some (if step == 4 then codes "123456" else codes "654321");
  generate_totp_key = λ email. none;
  sign = λ user now. some (codes "jwt");
  hash_token = hash;
  rate_key = λ ip email. ip;
  range_keys = keys_of;
}

hash-apart : lib.hash_token (codes "r2") ≢ lib.hash_token (codes "r1")
hash-apart h = ground (arith, h, string_comparable.same_iff "h2" "h1")

abbrev eva : User
eva = record {
  id = some 3;
  email = "eva@a.de";
  password_hash = "argon";
  first_name = "Eva";
  last_name = "E";
  role = "BENUTZER";
  status = "ACTIVE";
  totp_secret_encrypted = some "cipher";
  totp_enabled = true;
  last_login_at = none;
  created_at = some 1;
  updated_at = some 1;
  totp_last_used_step = 3;
  token_version = 7;
  must_change_password = false;
}

abbrev at_start : AuthState String
at_start = record {
  querier = record {
    users = (some 3, eva) ∷ [];
    deals = [];
    refresh_tokens = [];
    user_invites = [];
    audit_logs = [];
  };
  limiter = record {
    attempts = [];
    max_attempts = 5;
    lockout_dur = 300;
    window_dur = 300;
    max_entries = 10;
  };
  revoker = none;
  audit_calls = [];
}

abbrev request : LoginRequest
request = record {
  email = codes " Eva@a.de";
  password = codes "geheim12";
  totp_code = codes "123456";
  ip = "ip";
  user_agent = "ua";
}

-- At 120 seconds, in the step 4.
abbrev drawn : Text → Outside
drawn raw = record {
  now = 120000000000;
  slot = true;
  raw_refresh = some raw;
  family = 9;
  new_id = 1;
}

login-Authenticated_example :
    (get_user_by_email at_start.querier.users (trim_space (to_lower request.email)) ≡ some eva)
    × ((is_locked at_start.limiter
          (lib.rate_key "ip" (trim_space (to_lower request.email)))
          120000000000).1
        ≡ false)
    × Authenticated lib request eva
unfolding login known_user second_factor start_session validate_totp_code_with_step first_fit fits
    get_user_by_email find_email equal_fold fold_rune is_locked trim_space trim_left is_space
    to_lower lower_rune lookup
login-Authenticated_example =
    login-Authenticated lib at_start request (drawn (codes "r1")) (codes "jwt") (codes "r1") eva
      refl

abbrev opened : AuthState String
opened = (login lib at_start request (drawn (codes "r1"))).0

abbrev client : Client
client = record { ip = "ip"; user_agent = "ua" }

abbrev thief : Client
thief = record { ip = "elsewhere"; user_agent = "ua" }

one_live_per_family_example :
    live 9 (tokens (refresh_token lib opened (codes "r1") client (drawn (codes "r2"))).0) ≤ 1
unfolding live count
one_live_per_family_example =
    one_live_per_family lib 9 (refresh_token lib opened (codes "r1") client (drawn (codes "r2"))).0
      (refreshes (codes "r1") client (drawn (codes "r2"))
        (logs_in request (drawn (codes "r1")) refl (start at_start refl)))

-- The token that the login stores.
abbrev first_token : RefreshToken
first_token = record {
  id = some 1;
  user_id = some 3;
  token_hash = "h1";
  user_agent = some "ua";
  ip_address = some "ip";
  expires_at = some 2592120000000000;
  created_at = some 120000000000;
  family_id = some 9;
  used_at = none;
}

abbrev session_state : AuthState String
session_state = record at_start {
  querier = record at_start.querier { refresh_tokens = ("h1", first_token) ∷ [] };
}

login_stores_token : opened.querier.refresh_tokens ≡ session_state.querier.refresh_tokens
unfolding login known_user second_factor start_session validate_totp_code_with_step first_fit fits
    get_user_by_email find_email equal_fold fold_rune is_locked trim_space trim_left is_space
    to_lower lower_rune lookup create_refresh_token insert change_user reset
login_stores_token = refl

abbrev renewed : AuthState String
renewed = (refresh_token lib session_state (codes "r1") client (drawn (codes "r2"))).0

-- The successor is refreshed too.
abbrev going_on : AuthState String
going_on = (refresh_token lib renewed (codes "r2") client (drawn (codes "r3"))).0

refreshed_once_example :
    (lookup "h1" (tokens renewed) ≡ some (used first_token 120000000000))
    × ((refresh_token lib going_on (codes "r1") thief (drawn (codes "r4"))).1
        ≡ failed invalid_refresh_token)
    × Replayed lib going_on
        (refresh_token lib going_on (codes "r1") thief (drawn (codes "r4"))).0
        "h1"
        first_token
        120000000000
        9
unfolding refresh_token run_tx rotate rotated clone_for_transaction adopt_from succeed
    consume_refresh_token lookup
refreshed_once_example =
    refreshed_once lib session_state going_on (codes "r1") (codes "jwt") (codes "r2") client thief
      (drawn (codes "r2")) (drawn (codes "r4")) first_token 9 refl refl refl hash-apart refl
      (Later.refreshes (codes "r2") client (drawn (codes "r3")) refl now_on)

abbrev locked_out : AuthState String
locked_out = record session_state {
  querier = record session_state.querier {
    users = (some 3, record eva { status = "SUSPENDED" }) ∷ [];
  };
}

failed_refresh_keeps_example :
    ((refresh_token lib locked_out (codes "r1") client (drawn (codes "r2"))).0 ≡ locked_out)
    ⊎ ((spent : RefreshToken) × Presented lib (tokens locked_out) (codes "r1") 120000000000 spent
        × (is_set spent.used_at ≡ true))
unfolding refresh_token run_tx rotate rotated clone_for_transaction adopt_from succeed
    consume_refresh_token lookup
failed_refresh_keeps_example =
    failed_refresh_keeps lib locked_out (codes "r1") client (drawn (codes "r2")) user_not_active
      refl

abbrev claims : AccessClaims
claims = record { user_id = 3; email = "eva@a.de"; role = "BENUTZER"; token_version = some 7 }

abbrev sent : Credentials
sent = record { bearer = some (codes "jwt"); cookie = none }

revoked_tokens_are_refused_example :
    (count
        (λ t. same_id t.user_id (some 3))
        (tokens (revoke_all_sessions session_state 130000000000 (some 3)).0)
      ≡ 0)
    × (auth_middleware
          (λ s. some claims)
          (revoke_all_sessions session_state 130000000000 (some 3)).0.querier.users
          sent
        ≢ passed claims true)
unfolding lookup
revoked_tokens_are_refused_example =
    revoked_tokens_are_refused (λ s. some claims) session_state 130000000000 3 eva sent claims true
      refl refl refl refl

abbrev changed : AuthState String
changed =
    (change_password lib session_state 130000000000 true true (some "new") 3 (codes "geheim12")
      (codes "anderes1")).0

still_passes : auth_middleware (λ s. some claims) changed.querier.users sent ≡ passed claims true
unfolding change_password auth_middleware verify_version change_user lookup insert trim_space
    current_token_version
still_passes = refl

change_password_keeps_sessions_example :
    (tokens changed ≡ tokens session_state)
    × (auth_middleware (λ s. some claims) changed.querier.users sent
        ≡ auth_middleware (λ s. some claims) session_state.querier.users sent)
change_password_keeps_sessions_example =
    change_password_keeps_sessions lib (λ s. some claims) sent session_state 130000000000 true true
      (some "new") 3 (codes "geheim12") (codes "anderes1")
