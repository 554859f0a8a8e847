-- ===== src/Auth/Limiter.antt =====
-- internal/auth/limiter.go. Times are nanoseconds, 0 is the zero `time.Time`; every operation takes
-- the time that its `time.Now()` returns. `range_keys` is the order, which Go leaves open, in which
-- `for key := range rl.attempts` meets the keys. Durations and counts are not negative.
pub mod Capacity
pub mod Lockout
pub mod Quota
pub mod Isolation
mod Tests
use openlocalcrm.Base.{
  ℕ, suc, ◌+◌, ◌-◌, ◌/◌, String, Bool, true, false, not, ◌||◌, Option, none, some, List, [], ◌∷◌,
  ltb, leb, ◌==◌, nat_comparable, string_comparable, if◌then◌else◌, length,
}
use openlocalcrm.Base.Dict.{Dict, lookup, insert, delete, retain}

pub record AttemptRecord : Type 0 where
  pub failures : ℕ
  pub locked_at : ℕ
  pub updated_at : ℕ

abbrev pub Attempts : Type 0
Attempts = Dict String AttemptRecord

pub record RateLimiter : Type 0 where
  pub attempts : Attempts
  pub max_attempts : ℕ
  pub lockout_dur : ℕ
  pub window_dur : ℕ
  pub max_entries : ℕ

abbrev pub default_max_limiter_entries : ℕ
default_max_limiter_entries = 10000

unfoldable pub new_rate_limiter_with_capacity : ℕ → ℕ → ℕ → ℕ → RateLimiter
new_rate_limiter_with_capacity max_attempts window lockout max_entries = record {
  attempts = [];
  max_attempts = max_attempts;
  lockout_dur = lockout;
  window_dur = window;
  max_entries = if max_entries == 0 then default_max_limiter_entries else max_entries;
}

unfoldable pub new_rate_limiter : ℕ → ℕ → ℕ → RateLimiter
unfolding new_rate_limiter_with_capacity
new_rate_limiter max_attempts window lockout =
    new_rate_limiter_with_capacity max_attempts window lockout default_max_limiter_entries

-- The test that both sweeps make of a record.
unfoldable pub is_stale : RateLimiter → ℕ → AttemptRecord → Bool
is_stale rl now rec =
    if not (rec.locked_at == 0)
    then ltb rl.lockout_dur (now - rec.locked_at)
    else ltb rl.window_dur (now - rec.updated_at)

unfoldable pub remove_expired : RateLimiter → ℕ → Attempts
unfolding is_stale
remove_expired rl now = retain (λ rec. not (is_stale rl now rec)) rl.attempts

unfoldable pub cleanup_expired : RateLimiter → ℕ → RateLimiter
cleanup_expired rl now = record rl { attempts = remove_expired rl now }

-- Deletes the keys in turn, until `count` of them are gone.
unfoldable pub evict : ℕ → List String → Attempts → Attempts
evict count [] m = m
evict count (key ∷ keys) m =
    let rest = evict (count - 1) keys (delete key m) in
    if leb (count - 1) 0 then delete key m else rest

abbrev pub eviction_count : ℕ → ℕ
eviction_count max_entries = if ltb (max_entries / 10) 1 then 1 else max_entries / 10

unfoldable pub ensure_capacity_locked : (Attempts → List String) → RateLimiter → ℕ → RateLimiter
ensure_capacity_locked range_keys rl now =
    let left = remove_expired rl now in
    if ltb (length rl.attempts) rl.max_entries
    then rl
    else (if leb rl.max_entries (length left)
        then record rl { attempts = evict (eviction_count rl.max_entries) (range_keys left) left }
        else record rl { attempts = left })

abbrev pub put : RateLimiter → String → AttemptRecord → RateLimiter
put rl key rec = record rl { attempts = insert key rec rl.attempts }

abbrev pub drop_key : RateLimiter → String → RateLimiter
drop_key rl key = record rl { attempts = delete key rl.attempts }

-- The limiter, whether the key is locked, and for how long.
abbrev pub Verdict : Type 0
Verdict = RateLimiter × Bool × ℕ

is_locked_record : RateLimiter → String → ℕ → AttemptRecord → Verdict
is_locked_record rl key now rec =
    let remaining = rec.locked_at + rl.lockout_dur - now in
    if not (rec.locked_at == 0)
    then (if ltb 0 remaining then (rl, true, remaining) else (drop_key rl key, false, 0))
    else (if ltb rl.window_dur (now - rec.updated_at)
        then (drop_key rl key, false, 0)
        else (rl, false, 0))

unfoldable pub is_locked : RateLimiter → String → ℕ → Verdict
unfolding is_locked_record
is_locked rl key now = elim (lookup key rl.attempts) [
  | none ↦ (rl, false, 0)
  | some rec ↦ is_locked_record rl key now rec
]

abbrev pub first_attempt : ℕ → AttemptRecord
first_attempt now = record { failures = 1; locked_at = 0; updated_at = now }

module _ (range_keys : Attempts → List String) where
  -- The branch of a key that has no record, or none of this window.
  unfoldable pub start_window : RateLimiter → String → ℕ → RateLimiter
  start_window rl key now = put (ensure_capacity_locked range_keys rl now) key (first_attempt now)

  record_failure_again : RateLimiter → String → ℕ → AttemptRecord → Verdict
  record_failure_again rl key now rec =
      let failed = record rec { failures = rec.failures + 1; updated_at = now } in
      if leb rl.max_attempts (rec.failures + 1)
      then (put rl key (record failed { locked_at = now }), true, rl.lockout_dur)
      else (put rl key failed, false, 0)

  unfoldable pub record_failure : RateLimiter → String → ℕ → Verdict
  unfolding record_failure_again
  record_failure rl key now = elim (lookup key rl.attempts) [
    | none ↦ (start_window rl key now, false, 0)
    | some rec ↦
        if ltb rl.window_dur (now - rec.updated_at)
        then (start_window rl key now, false, 0)
        else record_failure_again rl key now rec
  ]

  allow_again : RateLimiter → String → ℕ → AttemptRecord → Verdict
  allow_again rl key now rec =
      let remaining = rec.locked_at + rl.lockout_dur - now in
      let counted = record rec { failures = rec.failures + 1; updated_at = now } in
      if not (rec.locked_at == 0)
      then (if ltb 0 remaining
          then (rl, false, remaining)
          else (put rl key (first_attempt now), true, 0))
      else (if ltb rl.max_attempts (rec.failures + 1)
          then (put rl key (record counted { locked_at = now }), false, rl.lockout_dur)
          else (put rl key counted, true, 0))

  unfoldable pub allow : RateLimiter → String → ℕ → Verdict
  unfolding allow_again
  allow rl key now = elim (lookup key rl.attempts) [
    | none ↦ (start_window rl key now, true, 0)
    | some rec ↦
        if ltb rl.window_dur (now - rec.updated_at)
        then (start_window rl key now, true, 0)
        else allow_again rl key now rec
  ]

unfoldable pub reset : RateLimiter → String → RateLimiter
reset rl key = drop_key rl key

-- What the middleware answers: the wrapped handler, or 429 with its Retry-After seconds.
pub data Answer : Type 0 where
  served : Answer
  too_many_requests : ℕ → Answer

unfoldable pub rate_limit_middleware :
    (Attempts → List String) → RateLimiter → String → ℕ → RateLimiter × Answer
rate_limit_middleware range_keys rl ip now =
    let (rl', allowed, remaining) = allow range_keys rl ip now in
    if allowed then (rl', served) else (rl', too_many_requests (remaining / 1000000000 + 1))

pub data Call : Type 0 where
  asks_locked records_failure asks_allow resets : String → Call
  cleans : Call

-- An operation at its time, with the order in which the map is met then.
pub record Event : Type 0 where
  pub now : ℕ
  pub range_keys : Attempts → List String
  pub call : Call

dispatch : RateLimiter → ℕ → (Attempts → List String) → Call → RateLimiter
dispatch rl now order (asks_locked key) = (is_locked rl key now).0
dispatch rl now order (records_failure key) = (record_failure order rl key now).0
dispatch rl now order (asks_allow key) = (allow order rl key now).0
dispatch rl now order (resets key) = reset rl key
dispatch rl now order cleans = cleanup_expired rl now

unfoldable pub step : RateLimiter → Event → RateLimiter
unfolding dispatch
step rl e = dispatch rl e.now e.range_keys e.call

unfoldable pub run : RateLimiter → List Event → RateLimiter
run rl [] = rl
run rl (e ∷ es) = run (step rl e) es
