-- ===== src/Auth/Limiter/Isolation.antt =====
-- What an operation does to the records of the other keys, and what an eviction can lose.
use openlocalcrm.Base.{
  ℕ, ◌+◌, ◌-◌, ◌≤◌, ◌<◌, ◌≡◌, ◌≢◌, ◌↔◌, ◌*◌, ap, inl, inr, String, true, false, not, Option, none,
  some, List, [], ◌∷◌, arith, nat_comparable, string_comparable, length, eq_refl, Option-cases,
}
use openlocalcrm.Base.Dict.{lookup, insert, delete, lookup-insert, lookup-delete, lookup-retain}
use openlocalcrm.Auth.Limiter.{
  AttemptRecord, Attempts, RateLimiter, is_stale, remove_expired, cleanup_expired, evict,
  eviction_count, ensure_capacity_locked, first_attempt, is_locked, start_window, record_failure,
  allow, reset, Call, asks_locked, records_failure, asks_allow, resets, cleans, step, served,
  too_many_requests, rate_limit_middleware,
}

abbrev pub target : Call → Option String
target (asks_locked key) = some key
target (records_failure key) = some key
target (asks_allow key) = some key
target (resets key) = some key
target cleans = none

-- The record of a key whose lockout is not over.
abbrev pub IsHeld : RateLimiter → String → AttemptRecord → ℕ → Type 0
IsHeld rl key rec now =
    (lookup key rl.attempts ≡ some rec)
    × (rec.locked_at ≢ 0)
    × (now ≤ rec.locked_at + rl.lockout_dur)

module _ (range_keys : Attempts → List String) (rl : RateLimiter) (key other : String) (now : ℕ)
    (apart : key ≢ other) (room : length rl.attempts < rl.max_entries) where
  lookup-put_other :
      (rec : AttemptRecord) → lookup other (insert key rec rl.attempts) ≡ lookup other rl.attempts
  lookup-put_other rec =
      ground (arith, lookup-insert key other rec rl.attempts, string_comparable.same_iff key other)

  lookup-drop_other : lookup other (delete key rl.attempts) ≡ lookup other rl.attempts
  lookup-drop_other =
      ground (arith, lookup-delete key other rl.attempts, string_comparable.same_iff key other)

  start_window-other :
      lookup other (start_window range_keys rl key now).attempts ≡ lookup other rl.attempts
  unfolding start_window ensure_capacity_locked
  start_window-other = ground (arith, lookup-put_other (first_attempt now))

  is_locked-other : lookup other (is_locked rl key now).0.attempts ≡ lookup other rl.attempts
  unfolding is_locked
  is_locked-other = ground (arith, lookup-drop_other)

  record_failure-other :
      lookup other (record_failure range_keys rl key now).0.attempts ≡ lookup other rl.attempts
  unfolding record_failure
  record_failure-other = elim (Option-cases (lookup key rl.attempts)) [
    | inl q ↦ rw (q, record_failure) start_window-other
    | inr (rec, q) ↦
        let failed = record rec { failures = rec.failures + 1; updated_at = now } in
        let same = start_window-other in
        rw (q, record_failure)
          (ground (
            arith,
            same,
            lookup-put_other failed,
            lookup-put_other (record failed { locked_at = now }),
          ))
  ]

  allow-other : lookup other (allow range_keys rl key now).0.attempts ≡ lookup other rl.attempts
  unfolding allow
  allow-other = elim (Option-cases (lookup key rl.attempts)) [
    | inl q ↦ rw (q, allow) start_window-other
    | inr (rec, q) ↦
        let counted = record rec { failures = rec.failures + 1; updated_at = now } in
        let same = start_window-other in
        rw (q, allow)
          (ground (
            arith,
            same,
            lookup-put_other counted,
            lookup-put_other (first_attempt now),
            lookup-put_other (record counted { locked_at = now }),
          ))
  ]

cleanup-keeps_lock :
    (rl : RateLimiter) (other : String) (rec : AttemptRecord) (now : ℕ)
    → IsHeld rl other rec now
    → lookup other (remove_expired rl now) ≡ some rec
unfolding remove_expired is_stale
cleanup-keeps_lock rl other rec now (found, locked, early) =
    ground (arith, found, lookup-retain (λ r. not (is_stale rl now r)) other rl.attempts)

-- While the table has room, no operation on another key, and no sweep, touches the record of a key
-- whose lockout is not over.
pub step-keeps_lock :
    (rl : RateLimiter) (other : String) (rec : AttemptRecord) (now : ℕ)
    (range_keys : Attempts → List String) (c : Call)
    → target c ≢ some other
    → length rl.attempts < rl.max_entries
    → IsHeld rl other rec now
    → lookup other (step rl (record { now = now; range_keys = range_keys; call = c })).attempts
      ≡ some rec
unfolding step reset cleanup_expired
step-keeps_lock rl other rec now order (asks_locked key) apart room held =
    rw (is_locked-other order rl key other now (λ e. apart (ap some e)) room) held.0
step-keeps_lock rl other rec now order (records_failure key) apart room held =
    rw (record_failure-other order rl key other now (λ e. apart (ap some e)) room) held.0
step-keeps_lock rl other rec now order (asks_allow key) apart room held =
    rw (allow-other order rl key other now (λ e. apart (ap some e)) room) held.0
step-keeps_lock rl other rec now order (resets key) apart room held =
    rw (lookup-drop_other order rl key other now (λ e. apart (ap some e)) room) held.0
step-keeps_lock rl other rec now order cleans apart room held =
    cleanup-keeps_lock rl other rec now held

-- The middleware runs the handler exactly when `Allow` admits the address; otherwise it answers 429
-- and asks the client to wait longer than what remains of the lock.
pub rate_limit_middleware_lem :
    (range_keys : Attempts → List String) (rl : RateLimiter) (ip : String) (now : ℕ)
    → let (rl', answer) = rate_limit_middleware range_keys rl ip now in
      let (rl'', allowed, remaining) = allow range_keys rl ip now in
      (rl' ≡ rl'')
      × ((answer ≡ served) ↔ (allowed ≡ true))
      × ((seconds : ℕ) → answer ≡ too_many_requests seconds → remaining < seconds * 1000000000)
unfolding rate_limit_middleware
rate_limit_middleware_lem range_keys rl ip now =
    let (rl', allowed, remaining) = allow range_keys rl ip now in
    (ground arith, (λ h. ground arith, λ h. ground arith), λ seconds h. ground arith)

evict-absent :
    (n : ℕ) (k : String) (ks : List String) (m : Attempts)
    → lookup k m ≡ none
    → lookup k (evict n ks m) ≡ none
unfolding evict
evict-absent n k [] m h = h
evict-absent n k (j ∷ ks) m h =
    ground (arith, lookup-delete j k m, evict-absent (n - 1) k ks (delete j m))

evict-head :
    (n : ℕ) (k : String) (ks : List String) (m : Attempts) → lookup k (evict n (k ∷ ks) m) ≡ none
unfolding evict
evict-head n k ks m =
    ground (arith, lookup-delete k k m, eq_refl k, evict-absent (n - 1) k ks (delete k m))

is_locked-fresh :
    (rl : RateLimiter) (key : String) (now : ℕ)
    → lookup key rl.attempts ≡ none
    → (is_locked rl key now).1 ≡ false
unfolding is_locked
is_locked-fresh rl key now fresh = rw (fresh, is_locked)

-- At capacity, with nothing stale to sweep, the next new key evicts whichever keys the map yields
-- first, though their lockout is not over.
pub eviction_unlocks :
    (range_keys : Attempts → List String) (rl : RateLimiter) (victim key : String) (now : ℕ)
    (rest : List String)
    → rl.max_entries ≤ length rl.attempts
    → remove_expired rl now ≡ rl.attempts
    → range_keys rl.attempts ≡ victim ∷ rest
    → victim ≢ key
    → lookup key rl.attempts ≡ none
    → (is_locked (record_failure range_keys rl key now).0 victim now).1 ≡ false
unfolding record_failure start_window ensure_capacity_locked
eviction_unlocks range_keys rl victim key now rest full unswept order apart fresh =
    let swept = evict (eviction_count rl.max_entries) (victim ∷ rest) rl.attempts in
    rw (fresh, record_failure)
      (is_locked-fresh _ victim now (
        ground (
          arith,
          unswept,
          order,
          string_comparable.same_iff key victim,
          evict-head (eviction_count rl.max_entries) victim rest rl.attempts,
          lookup-insert key victim (first_attempt now) swept,
        )))
