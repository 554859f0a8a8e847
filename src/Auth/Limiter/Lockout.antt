-- ===== src/Auth/Limiter/Lockout.antt =====
-- When a run of failed attempts locks a key.
use native.Mathlib.Nat.{add-zero, add-suc, suc-add}
use openlocalcrm.Base.{
  ℕ, suc, ◌+◌, ◌≤◌, ◌<◌, ◌≡◌, String, ◌&&◌, none, some, List, [], ◌∷◌, arith, ltb, leb,
  nat_comparable, string_comparable, if◌then◌else◌, length,
}
use openlocalcrm.Base.Dict.{lookup, lookup-insert_self}
use openlocalcrm.Auth.Limiter.{
  AttemptRecord, Attempts, RateLimiter, ensure_capacity_locked, is_locked, first_attempt,
  start_window, record_failure,
}

-- Each time follows the one before it within the window.
abbrev pub InWindow : ℕ → ℕ → List ℕ → Type 0
InWindow window t [] = Unit
InWindow window t (s ∷ ts) = (t ≤ s) × (s ≤ t + window) × InWindow window s ts

abbrev pub last_of : ℕ → List ℕ → ℕ
last_of t [] = t
last_of t (s ∷ ts) = last_of s ts

last_of_pos : (window t : ℕ) (ts : List ℕ) → 0 < t → InWindow window t ts → 0 < last_of t ts
last_of_pos window t [] pos w = pos
last_of_pos window t (s ∷ ts) pos (after, _, w) = last_of_pos window s ts (omega arith) w

module _ (range_keys : Attempts → List String) (key : String) where
  -- `RecordFailure` of the key at each of the times.
  unfoldable pub record_failures : RateLimiter → List ℕ → RateLimiter
  record_failures rl [] = rl
  record_failures rl (t ∷ ts) = record_failures (record_failure range_keys rl key t).0 ts

-- The record after `n` failures, the last of them at `t`, under the limits of `cfg`.
record Tracks (cfg : RateLimiter) (key : String) (n t : ℕ) (rl : RateLimiter) : Type 0 where
  held :
      lookup key rl.attempts
      ≡ some (record {
        failures = n;
        locked_at = if leb cfg.max_attempts n && ltb 1 n then t else 0;
        updated_at = t;
      })
  same_max : rl.max_attempts ≡ cfg.max_attempts
  same_window : rl.window_dur ≡ cfg.window_dur
  same_lockout : rl.lockout_dur ≡ cfg.lockout_dur

module _ (range_keys : Attempts → List String) (cfg : RateLimiter) (key : String) where
  start_window-Tracks : (t : ℕ) → Tracks cfg key 1 t (start_window range_keys cfg key t)
  unfolding start_window ensure_capacity_locked
  start_window-Tracks t =
      let ensured = ensure_capacity_locked range_keys cfg t in
      record {
        held = rw (lookup-insert_self key (first_attempt t) ensured.attempts) (ground arith);
        same_max = ground arith;
        same_window = ground arith;
        same_lockout = ground arith;
      }

  record_failure-Tracks :
      (n t s : ℕ) (rl : RateLimiter)
      → Tracks cfg key n t rl
      → 0 < n
      → t ≤ s
      → s ≤ t + cfg.window_dur
      → Tracks cfg key (suc n) s (record_failure range_keys rl key s).0
  unfolding record_failure
  record_failure-Tracks n t s rl k pos after before =
      let failed : AttemptRecord = record {
        failures = n + 1;
        locked_at = if leb cfg.max_attempts n && ltb 1 n then t else 0;
        updated_at = s;
      } in
      ground (
        arith,
        k.held,
        k.same_max,
        k.same_window,
        k.same_lockout,
        lookup-insert_self key failed rl.attempts,
        lookup-insert_self key (record failed { locked_at = s }) rl.attempts,
      )

  record_failures-Tracks :
      (n t : ℕ) (rl : RateLimiter) (ts : List ℕ)
      → Tracks cfg key n t rl
      → 0 < n
      → InWindow cfg.window_dur t ts
      → Tracks cfg key (n + length ts) (last_of t ts) (record_failures range_keys key rl ts)
  unfolding record_failures
  record_failures-Tracks n t rl [] k pos w = rw (add-zero n) k
  record_failures-Tracks n t rl (s ∷ ts) k pos (after, before, w) =
      rw (add-suc n (length ts), ← suc-add n (length ts))
        (record_failures-Tracks (suc n) s _ ts (record_failure-Tracks n t s rl k pos after before)
          (omega arith) w)

  is_locked_of_Tracks :
      (n t now : ℕ) (rl : RateLimiter)
      → Tracks cfg key n t rl
      → 0 < t
      → (is_locked rl key now).1
        ≡ (leb cfg.max_attempts n && ltb 1 n && ltb now (t + cfg.lockout_dur))
  unfolding is_locked
  is_locked_of_Tracks n t now rl k pos = ground (arith, k.held, k.same_lockout)

-- After failures of a key without a record at the times `t ∷ ts`, each within the window of the one
-- before, the key is locked exactly when there were at least two of them and at least
-- `maxAttempts`, and the lockout, counted from the last one, is not over.
pub record_failures_lock :
    (range_keys : Attempts → List String) (rl : RateLimiter) (key : String) (t : ℕ) (ts : List ℕ)
    (now : ℕ)
    → 0 < t
    → lookup key rl.attempts ≡ none
    → InWindow rl.window_dur t ts
    → (is_locked (record_failures range_keys key rl (t ∷ ts)) key now).1 ≡ (
        leb rl.max_attempts (suc (length ts))
        && ltb 1 (suc (length ts))
        && ltb now (last_of t ts + rl.lockout_dur))
unfolding record_failures record_failure
record_failures_lock range_keys rl key t ts now pos fresh w =
    let started = start_window-Tracks range_keys rl key t in
    let tracked = record_failures-Tracks range_keys rl key 1 t _ ts started (omega arith) w in
    let count : 1 + length ts ≡ suc (length ts) = omega arith in
    rw (fresh, record_failure)
      (is_locked_of_Tracks range_keys rl key (suc (length ts)) (last_of t ts) now _
        (rw count at tracked) (last_of_pos rl.window_dur t ts pos w))
