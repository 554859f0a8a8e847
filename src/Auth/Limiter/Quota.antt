-- ===== src/Auth/Limiter/Quota.antt =====
-- How many requests of a key `Allow` admits, and how a window ends a lock early.
use Prim.Native.Nat.{min}
use native.Mathlib.Decide.{dec_lt}
use openlocalcrm.Base.{
  ℕ, suc, ◌+◌, ◌-◌, ◌≤◌, ◌<◌, ◌≡◌, ◌≢◌, refl, ap, String, Bool, true, false, none, some, List, [],
  ◌∷◌, arith, nat_comparable, string_comparable, length, All,
}
use openlocalcrm.Base.Dict.{lookup, lookup-insert_self}
use openlocalcrm.Auth.Limiter.{
  AttemptRecord, Attempts, RateLimiter, ensure_capacity_locked, is_locked, first_attempt,
  start_window, allow,
}

abbrev count_if : Bool → ℕ → ℕ
count_if true n = suc n
count_if false n = n

module _ (range_keys : Attempts → List String) (key : String) where
  -- How many of the calls of `Allow` at these times answer true.
  unfoldable pub admitted : RateLimiter → List ℕ → ℕ
  admitted rl [] = 0
  admitted rl (t ∷ ts) =
      let answer = allow range_keys rl key t in count_if answer.1 (admitted answer.0 ts)

-- The key has an unlocked record of this window, after `n` admitted requests.
record Counts (cfg : RateLimiter) (key : String) (start n : ℕ) (rl : RateLimiter) : Type 0 where
  updated : ℕ
  held :
      lookup key rl.attempts ≡ some (record { failures = n; locked_at = 0; updated_at = updated })
  recent : start ≤ updated
  same_max : rl.max_attempts ≡ cfg.max_attempts
  same_window : rl.window_dur ≡ cfg.window_dur
  same_lockout : rl.lockout_dur ≡ cfg.lockout_dur

-- The key was locked in this window.
record Blocks (cfg : RateLimiter) (key : String) (start : ℕ) (rl : RateLimiter) : Type 0 where
  rec : AttemptRecord
  held : lookup key rl.attempts ≡ some rec
  recent : start ≤ rec.updated_at
  locked : start ≤ rec.locked_at
  same_window : rl.window_dur ≡ cfg.window_dur
  same_lockout : rl.lockout_dur ≡ cfg.lockout_dur

module _ (range_keys : Attempts → List String) (cfg : RateLimiter) (key : String) (start : ℕ)
    (pos : 0 < start) where
  -- A time before both the window and the lockout that begin at `start` are over.
  abbrev IsNear : ℕ → Type 0
  IsNear t = (start ≤ t) × (t ≤ start + cfg.window_dur) × (t < start + cfg.lockout_dur)

  allow-Blocks :
      (t : ℕ) (rl : RateLimiter)
      → IsNear t
      → Blocks cfg key start rl
      → ((allow range_keys rl key t).0 ≡ rl) × ((allow range_keys rl key t).1 ≡ false)
  unfolding allow
  allow-Blocks t rl near b = ground (arith, b.held, b.same_window, b.same_lockout)

  allow-Counts_under :
      (n t : ℕ) (rl : RateLimiter)
      → IsNear t
      → Counts cfg key start n rl
      → n < cfg.max_attempts
      → Counts cfg key start (suc n) (allow range_keys rl key t).0
        × ((allow range_keys rl key t).1 ≡ true)
  unfolding allow
  allow-Counts_under n t rl near c h =
      let counted : AttemptRecord = record { failures = n + 1; locked_at = 0; updated_at = t } in
      rw (c.held, allow)
        (
          record {
            updated = t;
            held = ground (
              arith,
              c.recent,
              c.same_max,
              c.same_window,
              lookup-insert_self key counted rl.attempts,
            );
            recent = near.0;
            same_max = ground (arith, c.recent, c.same_max, c.same_window);
            same_window = ground (arith, c.recent, c.same_max, c.same_window);
            same_lockout = ground (arith, c.recent, c.same_max, c.same_window, c.same_lockout);
          },
          ground (arith, c.recent, c.same_max, c.same_window),
        )

  allow-Counts_over :
      (n t : ℕ) (rl : RateLimiter)
      → IsNear t
      → Counts cfg key start n rl
      → cfg.max_attempts ≤ n
      → Blocks cfg key start (allow range_keys rl key t).0 × ((allow range_keys rl key t).1 ≡ false)
  unfolding allow
  allow-Counts_over n t rl near c h =
      let locked : AttemptRecord = record { failures = n + 1; locked_at = t; updated_at = t } in
      rw (c.held, allow)
        (
          record {
            rec = locked;
            held = ground (
              arith,
              c.recent,
              c.same_max,
              c.same_window,
              lookup-insert_self key locked rl.attempts,
            );
            recent = near.0;
            locked = near.0;
            same_window = ground (arith, c.recent, c.same_max, c.same_window);
            same_lockout = ground (arith, c.recent, c.same_max, c.same_window, c.same_lockout);
          },
          ground (arith, c.recent, c.same_max, c.same_window),
        )

  admitted-Blocks :
      (rl : RateLimiter) (ts : List ℕ)
      → All IsNear ts
      → Blocks cfg key start rl
      → admitted range_keys key rl ts ≡ 0
  unfolding admitted
  admitted-Blocks rl [] near b = refl
  admitted-Blocks rl (t ∷ ts) (near, nears) b =
      let (same, refused) = allow-Blocks t rl near b in
      rw (refused, same) (admitted-Blocks rl ts nears b)

  admitted-Counts :
      (n : ℕ) (rl : RateLimiter) (ts : List ℕ)
      → All IsNear ts
      → Counts cfg key start n rl
      → admitted range_keys key rl ts ≡ min (length ts) (cfg.max_attempts - n)
  unfolding admitted
  admitted-Counts n rl [] near c = omega arith
  admitted-Counts n rl (t ∷ ts) (near, nears) c = elim (dec_lt n cfg.max_attempts) [
    | yes h ↦
        let (counts, accepted) = allow-Counts_under n t rl near c h in
        rw accepted (omega (arith, admitted-Counts (suc n) _ ts nears counts))
    | no h ↦
        let (blocks, refused) = allow-Counts_over n t rl near c (omega arith) in
        rw refused (omega (arith, admitted-Blocks _ ts nears blocks))
  ]

  start_window-Counts :
      lookup key cfg.attempts ≡ none → Counts cfg key start 1 (allow range_keys cfg key start).0
  unfolding allow start_window ensure_capacity_locked
  start_window-Counts fresh =
      let ensured = ensure_capacity_locked range_keys cfg start in
      rw (fresh, allow)
        (record {
          updated = start;
          held = lookup-insert_self key (first_attempt start) ensured.attempts;
          recent = omega arith;
          same_max = ground arith;
          same_window = ground arith;
          same_lockout = ground arith;
        })

-- Of the requests of a key without a record, the first at `t` and the others while neither the
-- window nor the lockout that would begin at `t` is over, `Allow` admits the first, and of the
-- others as many as `maxAttempts` leaves; it never admits more.
pub admitted_lem :
    (range_keys : Attempts → List String) (rl : RateLimiter) (key : String) (t : ℕ) (ts : List ℕ)
    → 0 < t
    → lookup key rl.attempts ≡ none
    → All (λ s. (t ≤ s) × (s ≤ t + rl.window_dur) × (s < t + rl.lockout_dur)) ts
    → admitted range_keys key rl (t ∷ ts) ≡ suc (min (length ts) (rl.max_attempts - 1))
unfolding admitted
admitted_lem range_keys rl key t ts pos fresh near =
    let accepted : (allow range_keys rl key t).1 ≡ true = unfold allow in rw (fresh, allow) refl in
    rw accepted (
      ap suc (
        admitted-Counts range_keys rl key t pos 1 _ ts near
          (start_window-Counts range_keys rl key t pos fresh)))

-- A key that `IsLocked` reports as locked is admitted by `Allow`, and its lock is forgotten, as soon
-- as the window has passed since its last attempt, however long the lockout is.
pub allow_forgets_lock :
    (range_keys : Attempts → List String) (rl : RateLimiter) (key : String) (now : ℕ)
    (rec : AttemptRecord)
    → lookup key rl.attempts ≡ some rec
    → rec.locked_at ≢ 0
    → now < rec.locked_at + rl.lockout_dur
    → rec.updated_at + rl.window_dur < now
    → ((is_locked rl key now).1 ≡ true)
      × ((allow range_keys rl key now).1 ≡ true)
      × ((is_locked (allow range_keys rl key now).0 key now).1 ≡ false)
unfolding is_locked allow start_window
allow_forgets_lock range_keys rl key now rec found locked early late = ground (
  arith,
  found,
  lookup-insert_self key (first_attempt now) (ensure_capacity_locked range_keys rl now).attempts,
)
