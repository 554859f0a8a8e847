-- ===== src/Auth/Limiter/Capacity.antt =====
-- The table of attempts never outgrows its capacity.
use mathlib.Core.List.{Memᴰ}
use openlocalcrm.Base.{
  ℕ, ◌+◌, ◌-◌, ◌≤◌, ◌<◌, ◌≡◌, refl, ◌≢◌, inl, inr, String, none, some, List, [], ◌∷◌, arith,
  nat_comparable, string_comparable, length, All, eq_refl, Option-cases,
}
use openlocalcrm.Base.Dict.{
  lookup, delete, length-insert-le, length-insert_old, length-delete-le, length-delete-lt,
  length-retain-le,
}
use openlocalcrm.Auth.Limiter.{
  AttemptRecord, Attempts, RateLimiter, remove_expired, cleanup_expired, evict, eviction_count,
  ensure_capacity_locked, first_attempt, put, drop_key, is_locked, start_window, record_failure,
  allow, reset, Event, Call, asks_locked, records_failure, asks_allow, resets, cleans, step, run,
}

-- What Go says of `range` over a map: it meets every key, and nothing else.
pub record Enumerates (range_keys : Attempts → List String) : Type 0 where
  pub complete : (m : Attempts) (k : String) → lookup k m ≢ none → Memᴰ k (range_keys m)
  pub sound : (m : Attempts) → All (λ k. lookup k m ≢ none) (range_keys m)

pub record IsBounded (rl : RateLimiter) : Type 0 where
  pub positive : 0 < rl.max_entries
  pub within : length rl.attempts ≤ rl.max_entries

length-evict-le : (n : ℕ) (ks : List String) (m : Attempts) → length (evict n ks m) ≤ length m
unfolding evict
length-evict-le n [] m = omega arith
length-evict-le n (k ∷ ks) m =
    ground (arith, length-evict-le (n - 1) ks (delete k m), length-delete-le k m)

evict-lt :
    (n : ℕ) (ks : List String) (m : Attempts)
    → ks ≢ []
    → All (λ k. lookup k m ≢ none) ks
    → length (evict n ks m) < length m
unfolding evict
evict-lt n [] m h a = absurd (h refl)
evict-lt n (k ∷ ks) m h a =
    ground (arith, length-evict-le (n - 1) ks (delete k m), length-delete-lt k m a.0)

nothing_in_nil : {k : String} → Memᴰ k [] → ⊥
nothing_in_nil h = elim h [ ]

range-ne-nil :
    (range_keys : Attempts → List String) (m : Attempts)
    → Enumerates range_keys
    → 0 < length m
    → range_keys m ≢ []
unfolding lookup
range-ne-nil range_keys [] e h = absurd (omega arith)
range-ne-nil range_keys ((k, v) ∷ m) e h =
    λ q. nothing_in_nil (rw q at (e.complete ((k, v) ∷ m) k (rw (eq_refl k) (λ p. cc))))

length-remove_expired-le :
    (rl : RateLimiter) (now : ℕ) → length (remove_expired rl now) ≤ length rl.attempts
unfolding remove_expired
length-remove_expired-le rl now = length-retain-le _ rl.attempts

-- After it there is room for one more.
ensure_capacity_room :
    (range_keys : Attempts → List String) (rl : RateLimiter) (now : ℕ)
    → Enumerates range_keys
    → IsBounded rl
    → (length (ensure_capacity_locked range_keys rl now).attempts < rl.max_entries)
      × ((ensure_capacity_locked range_keys rl now).max_entries ≡ rl.max_entries)
unfolding ensure_capacity_locked
ensure_capacity_room range_keys rl now e b =
    let left = remove_expired rl now in
    ground (
      arith,
      length-remove_expired-le rl now,
      evict-lt (eviction_count rl.max_entries) (range_keys left) left,
      range-ne-nil range_keys left e,
      e.sound left,
    )

start_window-IsBounded :
    (range_keys : Attempts → List String) (rl : RateLimiter) (key : String) (now : ℕ)
    → Enumerates range_keys
    → IsBounded rl
    → IsBounded (start_window range_keys rl key now)
unfolding start_window
start_window-IsBounded range_keys rl key now e b =
    let ensured = ensure_capacity_locked range_keys rl now in
    let (room, same) = ensure_capacity_room range_keys rl now e b in
    record {
      positive = omega arith;
      within = omega (arith, length-insert-le key (first_attempt now) ensured.attempts);
    }

put-IsBounded :
    (rl : RateLimiter) (key : String) (old rec : AttemptRecord)
    → lookup key rl.attempts ≡ some old
    → IsBounded rl
    → IsBounded (put rl key rec)
put-IsBounded rl key old rec found b = record {
  positive = b.positive;
  within = omega (arith, length-insert_old key rec rl.attempts (λ q. cc));
}

drop_key-IsBounded : (rl : RateLimiter) (key : String) → IsBounded rl → IsBounded (drop_key rl key)
drop_key-IsBounded rl key b = record {
  positive = b.positive;
  within = omega (arith, length-delete-le key rl.attempts);
}

is_locked-IsBounded :
    (rl : RateLimiter) (key : String) (now : ℕ) → IsBounded rl → IsBounded (is_locked rl key now).0
unfolding is_locked
is_locked-IsBounded rl key now b = ground (arith, drop_key-IsBounded rl key b)

record_failure-IsBounded :
    (range_keys : Attempts → List String) (rl : RateLimiter) (key : String) (now : ℕ)
    → Enumerates range_keys
    → IsBounded rl
    → IsBounded (record_failure range_keys rl key now).0
unfolding record_failure
record_failure-IsBounded range_keys rl key now e b = elim (Option-cases (lookup key rl.attempts)) [
  | inl q ↦ rw (q, record_failure) (start_window-IsBounded range_keys rl key now e b)
  | inr (rec, q) ↦
      let failed = record rec { failures = rec.failures + 1; updated_at = now } in
      let fresh = start_window-IsBounded range_keys rl key now e b in
      rw (q, record_failure)
        (ground (
          arith,
          fresh,
          put-IsBounded rl key rec failed q b,
          put-IsBounded rl key rec (record failed { locked_at = now }) q b,
        ))
]

allow-IsBounded :
    (range_keys : Attempts → List String) (rl : RateLimiter) (key : String) (now : ℕ)
    → Enumerates range_keys
    → IsBounded rl
    → IsBounded (allow range_keys rl key now).0
unfolding allow
allow-IsBounded range_keys rl key now e b = elim (Option-cases (lookup key rl.attempts)) [
  | inl q ↦ rw (q, allow) (start_window-IsBounded range_keys rl key now e b)
  | inr (rec, q) ↦
      let counted = record rec { failures = rec.failures + 1; updated_at = now } in
      let fresh = start_window-IsBounded range_keys rl key now e b in
      rw (q, allow)
        (ground (
          arith,
          fresh,
          put-IsBounded rl key rec (first_attempt now) q b,
          put-IsBounded rl key rec counted q b,
          put-IsBounded rl key rec (record counted { locked_at = now }) q b,
        ))
]

step-IsBounded :
    (rl : RateLimiter) (now : ℕ) (order : Attempts → List String) (c : Call)
    → Enumerates order
    → IsBounded rl
    → IsBounded (step rl (record { now = now; range_keys = order; call = c }))
unfolding step cleanup_expired reset
step-IsBounded rl now order (asks_locked key) h b = is_locked-IsBounded rl key now b
step-IsBounded rl now order (records_failure key) h b =
    record_failure-IsBounded order rl key now h b
step-IsBounded rl now order (asks_allow key) h b = allow-IsBounded order rl key now h b
step-IsBounded rl now order (resets key) h b = drop_key-IsBounded rl key b
step-IsBounded rl now order cleans h b = record {
  positive = b.positive;
  within = omega (arith, length-remove_expired-le rl now);
}

-- From a limiter within its positive capacity, any sequence of operations, at any times and with
-- any order in which Go meets the keys of the map, leaves the limiter within that capacity.
pub run-IsBounded :
    (rl : RateLimiter) (es : List Event)
    → All (λ e. Enumerates e.range_keys) es
    → IsBounded rl
    → IsBounded (run rl es)
unfolding run
run-IsBounded rl [] h b = b
run-IsBounded rl (e ∷ es) (h, hs) b =
    run-IsBounded (step rl e) es hs (step-IsBounded rl e.now e.range_keys e.call h b)
