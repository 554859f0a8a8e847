-- ===== src/Auth/Limiter/Tests.antt =====
-- Runs of the limiter on small inputs, and the theorems at inputs that meet their hypotheses.
use mathlib.Core.List.{Memᴰ}
use openlocalcrm.Base.{
  ◌≡◌, ◌≢◌, refl, String, true, none, some, List, [], ◌∷◌, map, string_comparable, nat_comparable,
  arith, All, eq_refl, eq→≡, sym, Bool-cases, inl, inr, ◌==◌,
}
use openlocalcrm.Base.Dict.{lookup, insert}
use openlocalcrm.Auth.Limiter.{
  AttemptRecord, Attempts, RateLimiter, new_rate_limiter, record_failure, is_locked, allow,
  start_window, ensure_capacity_locked, Event, records_failure, asks_allow, run, step,
}
use openlocalcrm.Auth.Limiter.Capacity.{Enumerates, IsBounded, run-IsBounded}
use openlocalcrm.Auth.Limiter.Lockout.{record_failures, record_failures_lock}
use openlocalcrm.Auth.Limiter.Quota.{admitted, admitted_lem, allow_forgets_lock}
use openlocalcrm.Auth.Limiter.Isolation.{step-keeps_lock}

abbrev keys_of : Attempts → List String
keys_of m = map (λ e. e.0) m

All-map {ℓ κ μ} :
    {A : Type ℓ} (P : A → Type κ) (Q : A → Type μ) (xs : List A)
    → ((x : A) → P x → Q x)
    → All P xs
    → All Q xs
All-map P Q [] f a = tt
All-map P Q (x ∷ xs) f a = (f x a.0, All-map P Q xs f a.1)

lookup-cons_ne :
    (k j : String) (v : AttemptRecord) (m : Attempts)
    → lookup k m ≢ none
    → lookup k ((j, v) ∷ m) ≢ none
unfolding lookup
lookup-cons_ne k j v m h = ground arith

keys_of_complete : (m : Attempts) (k : String) → lookup k m ≢ none → Memᴰ k (keys_of m)
unfolding lookup
keys_of_complete [] k h = absurd (h refl)
keys_of_complete ((j, v) ∷ m) k h = elim (Bool-cases (j == k)) [
  | inl same ↦ Memᴰ.head (sym (eq→≡ j k same))
  | inr other ↦ Memᴰ.tail (keys_of_complete m k (ground arith))
]

keys_of_sound : (m : Attempts) → All (λ k. lookup k m ≢ none) (keys_of m)
unfolding lookup
keys_of_sound [] = tt
keys_of_sound ((j, v) ∷ m) = (
  rw (eq_refl j) (λ p. cc),
  All-map _ _ (keys_of m) (λ k. lookup-cons_ne k j v m) (keys_of_sound m),
)

keys_of-Enumerates : Enumerates keys_of
keys_of-Enumerates = record { complete = keys_of_complete; sound = keys_of_sound }

-- Two attempts, a window of 100 and a lockout of 300.
small : RateLimiter
unfolding new_rate_limiter
small = new_rate_limiter 2 100 300

abbrev twice_failed : RateLimiter
twice_failed = record_failures keys_of "a" small (10 ∷ 20 ∷ [])

twice_failed_locked : (is_locked twice_failed "a" 120).1 ≡ true
unfolding small record_failures record_failure is_locked lookup insert start_window
    ensure_capacity_locked
twice_failed_locked = refl

allowed_three : admitted keys_of "a" small (10 ∷ 11 ∷ 12 ∷ []) ≡ 2
unfolding small admitted allow lookup insert start_window ensure_capacity_locked
allowed_three = refl

abbrev failing : Event
failing = record { now = 10; range_keys = keys_of; call = records_failure "a" }

abbrev asking : Event
asking = record { now = 500; range_keys = keys_of; call = asks_allow "b" }

run-IsBounded_example : IsBounded (run small (failing ∷ asking ∷ []))
unfolding small
run-IsBounded_example =
    run-IsBounded small (failing ∷ asking ∷ []) (keys_of-Enumerates, (keys_of-Enumerates, tt))
      (record { positive = omega arith; within = omega arith })

record_failures_lock_example :
    (is_locked (record_failures keys_of "a" small (10 ∷ 20 ∷ [])) "a" 120).1 ≡ true
unfolding small lookup
record_failures_lock_example =
    record_failures_lock keys_of small "a" 10 (20 ∷ []) 120 (omega arith) refl (omega arith)

admitted_lem_example : admitted keys_of "a" small (10 ∷ 11 ∷ 12 ∷ []) ≡ 2
unfolding small lookup
admitted_lem_example =
    admitted_lem keys_of small "a" 10 (11 ∷ 12 ∷ []) (omega arith) refl (omega arith)

abbrev held_record : AttemptRecord
held_record = record { failures = 3; locked_at = 20; updated_at = 20 }

abbrev holding : RateLimiter
holding = record {
  attempts = ("a", held_record) ∷ [];
  max_attempts = 2;
  lockout_dur = 300;
  window_dur = 100;
  max_entries = 1;
}

allow_forgets_lock_example : (allow keys_of holding "a" 200).1 ≡ true
unfolding lookup
allow_forgets_lock_example =
    (allow_forgets_lock keys_of holding "a" 200 held_record refl (omega arith) (omega arith)
      (omega arith)).1

abbrev roomy : RateLimiter
roomy = record holding { max_entries = 5 }

step-keeps_lock_example :
    lookup "a"
      (step roomy (record { now = 200; range_keys = keys_of; call = asks_allow "b" })).attempts
    ≡ some held_record
unfolding lookup
step-keeps_lock_example =
    step-keeps_lock roomy "a" held_record 200 keys_of (asks_allow "b")
      (ground (arith, string_comparable.same_iff "b" "a")) (omega arith)
      (refl, omega arith, omega arith)
