-- ===== src/Base/Count.antt =====
-- How many values of one of Go's maps pass a test.
use openlocalcrm.Base.Tests.{Comparable, ◌==◌, Bool-cases}
use openlocalcrm.Base.Dict.{Dict, lookup, insert, delete, retain}
use Prim.Native.Nat.{ℕ, ◌+◌, ◌≤◌}
use mathlib.Core.Path.{◌≡◌, refl}
use mathlib.Core.Logic.{inl, inr}
use mathlib.Core.Bool.{Bool, true, false}
use mathlib.Core.Option.{Option, none, some}
use mathlib.Core.List.{[], ◌∷◌}
use native.Mathlib.Omega.{arith}

abbrev pub bit : Bool → ℕ
bit true = 1
bit false = 0

abbrev pub held {ℓ} : {V : Type ℓ} → (V → Bool) → Option V → ℕ
held p none = 0
held p (some v) = bit (p v)

module _ {ℓ κ} {K : Type ℓ} {V : Type κ} where
  unfoldable pub count : (V → Bool) → Dict K V → ℕ
  count p [] = 0
  count p ((k, v) ∷ m) = bit (p v) + count p m

module _ {ℓ κ} {K : Type ℓ} {V : Type κ} ⦃e : Comparable K⦄ where
  pub count-insert :
      (p : V → Bool) (k : K) (v : V) (m : Dict K V)
      → count p (insert k v m) + held p (lookup k m) ≡ count p m + bit (p v)
  unfolding count insert lookup
  count-insert p k v [] = omega arith
  count-insert p k v ((i, w) ∷ m) =
      let ih = count-insert p k v m in
      elim (Bool-cases (i == k)) [ inl q ↦ rw q (omega arith) | inr q ↦ rw q (omega (arith, ih)) ]

  pub count-delete-le : (p : V → Bool) (k : K) (m : Dict K V) → count p (delete k m) ≤ count p m
  unfolding count delete
  count-delete-le p k [] = omega arith
  count-delete-le p k ((i, w) ∷ m) = ground (arith, count-delete-le p k m)

  pub count-retain-le : (p q : V → Bool) (m : Dict K V) → count p (retain q m) ≤ count p m
  unfolding count retain
  count-retain-le p q [] = omega arith
  count-retain-le p q ((i, w) ∷ m) =
      ground (arith, count-retain-le p q m, count-delete-le p i (retain q m))

  -- A test that excludes what is retained counts nothing.
  pub count-retain_none :
      (p q : V → Bool) (m : Dict K V)
      → ((v : V) → p v ≡ true → q v ≡ false)
      → count p (retain q m) ≡ 0
  unfolding count retain
  count-retain_none p q [] apart = refl
  count-retain_none p q ((i, w) ∷ m) apart =
      let ih = count-retain_none p q m apart in
      let fewer = count-delete-le p i (retain q m) in
      elim (Bool-cases (q w)) [
        | inr r ↦ rw r (omega (arith, ih, fewer))
        | inl r ↦ elim (Bool-cases (p w)) [
          | inl s ↦ absurd (cc (apart w s, r))
          | inr s ↦ rw (r, s) (omega (arith, ih))
        ]
      ]
