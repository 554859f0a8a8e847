-- ===== src/Core/Invite/Sound.antt =====
-- The table of invites through all calls that change it in internal/core/invite/service.go and its
-- handler: issues, acceptances and revocations.
use openlocalcrm.Base.{
  ℕ, ◌≤◌, ◌≡◌, refl, sym, ap, ◌∙◌, inl, inr, String, true, false, ◌&&◌, some, [], ◌∷◌, ◌==◌, arith,
  Bool-cases, eq→≡, eq_refl, nat_comparable, string_comparable, option_comparable,
}
use openlocalcrm.Base.Count.{bit, count, count-insert}
use openlocalcrm.Base.Dict.{Unique, lookup, insert}
use openlocalcrm.Db.Models.{Uuid, UserInvite}
use openlocalcrm.Db.Demo.Invites.{Invites, has_hash, is_active, find_active}
use openlocalcrm.Core.Invite.Once.{count_hash, IsKeyed}

pub counted :
    (h : String) (rows : Invites) → count_hash h rows ≡ count (λ r. r.token_hash == h) rows
unfolding count_hash count
counted h [] = refl
counted h ((id, r) ∷ rows) =
    let ih = counted h rows in
    elim (Bool-cases (r.token_hash == h)) [
      | inl q ↦ simp (q, ih) (omega arith)
      | inr q ↦ simp (q, ih) (omega arith)
    ]

-- An insertion in the place of a row with the same hash keeps the counts.
pub count_hash-replaced :
    (h : String) (id : Uuid) (old new : UserInvite) (rows : Invites)
    → lookup id rows ≡ some old
    → new.token_hash ≡ old.token_hash
    → count_hash h (insert id new rows) ≡ count_hash h rows
count_hash-replaced h id old new rows stored same =
    let c = count-insert (λ r. r.token_hash == h) id new rows in
    let was = rw stored at c in
    let one : bit (new.token_hash == h) ≡ bit (old.token_hash == h) = ap (λ x. bit (x == h)) same in
    omega (arith, was, one, counted h rows, counted h (insert id new rows))

pub count_hash-fresh :
    (h : String) (rows : Invites) → has_hash h rows ≡ false → count_hash h rows ≡ 0
unfolding has_hash count_hash
count_hash-fresh h [] fresh = refl
count_hash-fresh h ((id, r) ∷ rows) fresh = elim (Bool-cases (r.token_hash == h)) [
  | inl q ↦ absurd (cc (rw q at fresh))
  | inr q ↦ simp q (count_hash-fresh h rows (rw q at fresh))
]

pub count_hash-added :
    (h : String) (id : Uuid) (new : UserInvite) (rows : Invites)
    → has_hash new.token_hash rows ≡ false
    → count_hash h rows ≤ 1
    → count_hash h (insert id new rows) ≤ 1
count_hash-added h id new rows fresh one =
    let c = count-insert (λ r. r.token_hash == h) id new rows in
    elim (Bool-cases (new.token_hash == h)) [
      | inr q ↦ omega (arith, rw q at c, one, counted h rows, counted h (insert id new rows))
      | inl q ↦
          let zero = count_hash-fresh h rows (rw (eq→≡ new.token_hash h q) at fresh) in
          omega (arith, rw q at c, zero, counted h rows, counted h (insert id new rows))
    ]

pub insert-IsKeyed :
    (id : Uuid) (r : UserInvite) (rows : Invites)
    → id ≡ r.id
    → IsKeyed rows
    → IsKeyed (insert id r rows)
unfolding insert
insert-IsKeyed id r [] own keyed = (own, tt)
insert-IsKeyed id r ((j, w) ∷ rows) own (first, keyed) = elim (Bool-cases (j == id)) [
  | inl q ↦ simp q ((eq→≡ j id q ∙ own), keyed)
  | inr q ↦ simp q (first, insert-IsKeyed id r rows own keyed)
]

pub lookup-own :
    (id : Uuid) (r : UserInvite) (rows : Invites)
    → IsKeyed rows
    → lookup id rows ≡ some r
    → id ≡ r.id
unfolding lookup
lookup-own id r [] keyed h = absurd (cc h)
lookup-own id r ((j, w) ∷ rows) (first, keyed) h = elim (Bool-cases (j == id)) [
  | inl q ↦ let same : w ≡ r = cc (rw q at h) in sym (eq→≡ j id q) ∙ first ∙ ap (λ x. x.id) same
  | inr q ↦ lookup-own id r rows keyed (rw q at h)
]

-- The row that an acceptance locks stands under its id.
pub find_active-stored :
    (h : String) (now : ℕ) (rows : Invites) (locked : UserInvite)
    → IsKeyed rows
    → Unique rows
    → find_active h now rows ≡ some locked
    → lookup locked.id rows ≡ some locked
unfolding find_active lookup
find_active-stored h now [] locked keyed u found = absurd (cc found)
find_active-stored h now ((j, w) ∷ rows) locked (first, keyed) (new, u) found =
    elim (Bool-cases (w.token_hash == h && is_active now w)) [
      | inl q ↦
          let same : w ≡ locked = cc (rw q at found) in
          let at : (j == locked.id) ≡ true = rw (first, same) (eq_refl locked.id) in
          rw at (ap some same)
      | inr q ↦
          let ih = find_active-stored h now rows locked keyed u (rw q at found) in
          elim (Bool-cases (j == locked.id)) [
            | inl r ↦ absurd (cc (rw (eq→≡ j locked.id r) at new, ih))
            | inr r ↦ rw r ih
          ]
    ]
