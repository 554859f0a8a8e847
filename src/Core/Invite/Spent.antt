-- ===== src/Core/Invite/Spent.antt =====
-- A token of internal/core/invite/service.go that was accepted, through all later calls.
use openlocalcrm.Base.{
  ℕ, ◌≤◌, ◌≡◌, refl, inl, inr, String, Bool, true, false, ◌&&◌, none, some, [], ◌∷◌, ltb, ◌==◌,
  if◌then◌else◌, length, arith, Bool-cases, Option-cases, eq→≡, nat_comparable, string_comparable,
  option_comparable,
}
use openlocalcrm.Base.Count.{bit, count, count-insert}
use openlocalcrm.Base.Dict.{lookup, insert}
use openlocalcrm.Base.Text.{Text}
use openlocalcrm.Base.Results.{failed, done}
use openlocalcrm.Db.Models.{Uuid, User, UserInvite}
use openlocalcrm.Db.Demo.Users.{find_email}
use openlocalcrm.Db.Demo.Invites.{
  Invites, Tables, CreateInvitedUserWithInviteParams, has_hash, is_active, find_active, new_invite,
  accept_user_invite, create_invited_user_with_invite, revoke_user_invite,
}
use openlocalcrm.Core.Invite.{min_password_length, weak_password, invite_not_usable, accept}
use openlocalcrm.Core.Invite.Once.{count_hash, accept_done, accepted_tables, accept_again}
use openlocalcrm.Core.Invite.Sound.{
  counted, count_hash-replaced, count_hash-fresh, find_active-stored,
}
use openlocalcrm.Core.Invite.Reachable.{
  IsSound, Reachable, created-IsSound, accepted-IsSound, revoked-IsSound, reachable-IsSound,
}

-- A row of the hash that was not consumed.
abbrev is_open : String → UserInvite → Bool
is_open h r = r.token_hash == h && r.consumed_at == none

-- The hash is in the table, and no row of it is open.
record IsUsedUp (h : String) (rows : Invites) : Type 0 where
  stays : 1 ≤ count_hash h rows
  closed : count (is_open h) rows ≡ 0

count-open-le : (h : String) (rows : Invites) → count (is_open h) rows ≤ count_hash h rows
unfolding count count_hash
count-open-le h [] = omega arith
count-open-le h ((id, r) ∷ rows) =
    let ih = count-open-le h rows in
    elim (Bool-cases (r.token_hash == h)) [
      | inl q ↦ elim (Bool-cases (r.consumed_at == none)) [
        | inl p ↦ simp (q, p) (omega (arith, ih))
        | inr p ↦ simp (q, p) (omega (arith, ih))
      ]
      | inr q ↦ simp q (omega (arith, ih))
    ]

find_active-is_open :
    (h : String) (now : ℕ) (rows : Invites) (locked : UserInvite)
    → find_active h now rows ≡ some locked
    → is_open h locked ≡ true
unfolding find_active is_active
find_active-is_open h now [] locked found = absurd (cc found)
find_active-is_open h now ((id, r) ∷ rows) locked found =
    let ih = find_active-is_open h now rows locked in
    elim (Bool-cases (r.token_hash == h && is_active now r)) [
      | inl q ↦ let same : r ≡ locked = cc (rw q at found) in rw (← same) (ground (arith, q))
      | inr q ↦ ih (rw q at found)
    ]

closed-find_active :
    (h : String) (now : ℕ) (rows : Invites)
    → count (is_open h) rows ≡ 0
    → find_active h now rows ≡ none
unfolding count find_active is_active
closed-find_active h now [] none_open = refl
closed-find_active h now ((id, r) ∷ rows) none_open =
    let ih = closed-find_active h now rows in ground (arith, none_open, ih)

-- The row is replaced by one with the same hash that is not open, or was open before.
replaced-IsUsedUp :
    (h : String) (id : Uuid) (old new : UserInvite) (rows : Invites)
    → lookup id rows ≡ some old
    → new.token_hash ≡ old.token_hash
    → bit (is_open h new) ≤ bit (is_open h old)
    → IsUsedUp h rows
    → IsUsedUp h (insert id new rows)
replaced-IsUsedUp h id old new rows stored same weight u =
    let c = count-insert (is_open h) id new rows in
    let were = rw stored at c in
    record {
      stays = rw (count_hash-replaced h id old new rows stored same) u.stays;
      closed = omega (arith, were, weight, u.closed);
    }

consumed_closed :
    (h : String) (now : ℕ) (r : UserInvite)
    → is_open h (record r { consumed_at = some now }) ≡ false
consumed_closed h now r = ground arith

created-IsUsedUp :
    (spell : Text → String) (h : String) (t : Tables) (now user_id new_id : ℕ)
    (arg : CreateInvitedUserWithInviteParams)
    → lookup (some new_id) t.user_invites ≡ none
    → IsUsedUp h t.user_invites
    → IsUsedUp h (create_invited_user_with_invite spell t now user_id new_id arg).0.user_invites
unfolding create_invited_user_with_invite
created-IsUsedUp spell h t now user_id new_id arg fresh u =
    elim (Option-cases (find_email t.users arg.email)) [
      | inr (found, q) ↦ simp (create_invited_user_with_invite, q) u
      | inl q ↦ elim (Bool-cases (has_hash arg.token_hash t.user_invites)) [
        | inl r ↦ simp (create_invited_user_with_invite, q, r) u
        | inr r ↦
            let new = new_invite now user_id new_id arg in
            let rows = t.user_invites in
            let made : IsUsedUp h (insert (some new_id) new rows) =
              elim (Bool-cases (arg.token_hash == h)) [
                | inl same ↦
                    absurd
                      (omega (arith, u.stays, count_hash-fresh h rows (rw (eq→≡ _ h same) at r)))
                | inr other ↦
                    let c = count-insert (is_open h) (some new_id) new rows in
                    let d = count-insert (λ v. v.token_hash == h) (some new_id) new rows in
                    record {
                      stays = omega (
                        arith,
                        rw (fresh, other) at d,
                        u.stays,
                        counted h rows,
                        counted h (insert (some new_id) new rows),
                      );
                      closed = omega (arith, rw (fresh, other) at c, u.closed);
                    }
              ] in
            simp (create_invited_user_with_invite, q, r) made
      ]
    ]

accepted-IsUsedUp :
    (h : String) (t : Tables) (now : ℕ) (token_hash password_hash : String)
    → IsSound t.user_invites
    → IsUsedUp h t.user_invites
    → IsUsedUp h (accept_user_invite t now token_hash password_hash).0.user_invites
unfolding accept_user_invite
accepted-IsUsedUp h t now token_hash password_hash s u =
    elim (Option-cases (find_active token_hash now t.user_invites)) [
      | inl q ↦ simp (accept_user_invite, q) u
      | inr (locked, q) ↦
          let stored = find_active-stored token_hash now t.user_invites locked s.keyed s.unique q in
          let weight : bit (is_open h (record locked { consumed_at = some now }))
              ≤ bit (is_open h locked) =
            rw (consumed_closed h now locked) (omega arith) in
          let shut =
            replaced-IsUsedUp h locked.id locked (record locked { consumed_at = some now })
              t.user_invites stored refl weight u in
          elim (Option-cases (lookup locked.user_id t.users)) [
            | inl r ↦ simp (accept_user_invite, q, r) shut
            | inr (found, r) ↦ simp (accept_user_invite, q, r) shut
          ]
    ]

revoked-IsUsedUp :
    (h : String) (t : Tables) (now : ℕ) (id : Uuid)
    → IsUsedUp h t.user_invites
    → IsUsedUp h (revoke_user_invite t now id).user_invites
unfolding revoke_user_invite
revoked-IsUsedUp h t now id u = elim (Option-cases (lookup id t.user_invites)) [
  | inl q ↦ simp (revoke_user_invite, q) u
  | inr (invite, q) ↦ elim (Bool-cases (invite.consumed_at == none)) [
    | inr r ↦ simp (revoke_user_invite, q, r) u
    | inl r ↦
        simp (revoke_user_invite, q, r)
          (replaced-IsUsedUp h id invite (record invite { revoked_at = some now }) t.user_invites q
            refl (omega arith) u)
  ]
]

-- The tables after any later insertions under new ids, acceptances and revocations.
pub data Later (spell : Text → String) (t : Tables) : Tables → Type 0 where
  now_on : Later spell t t
  creates :
      {v : Tables} (now user_id new_id : ℕ) (arg : CreateInvitedUserWithInviteParams)
      → lookup (some new_id) v.user_invites ≡ none
      → Later spell t v
      → Later spell t (create_invited_user_with_invite spell v now user_id new_id arg).0
  accepts :
      {v : Tables} (now : ℕ) (token_hash password_hash : String)
      → Later spell t v
      → Later spell t (accept_user_invite v now token_hash password_hash).0
  revokes :
      {v : Tables} (now : ℕ) (id : Uuid)
      → Later spell t v
      → Later spell t (revoke_user_invite v now id)

later_spent :
    (spell : Text → String) (h : String) (t later : Tables)
    → Later spell t later
    → IsSound t.user_invites
    → IsUsedUp h t.user_invites
    → IsSound later.user_invites × IsUsedUp h later.user_invites
later_spent spell h t _ now_on s u = (s, u)
later_spent spell h t _ (creates {v} now user_id new_id arg fresh earlier) s u =
    let (sound, spent) = later_spent spell h t v earlier s u in
    (
      created-IsSound spell v now user_id new_id arg sound,
      created-IsUsedUp spell h v now user_id new_id arg fresh spent,
    )
later_spent spell h t _ (accepts {v} now token_hash password_hash earlier) s u =
    let (sound, spent) = later_spent spell h t v earlier s u in
    (
      accepted-IsSound v now token_hash password_hash sound,
      accepted-IsUsedUp h v now token_hash password_hash sound spent,
    )
later_spent spell h t _ (revokes {v} now id earlier) s u =
    let (sound, spent) = later_spent spell h t v earlier s u in
    (revoked-IsSound v now id sound, revoked-IsUsedUp h v now id spent)

-- The token of the acceptance is used up.
first-IsUsedUp :
    (h : String) (rows : Invites) (now : ℕ) (locked : UserInvite)
    → IsSound rows
    → find_active h now rows ≡ some locked
    → IsUsedUp h (insert locked.id (record locked { consumed_at = some now }) rows)
first-IsUsedUp h rows now locked s found =
    let new = record locked { consumed_at = some now } in
    let stored = find_active-stored h now rows locked s.keyed s.unique found in
    let was : is_open h locked ≡ true = find_active-is_open h now rows locked found in
    let c = count-insert (is_open h) locked.id new rows in
    let were = rw (stored, was, consumed_closed h now locked) at c in
    record {
      stays =
          rw (count_hash-replaced h locked.id locked new rows stored refl)
            (omega (arith, were, count-open-le h rows));
      closed = omega (arith, were, count-open-le h rows, s.once h);
    }

-- In every state that insertions, acceptances and revocations of invites reach from an empty table, a
-- token that is accepted is used up: in every state that later insertions, each with an id that is
-- not in the table, acceptances and revocations lead to, it is refused at any time and with any
-- password, and the refusal changes nothing.
pub accepted_once :
    (hash_token hash_password spell : Text → String) (t later : Tables) (now moment : ℕ)
    (raw_token password other : Text) (user : User)
    → Reachable spell t
    → (accept hash_token hash_password t now raw_token password).1 ≡ done user
    → Later spell (accept hash_token hash_password t now raw_token password).0 later
    → accept hash_token hash_password later moment raw_token other ≡ (
      later,
      failed (if ltb (length other) min_password_length then weak_password else invite_not_usable),
    )
accepted_once hash_token hash_password spell t later now moment raw_token password other user r h
      after =
    let key = hash_token raw_token in
    let (activates, same) = accept_done hash_token hash_password t now raw_token password user h in
    let (locked, found, rows) = accepted_tables t now key (hash_password password) user activates in
    let sound = reachable-IsSound spell t r in
    let first = (accept hash_token hash_password t now raw_token password).0 in
    let kept : IsSound first.user_invites =
      rw same (accepted-IsSound t now key (hash_password password) sound) in
    let spent : IsUsedUp key first.user_invites =
      rw (same, rows) (first-IsUsedUp key t.user_invites now locked sound found) in
    let at_last = later_spent spell key first later after kept spent in
    accept_again hash_token hash_password later moment raw_token other
      (closed-find_active key moment later.user_invites at_last.1.closed)
