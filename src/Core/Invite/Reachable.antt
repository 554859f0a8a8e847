-- ===== src/Core/Invite/Reachable.antt =====
-- The tables that the calls of internal/core/invite/service.go reach, with the revocation that its
-- handler makes.
use openlocalcrm.Base.{
  ℕ, ◌≤◌, ◌≡◌, refl, inl, inr, String, none, some, [], ◌==◌, arith, Bool-cases, Option-cases,
  nat_comparable, string_comparable, option_comparable,
}
use openlocalcrm.Base.Dict.{Unique, lookup, insert, insert-Unique}
use openlocalcrm.Base.Text.{Text}
use openlocalcrm.Db.Models.{Uuid, UserInvite}
use openlocalcrm.Db.Demo.Users.{find_email}
use openlocalcrm.Db.Demo.Invites.{
  Invites, Tables, CreateInvitedUserWithInviteParams, has_hash, find_active, new_invite,
  accept_user_invite, create_invited_user_with_invite, revoke_user_invite,
}
use openlocalcrm.Core.Invite.Once.{count_hash, IsKeyed}
use openlocalcrm.Core.Invite.Sound.{
  count_hash-replaced, count_hash-added, insert-IsKeyed, lookup-own, find_active-stored,
}

-- No id and no hash stands twice, and every row is under its id.
pub record IsSound (rows : Invites) : Type 0 where
  pub unique : Unique rows
  pub keyed : IsKeyed rows
  pub once : (h : String) → count_hash h rows ≤ 1

pub replaced-IsSound :
    (id : Uuid) (old new : UserInvite) (rows : Invites)
    → lookup id rows ≡ some old
    → new.token_hash ≡ old.token_hash
    → new.id ≡ old.id
    → IsSound rows
    → IsSound (insert id new rows)
replaced-IsSound id old new rows stored same own s = record {
  unique = insert-Unique id new rows s.unique;
  keyed = insert-IsKeyed id new rows (rw own (lookup-own id old rows s.keyed stored)) s.keyed;
  once = λ h. rw (count_hash-replaced h id old new rows stored same) (s.once h);
}

pub created-IsSound :
    (spell : Text → String) (t : Tables) (now user_id new_id : ℕ)
    (arg : CreateInvitedUserWithInviteParams)
    → IsSound t.user_invites
    → IsSound (create_invited_user_with_invite spell t now user_id new_id arg).0.user_invites
unfolding create_invited_user_with_invite
created-IsSound spell t now user_id new_id arg s =
    elim (Option-cases (find_email t.users arg.email)) [
      | inr (u, q) ↦ simp (create_invited_user_with_invite, q) s
      | inl q ↦ elim (Bool-cases (has_hash arg.token_hash t.user_invites)) [
        | inl r ↦ simp (create_invited_user_with_invite, q, r) s
        | inr r ↦
            let new = new_invite now user_id new_id arg in
            let sound : IsSound (insert (some new_id) new t.user_invites) = record {
              unique = insert-Unique (some new_id) new t.user_invites s.unique;
              keyed = insert-IsKeyed (some new_id) new t.user_invites refl s.keyed;
              once = λ h. count_hash-added h (some new_id) new t.user_invites r (s.once h);
            } in
            simp (create_invited_user_with_invite, q, r) sound
      ]
    ]

pub accepted-IsSound :
    (t : Tables) (now : ℕ) (token_hash password_hash : String)
    → IsSound t.user_invites
    → IsSound (accept_user_invite t now token_hash password_hash).0.user_invites
unfolding accept_user_invite
accepted-IsSound t now token_hash password_hash s =
    elim (Option-cases (find_active token_hash now t.user_invites)) [
      | inl q ↦ simp (accept_user_invite, q) s
      | inr (locked, q) ↦
          let stored = find_active-stored token_hash now t.user_invites locked s.keyed s.unique q in
          let sound =
            replaced-IsSound locked.id locked (record locked { consumed_at = some now })
              t.user_invites stored refl refl s in
          elim (Option-cases (lookup locked.user_id t.users)) [
            | inl r ↦ simp (accept_user_invite, q, r) sound
            | inr (u, r) ↦ simp (accept_user_invite, q, r) sound
          ]
    ]

pub revoked-IsSound :
    (t : Tables) (now : ℕ) (id : Uuid)
    → IsSound t.user_invites
    → IsSound (revoke_user_invite t now id).user_invites
unfolding revoke_user_invite
revoked-IsSound t now id s = elim (Option-cases (lookup id t.user_invites)) [
  | inl q ↦ simp (revoke_user_invite, q) s
  | inr (invite, q) ↦ elim (Bool-cases (invite.consumed_at == none)) [
    | inr r ↦ simp (revoke_user_invite, q, r) s
    | inl r ↦
        simp (revoke_user_invite, q, r)
          (replaced-IsSound id invite (record invite { revoked_at = some now }) t.user_invites q
            refl refl s)
  ]
]

-- The tables after any insertions, acceptances and revocations, from no invites at all.
pub data Reachable (spell : Text → String) : Tables → Type 0 where
  fresh : (t : Tables) → t.user_invites ≡ [] → Reachable spell t
  creates :
      {t : Tables} (now user_id new_id : ℕ) (arg : CreateInvitedUserWithInviteParams)
      → Reachable spell t
      → Reachable spell (create_invited_user_with_invite spell t now user_id new_id arg).0
  accepts :
      {t : Tables} (now : ℕ) (token_hash password_hash : String)
      → Reachable spell t
      → Reachable spell (accept_user_invite t now token_hash password_hash).0
  revokes :
      {t : Tables} (now : ℕ) (id : Uuid)
      → Reachable spell t
      → Reachable spell (revoke_user_invite t now id)

pub reachable-IsSound :
    (spell : Text → String) (t : Tables) → Reachable spell t → IsSound t.user_invites
unfolding count_hash
reachable-IsSound spell _ (fresh t none_yet) =
    rw none_yet (record { unique = tt; keyed = tt; once = λ h. omega arith })
reachable-IsSound spell _ (creates {t} now user_id new_id arg r) =
    created-IsSound spell t now user_id new_id arg (reachable-IsSound spell t r)
reachable-IsSound spell _ (accepts {t} now token_hash password_hash r) =
    accepted-IsSound t now token_hash password_hash (reachable-IsSound spell t r)
reachable-IsSound spell _ (revokes {t} now id r) =
    revoked-IsSound t now id (reachable-IsSound spell t r)
