-- ===== src/Sse/Hub/Revocation.antt =====
-- What `RevokeUser` of internal/sse/hub.go does to clients and channels, and which clients it forgets.
use openlocalcrm.Base.{
  ℕ, ◌≡◌, refl, inl, inr, String, true, not, Option, none, some, List, [], ◌∷◌, arith,
  nat_comparable, ◌==◌, eqb_iff, same_option, Bool-cases, if◌then◌else◌,
}
use openlocalcrm.Base.Dict.{Dict, Unique, kept, lookup, lookup-cons, lookup-insert, lookup-delete}
use openlocalcrm.Sse.Hub.{Channel, Hub, close_channel, forget, revoke_each, revoke_user}
use openlocalcrm.Sse.Hub.State.{
  WellFormed, IsPart, IsPart-head, IsPart-tail, client_channel, close_open, retired,
  retired-WellFormed,
}
use openlocalcrm.Sse.Hub.Serving.{start, Call, run}
use openlocalcrm.Sse.Hub.Safety.{run-WellFormed}

module _ {A : Type 0} where
  -- The channel of this owner after the streams of the user were closed.
  abbrev pub shut : ℕ → Option ℕ → Option (Channel A) → Option (Channel A)
  shut user none c = c
  shut user (some owner) none = none
  shut user (some owner) (some c) =
      if owner == user then some (record c { is_closed = true }) else some c

  revoke_each_lem :
      (user : ℕ) (part : Dict ℕ ℕ) (h : Hub A) (ch : ℕ)
      → Unique part
      → IsPart part h
      → WellFormed h
      → (lookup ch (revoke_each user part h).channels
          ≡ shut user (lookup ch part) (lookup ch h.channels))
        × (lookup ch (revoke_each user part h).clients
            ≡ (if same_option (lookup ch part) (some user) then none else lookup ch h.clients))
  unfolding revoke_each
  revoke_each_lem user [] h ch u part w = unfold lookup in (refl, refl)
  revoke_each_lem user ((j, owner) ∷ rest) h ch (new, u) part w =
      let (c, found, still) = client_channel h j w (IsPart-head j owner rest h part) in
      let later = IsPart-tail j owner rest h part in
      let closed =
        revoke_each_lem user rest (retired h j c) ch u
          (λ i q. ground (arith, lookup-delete j i h.clients, eqb_iff j i, later i q, q, new))
          (retired-WellFormed h j c found w) in
      let skipped = revoke_each_lem user rest h ch u later w in
      let gone : Channel A = record c { is_closed = true } in
      let opened : revoke_each user ((j, owner) ∷ rest) h
          ≡ revoke_each user rest (if owner == user then forget (close_channel h j) j else h) =
        refl in
      elim (Bool-cases (owner == user)) [
        | inl q ↦
            rw (opened, q, close_open h j c found still)
              (ground (
                arith,
                closed,
                new,
                found,
                eqb_iff j ch,
                lookup-cons j ch owner rest,
                lookup-insert j ch gone h.channels,
                lookup-delete j ch h.clients,
                q,
              ))
        | inr q ↦
            rw (opened, q)
              (ground (arith, skipped, new, found, eqb_iff j ch, lookup-cons j ch owner rest, q))
      ]

  pub revoke-WellFormed :
      (h : Hub A) (user ch : ℕ)
      → WellFormed h
      → (lookup ch (revoke_user h user).channels
          ≡ shut user (lookup ch h.clients) (lookup ch h.channels))
        × (lookup ch (revoke_user h user).clients
            ≡ kept (λ owner. not (owner == user)) (lookup ch h.clients))
  unfolding revoke_user
  revoke-WellFormed h user ch w =
      let (channel, client) = revoke_each_lem user h.clients h ch w.unique (λ j q. q) w in
      (channel, ground (arith, client))

  -- In every state that calls of a new hub lead to, `RevokeUser` closes the channels of the user's
  -- clients and forgets these clients; every other channel and client stays as it is.
  pub revoke_user_lem :
      (marshal : A → Option String) (n : ℕ) (calls : List (Call A)) (user ch : ℕ)
      → let h = (run marshal (start n) calls).hub in
        (lookup ch (revoke_user h user).channels
          ≡ shut user (lookup ch h.clients) (lookup ch h.channels))
        × (lookup ch (revoke_user h user).clients
            ≡ kept (λ owner. not (owner == user)) (lookup ch h.clients))
  revoke_user_lem marshal n calls user ch =
      revoke-WellFormed (run marshal (start n) calls).hub user ch (run-WellFormed marshal n calls)
