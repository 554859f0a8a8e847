-- ===== src/Sse/Hub/Delivery.antt =====
-- What `Broadcast` and `SendToUser` of internal/sse/hub.go put into each channel.
use openlocalcrm.Base.{
  ℕ, ◌≡◌, refl, inl, inr, String, Bool, true, Option, none, some, List, [], ◌∷◌, arith,
  nat_comparable, ◌==◌, eqb_iff, Bool-cases, if◌then◌else◌,
}
use openlocalcrm.Base.Dict.{Dict, Unique, lookup, lookup-cons, lookup-insert}
use openlocalcrm.Sse.Hub.{Event, Channel, Hub, offer, send, send_each, broadcast, send_to_user}
use openlocalcrm.Sse.Hub.State.{
  WellFormed, IsPart, IsPart-head, IsPart-tail, client_channel, send_open, send_clients,
  send-WellFormed,
}
use openlocalcrm.Sse.Hub.Serving.{start, Call, run}
use openlocalcrm.Sse.Hub.Safety.{run-WellFormed}

module _ {A : Type 0} where
  -- The channel of this owner after the event was offered to those wanted.
  abbrev pub offered : (ℕ → Bool) → Event A → Option ℕ → Option (Channel A) → Option (Channel A)
  offered wanted evt none c = c
  offered wanted evt (some owner) none = none
  offered wanted evt (some owner) (some c) = if wanted owner then some (offer evt c) else some c

  pub send_each_lem :
      (wanted : ℕ → Bool) (evt : Event A) (part : Dict ℕ ℕ) (h : Hub A) (ch : ℕ)
      → Unique part
      → IsPart part h
      → WellFormed h
      → lookup ch (send_each wanted evt part h).channels
        ≡ offered wanted evt (lookup ch part) (lookup ch h.channels)
  unfolding send_each
  send_each_lem wanted evt [] h ch u part w = unfold lookup in refl
  send_each_lem wanted evt ((j, owner) ∷ rest) h ch (new, u) part w =
      let client = IsPart-head j owner rest h part in
      let (c, found, still) = client_channel h j w client in
      let later = IsPart-tail j owner rest h part in
      let sent =
        send_each_lem wanted evt rest (send h j evt) ch u
          (λ i q. rw (send_clients h j evt) (later i q)) (send-WellFormed h j evt client w) in
      let placed = rw (send_open h j evt c found still) at sent in
      let skipped = send_each_lem wanted evt rest h ch u later w in
      let opened : send_each wanted evt ((j, owner) ∷ rest) h
          ≡ send_each wanted evt rest (if wanted owner then send h j evt else h) =
        refl in
      elim (Bool-cases (wanted owner)) [
        | inl q ↦
            rw (opened, q, send_open h j evt c found still)
              (ground (
                arith,
                placed,
                new,
                found,
                eqb_iff j ch,
                lookup-cons j ch owner rest,
                lookup-insert j ch (offer evt c) h.channels,
                q,
              ))
        | inr q ↦
            rw (opened, q)
              (ground (arith, skipped, new, found, eqb_iff j ch, lookup-cons j ch owner rest, q))
      ]

  pub send_each_clients :
      (wanted : ℕ → Bool) (evt : Event A) (part : Dict ℕ ℕ) (h : Hub A)
      → (send_each wanted evt part h).clients ≡ h.clients
  unfolding send_each
  send_each_clients wanted evt [] h = refl
  send_each_clients wanted evt ((j, owner) ∷ rest) h =
      let ih = send_each_clients wanted evt rest (if wanted owner then send h j evt else h) in
      ground (arith, ih, send_clients h j evt)

  -- In every state that calls of a new hub lead to, `SendToUser` offers the event to the channels of
  -- its user and to no other, `Broadcast` to those of all clients; a full buffer of 16 drops it, no
  -- other channel changes, and nobody is registered or removed.
  pub send_to_user_lem :
      (marshal : A → Option String) (n : ℕ) (calls : List (Call A)) (user : ℕ) (evt : Event A)
      (ch : ℕ)
      → let h = (run marshal (start n) calls).hub in
        (lookup ch (send_to_user h user evt).channels
          ≡ offered (λ owner. owner == user) evt (lookup ch h.clients) (lookup ch h.channels))
        × (lookup ch (broadcast h evt).channels
            ≡ offered (λ owner. true) evt (lookup ch h.clients) (lookup ch h.channels))
        × ((send_to_user h user evt).clients ≡ h.clients)
        × ((broadcast h evt).clients ≡ h.clients)
  unfolding send_to_user broadcast
  send_to_user_lem marshal n calls user evt ch =
      let h = (run marshal (start n) calls).hub in
      let w = run-WellFormed marshal n calls in
      (
        send_each_lem _ evt h.clients h ch w.unique (λ j q. q) w,
        send_each_lem _ evt h.clients h ch w.unique (λ j q. q) w,
        send_each_clients _ evt h.clients h,
        send_each_clients _ evt h.clients h,
      )
