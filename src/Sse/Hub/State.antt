-- ===== src/Sse/Hub/State.antt =====
-- The well-formed hubs of internal/sse/hub.go, and that each operation leaves them well-formed.
use openlocalcrm.Base.{
  ℕ, ◌≤◌, ◌≡◌, ◌≢◌, refl, inl, inr, Bool, true, false, not, Option, none, some, [], ◌∷◌, arith,
  nat_comparable, length, length-append, ◌==◌, eqb_iff, Option-cases, Bool-cases,
}
use openlocalcrm.Base.Dict.{
  Dict, Unique, lookup, lookup-insert, lookup-delete, delete-Unique, insert-Unique,
}
use openlocalcrm.Sse.Hub.{
  Event, Channel, Hub, slots, set_channel, offer, send, close_channel, forget, send_each,
  add_client, revoke_each, deregister, new_hub,
}

abbrev pub is_open : {A : Type 0} → Option (Channel A) → Bool
is_open none = false
is_open (some c) = not c.is_closed

abbrev pub is_client : Option ℕ → Bool
is_client none = false
is_client (some owner) = true

module _ {A : Type 0} where
  -- Every client has a channel of its own that is open, and no operation has panicked.
  pub record WellFormed (h : Hub A) : Type 0 where
    pub unique : Unique h.clients
    pub live : (ch : ℕ) → lookup ch h.clients ≢ none → is_open (lookup ch h.channels) ≡ true
    pub fresh : (ch : ℕ) → h.next_channel ≤ ch → lookup ch h.channels ≡ none
    pub within : (ch : ℕ) (c : Channel A) → lookup ch h.channels ≡ some c → length c.buffer ≤ slots
    pub calm : h.has_panicked ≡ false

  pub new_hub-WellFormed : (n : ℕ) → WellFormed (new_hub n)
  unfolding new_hub lookup
  new_hub-WellFormed n = record {
    unique = tt;
    live = λ ch h. absurd (h refl);
    fresh = λ ch h. refl;
    within = λ ch c h. cc;
    calm = refl;
  }

  pub set_channel-WellFormed :
      (h : Hub A) (ch : ℕ) (c new : Channel A)
      → lookup ch h.channels ≡ some c
      → new.is_closed ≡ c.is_closed
      → length new.buffer ≤ slots
      → WellFormed h
      → WellFormed (set_channel h ch new)
  set_channel-WellFormed h ch c new found same bound w = record {
    unique = w.unique;
    live = λ j q.
        ground (arith, lookup-insert ch j new h.channels, eqb_iff ch j, found, same, w.live j q);
    fresh =
        λ j q. ground (arith, lookup-insert ch j new h.channels, eqb_iff ch j, found, w.fresh j q);
    within = λ j d q.
        ground (arith, lookup-insert ch j new h.channels, eqb_iff ch j, q, bound, w.within j d);
    calm = w.calm;
  }

  pub length-offer :
      (evt : Event A) (c : Channel A)
      → length c.buffer ≤ slots
      → length (offer evt c).buffer ≤ slots
  length-offer evt c bound = ground (arith, length-append c.buffer (evt ∷ []))

  pub offer_same : (evt : Event A) (c : Channel A) → (offer evt c).is_closed ≡ c.is_closed
  offer_same evt c = ground arith

  -- The open channel of a client.
  pub client_channel :
      (h : Hub A) (ch : ℕ)
      → WellFormed h
      → lookup ch h.clients ≢ none
      → (c : Channel A) × (lookup ch h.channels ≡ some c) × (c.is_closed ≡ false)
  client_channel h ch w client = elim (Option-cases (lookup ch h.channels)) [
    | inl q ↦ absurd (ground (arith, w.live ch client, q))
    | inr (c, q) ↦ (c, q, ground (arith, w.live ch client, q))
  ]

  pub send_open :
      (h : Hub A) (ch : ℕ) (evt : Event A) (c : Channel A)
      → lookup ch h.channels ≡ some c
      → c.is_closed ≡ false
      → send h ch evt ≡ set_channel h ch (offer evt c)
  unfolding send
  send_open h ch evt c q still = rw (q, send, still) refl

  pub close_open :
      (h : Hub A) (ch : ℕ) (c : Channel A)
      → lookup ch h.channels ≡ some c
      → c.is_closed ≡ false
      → close_channel h ch ≡ set_channel h ch (record c { is_closed = true })
  unfolding close_channel
  close_open h ch c q still = rw (q, close_channel, still) refl

  pub send-WellFormed :
      (h : Hub A) (ch : ℕ) (evt : Event A)
      → lookup ch h.clients ≢ none
      → WellFormed h
      → WellFormed (send h ch evt)
  send-WellFormed h ch evt client w =
      let (c, q, still) = client_channel h ch w client in
      let bound = length-offer evt c (w.within ch c q) in
      rw (send_open h ch evt c q still)
        (set_channel-WellFormed h ch c (offer evt c) q (offer_same evt c) bound w)

  pub send_clients : (h : Hub A) (ch : ℕ) (evt : Event A) → (send h ch evt).clients ≡ h.clients
  unfolding send
  send_clients h ch evt = ground arith

  -- Every key of the part is a client.
  abbrev pub IsPart : Dict ℕ ℕ → Hub A → Type 0
  IsPart part h = (ch : ℕ) → lookup ch part ≢ none → lookup ch h.clients ≢ none

  pub IsPart-tail :
      (ch owner : ℕ) (rest : Dict ℕ ℕ) (h : Hub A) → IsPart ((ch, owner) ∷ rest) h → IsPart rest h
  unfolding lookup
  IsPart-tail ch owner rest h part j q = part j (ground arith)

  pub IsPart-head :
      (ch owner : ℕ) (rest : Dict ℕ ℕ) (h : Hub A)
      → IsPart ((ch, owner) ∷ rest) h
      → lookup ch h.clients ≢ none
  unfolding lookup
  IsPart-head ch owner rest h part = part ch (ground (arith, eqb_iff ch ch))

  pub send_each-WellFormed :
      (wanted : ℕ → Bool) (evt : Event A) (part : Dict ℕ ℕ) (h : Hub A)
      → IsPart part h
      → WellFormed h
      → WellFormed (send_each wanted evt part h)
  unfolding send_each
  send_each-WellFormed wanted evt [] h part w = w
  send_each-WellFormed wanted evt ((ch, owner) ∷ rest) h part w =
      let client = IsPart-head ch owner rest h part in
      let later = IsPart-tail ch owner rest h part in
      let sent =
        send_each-WellFormed wanted evt rest (send h ch evt)
          (λ j q. rw (send_clients h ch evt) (later j q)) (send-WellFormed h ch evt client w) in
      let skipped = send_each-WellFormed wanted evt rest h later w in
      elim (Bool-cases (wanted owner)) [ inl q ↦ rw q sent | inr q ↦ rw q skipped ]

  -- A client's channel is closed and the client forgotten, in either order.
  abbrev pub retired : Hub A → ℕ → Channel A → Hub A
  retired h ch c = forget (set_channel h ch (record c { is_closed = true })) ch

  pub retired-WellFormed :
      (h : Hub A) (ch : ℕ) (c : Channel A)
      → lookup ch h.channels ≡ some c
      → WellFormed h
      → WellFormed (retired h ch c)
  retired-WellFormed h ch c found w =
      let shut = record c { is_closed = true } in
      record {
        unique = delete-Unique ch h.clients w.unique;
        live = λ j q.
            ground
              (arith, lookup-insert ch j shut h.channels, lookup-delete ch j h.clients, w.live j);
        fresh = λ j q.
            ground (arith, lookup-insert ch j shut h.channels, eqb_iff ch j, found, w.fresh j q);
        within = λ j d q. ground (
          arith,
          lookup-insert ch j shut h.channels,
          eqb_iff ch j,
          found,
          w.within j d,
          w.within ch c found,
        );
        calm = w.calm;
      }

  pub deregister-WellFormed : (h : Hub A) (ch : ℕ) → WellFormed h → WellFormed (deregister h ch)
  unfolding deregister
  deregister-WellFormed h ch w = elim (Option-cases (lookup ch h.clients)) [
    | inl q ↦ rw (q, deregister) w
    | inr (owner, q) ↦
        let (c, found, still) = client_channel h ch w (λ r. cc) in
        rw (q, deregister, close_open (forget h ch) ch c found still)
          (retired-WellFormed h ch c found w)
  ]

  pub add_client-WellFormed : (h : Hub A) (user : ℕ) → WellFormed h → WellFormed (add_client h user)
  unfolding add_client
  add_client-WellFormed h user w =
      let n = h.next_channel in
      let empty : Channel A = record { buffer = []; is_closed = false } in
      record {
        unique = insert-Unique n user h.clients w.unique;
        live = λ j q.
            ground (
              arith,
              lookup-insert n j empty h.channels,
              lookup-insert n j user h.clients,
              w.live j,
            );
        fresh = λ j q. ground (arith, lookup-insert n j empty h.channels, eqb_iff n j, w.fresh j);
        within = λ j d q. ground (arith, lookup-insert n j empty h.channels, w.within j d);
        calm = w.calm;
      }

  pub revoke_each-WellFormed :
      (user : ℕ) (part : Dict ℕ ℕ) (h : Hub A)
      → Unique part
      → IsPart part h
      → WellFormed h
      → WellFormed (revoke_each user part h)
  unfolding revoke_each
  revoke_each-WellFormed user [] h u part w = w
  revoke_each-WellFormed user ((ch, owner) ∷ rest) h (new, u) part w =
      let (c, found, still) = client_channel h ch w (IsPart-head ch owner rest h part) in
      let later = IsPart-tail ch owner rest h part in
      let closed =
        revoke_each-WellFormed user rest (retired h ch c) u
          (λ j q. ground (arith, lookup-delete ch j h.clients, eqb_iff ch j, later j q, q, new))
          (retired-WellFormed h ch c found w) in
      let skipped = revoke_each-WellFormed user rest h u later w in
      elim (Bool-cases (owner == user)) [
        | inl q ↦ rw (q, close_open h ch c found still) closed
        | inr q ↦ rw q skipped
      ]
