-- ===== src/Sse/Hub/Frame.antt =====
-- What a call of internal/sse/hub.go leaves of a stream that is not its own.
use openlocalcrm.Base.{
  ℕ, ◌≤◌, ◌<◌, ◌≡◌, refl, ◌∙◌, inl, inr, String, Bool, true, false, Option, none, [], ◌∷◌, arith,
  nat_comparable, ◌==◌, ◌&&◌, ltb, leb, length, eqb_iff, Option-cases, List-cases, Bool-cases,
  if◌then◌else◌,
}
use openlocalcrm.Base.Dict.{Dict, lookup, lookup-insert, lookup-delete}
use openlocalcrm.Sse.Hub.{
  Event, Channel, Hub, set_channel, forget, close_channel, send, send_each, broadcast, send_to_user,
  register, revoke_each, revoke_user, add_client, admit, deregister,
}
use openlocalcrm.Sse.Hub.State.{WellFormed}
use openlocalcrm.Sse.Hub.Delivery.{send_each_lem, send_each_clients}
use openlocalcrm.Sse.Hub.Revocation.{revoke-WellFormed}
use openlocalcrm.Sse.Hub.Serving.{
  Server, Stream, Frame, heartbeat, connected, Phase, opening, streaming, ended, Signal,
  context_done, starts, ticks, receives, Call, broadcasts, sends, registers, revokes, connects,
  signals, set_stream, with_hub, leave, write_frame, deliver, receive, turn, phase_turn,
  signal_stream, step,
}

module _ {A : Type 0} (ch : ℕ) where
  -- A channel without a client keeps what it holds and gets no client.
  record HubKeeps (h new : Hub A) : Type 0 where
    channel : lookup ch h.clients ≡ none → lookup ch new.channels ≡ lookup ch h.channels
    client : lookup ch h.clients ≡ none → lookup ch new.clients ≡ none
    next : h.next_channel ≤ new.next_channel

  pub record Keeps (v new : Server A) : Type 0 where
    pub stream : lookup ch new.streams ≡ lookup ch v.streams
    pub channel :
        lookup ch v.hub.clients ≡ none → lookup ch new.hub.channels ≡ lookup ch v.hub.channels
    pub client : lookup ch v.hub.clients ≡ none → lookup ch new.hub.clients ≡ none
    pub next : v.hub.next_channel ≤ new.hub.next_channel

  HubKeeps-Keeps : (v : Server A) (h : Hub A) → HubKeeps v.hub h → Keeps v (with_hub v h)
  HubKeeps-Keeps v h k = record {
    stream = refl;
    channel = k.channel;
    client = k.client;
    next = k.next;
  }

  Keeps-refl : (v : Server A) → Keeps v v
  Keeps-refl v = record { stream = refl; channel = λ p. refl; client = λ p. p; next = omega arith }

  Keeps-trans : (v w x : Server A) → Keeps v w → Keeps w x → Keeps v x
  Keeps-trans v w x k l = record {
    stream = l.stream ∙ k.stream;
    channel = λ p. l.channel (k.client p) ∙ k.channel p;
    client = λ p. l.client (k.client p);
    next = omega (arith, k.next, l.next);
  }

  module _ (j : ℕ) (apart : (j == ch) ≡ false) where
    set_channel-HubKeeps : (h : Hub A) (c : Channel A) → HubKeeps h (set_channel h j c)
    set_channel-HubKeeps h c = record {
      channel = λ p. rw (lookup-insert j ch c h.channels, apart) refl;
      client = λ p. p;
      next = omega arith;
    }

    close-HubKeeps : (h : Hub A) → HubKeeps h (close_channel h j)
    unfolding close_channel
    close-HubKeeps h =
        let panicked : HubKeeps h (record h { has_panicked = true }) = record {
          channel = λ p. refl;
          client = λ p. p;
          next = omega arith;
        } in
        elim (Option-cases (lookup j h.channels)) [
          | inl q ↦ simp (close_channel, q) panicked
          | inr (c, q) ↦ elim (Bool-cases c.is_closed) [
            | inl r ↦ simp (close_channel, q, r) panicked
            | inr r ↦ simp (close_channel, q, r) (set_channel-HubKeeps h _)
          ]
        ]

    deregister-HubKeeps : (h : Hub A) → HubKeeps h (deregister h j)
    unfolding deregister
    deregister-HubKeeps h =
        let closed = close-HubKeeps (forget h j) in
        let without : lookup ch h.clients ≡ none → lookup ch (forget h j).clients ≡ none =
          λ p. rw (lookup-delete j ch h.clients, apart) p in
        elim (Option-cases (lookup j h.clients)) [
          | inl q ↦
              simp (deregister, q)
                (record { channel = λ p. refl; client = λ p. p; next = omega arith })
          | inr (owner, q) ↦
              simp (deregister, q)
                (record {
                  channel = λ p. closed.channel (without p);
                  client = λ p. closed.client (without p);
                  next = closed.next;
                })
        ]

    set_stream-Keeps : (v : Server A) (s : Stream) → Keeps v (set_stream v j s)
    set_stream-Keeps v s = record {
      stream = rw (lookup-insert j ch s v.streams, apart) refl;
      channel = λ p. refl;
      client = λ p. p;
      next = omega arith;
    }

    leave-Keeps : (v : Server A) (s : Stream) → Keeps v (leave v j s)
    leave-Keeps v s =
        let gone = with_hub v (deregister v.hub j) in
        Keeps-trans v gone (leave v j s)
          (HubKeeps-Keeps v (deregister v.hub j) (deregister-HubKeeps v.hub))
          (set_stream-Keeps gone (record s { phase = ended }))

    write_frame-Keeps :
        (v : Server A) (s : Stream) (frame : Frame) (wrote : Bool)
        → Keeps v (write_frame v j s frame wrote)
    write_frame-Keeps v s frame true = set_stream-Keeps v _
    write_frame-Keeps v s frame false = leave-Keeps v s

    module _ (marshal : A → Option String) where
      deliver-Keeps :
          (v : Server A) (s : Stream) (evt : Event A) (wrote : Bool)
          → Keeps v (deliver marshal v j s evt wrote)
      unfolding deliver
      deliver-Keeps v s evt wrote = elim (Option-cases (marshal evt.payload)) [
        | inl q ↦ rw (q, deliver) (Keeps-refl v)
        | inr (text, q) ↦ rw (q, deliver) (write_frame-Keeps v s _ wrote)
      ]

      receive-Keeps :
          (v : Server A) (s : Stream) (c : Channel A) (wrote : Bool)
          → Keeps v (receive marshal v j s c wrote)
      unfolding receive
      receive-Keeps v s c wrote = elim (List-cases c.buffer) [
        | inl q ↦ elim (Bool-cases c.is_closed) [
          | inl r ↦ simp (receive, q, r) (leave-Keeps v s)
          | inr r ↦ simp (receive, q, r) (Keeps-refl v)
        ]
        | inr (evt, later, q) ↦
            let h = set_channel v.hub j (record c { buffer = later }) in
            rw (q, receive)
              (Keeps-trans v (with_hub v h) (deliver marshal (with_hub v h) j s evt wrote)
                (HubKeeps-Keeps v h (set_channel-HubKeeps v.hub _))
                (deliver-Keeps (with_hub v h) s evt wrote))
      ]

      turn-Keeps :
          (v : Server A) (s : Stream) (signal : Signal) → Keeps v (turn marshal v j s signal)
      unfolding turn
      turn-Keeps v s context_done = leave-Keeps v s
      turn-Keeps v s (starts wrote) = Keeps-refl v
      turn-Keeps v s (ticks wrote) = write_frame-Keeps v s heartbeat wrote
      turn-Keeps v s (receives wrote) = elim (Option-cases (lookup j v.hub.channels)) [
        | inl q ↦ rw (q, turn) (Keeps-refl v)
        | inr (c, q) ↦ rw (q, turn) (receive-Keeps v s c wrote)
      ]

      phase_turn-Keeps :
          (v : Server A) (s : Stream) (p : Phase) (signal : Signal)
          → Keeps v (phase_turn marshal v j s p signal)
      unfolding phase_turn
      phase_turn-Keeps v s streaming signal = turn-Keeps v s signal
      phase_turn-Keeps v s ended signal = Keeps-refl v
      phase_turn-Keeps v s opening (starts wrote) = write_frame-Keeps v s connected wrote
      phase_turn-Keeps v s opening context_done = Keeps-refl v
      phase_turn-Keeps v s opening (ticks wrote) = Keeps-refl v
      phase_turn-Keeps v s opening (receives wrote) = Keeps-refl v

      pub signal_stream-Keeps :
          (v : Server A) (signal : Signal) → Keeps v (signal_stream marshal v j signal)
      unfolding signal_stream
      signal_stream-Keeps v signal = elim (Option-cases (lookup j v.streams)) [
        | inl q ↦ rw (q, signal_stream) (Keeps-refl v)
        | inr (s, q) ↦ rw (q, signal_stream) (phase_turn-Keeps v s s.phase signal)
      ]

  send_each-next :
      (wanted : ℕ → Bool) (evt : Event A) (part : Dict ℕ ℕ) (h : Hub A)
      → (send_each wanted evt part h).next_channel ≡ h.next_channel
  unfolding send_each send
  send_each-next wanted evt [] h = refl
  send_each-next wanted evt ((j, owner) ∷ rest) h =
      let ih = send_each-next wanted evt rest (if wanted owner then send h j evt else h) in
      ground (arith, ih)

  revoke_each-next :
      (user : ℕ) (part : Dict ℕ ℕ) (h : Hub A)
      → (revoke_each user part h).next_channel ≡ h.next_channel
  unfolding revoke_each close_channel
  revoke_each-next user [] h = refl
  revoke_each-next user ((j, owner) ∷ rest) h =
      let ih =
        revoke_each-next user rest (if owner == user then forget (close_channel h j) j else h) in
      ground (arith, ih)

  send_each-HubKeeps :
      (wanted : ℕ → Bool) (evt : Event A) (h : Hub A)
      → WellFormed h
      → HubKeeps h (send_each wanted evt h.clients h)
  send_each-HubKeeps wanted evt h w =
      let placed = send_each_lem wanted evt h.clients h ch w.unique (λ j q. q) w in
      record {
        channel = λ p. rw p at placed;
        client = λ p. rw (send_each_clients wanted evt h.clients h) p;
        next = omega (arith, send_each-next wanted evt h.clients h);
      }

  revoke_user-HubKeeps : (user : ℕ) (h : Hub A) → WellFormed h → HubKeeps h (revoke_user h user)
  unfolding revoke_user
  revoke_user-HubKeeps user h w =
      let (channel, client) = revoke-WellFormed h user ch w in
      record {
        channel = λ p. rw p at channel;
        client = λ p. rw p at client;
        next = omega (arith, revoke_each-next user h.clients h);
      }

  add_client-HubKeeps :
      (user : ℕ) (h : Hub A) → ch < h.next_channel → HubKeeps h (add_client h user)
  unfolding add_client
  add_client-HubKeeps user h below =
      let n = h.next_channel in
      let fresh : Channel A = record { buffer = []; is_closed = false } in
      record {
        channel = λ p. ground (arith, below, eqb_iff n ch, lookup-insert n ch fresh h.channels);
        client = λ p. ground (arith, below, eqb_iff n ch, p, lookup-insert n ch user h.clients);
        next = omega arith;
      }

  -- Whether the call is a turn of this stream.
  abbrev pub is_turn : Call A → Bool
  is_turn (broadcasts evt) = false
  is_turn (sends user evt) = false
  is_turn (registers user) = false
  is_turn (revokes user) = false
  is_turn (connects can_flush user) = false
  is_turn (signals j signal) = j == ch

  module _ (marshal : A → Option String) (v : Server A) (w : WellFormed v.hub)
      (below : ch < v.hub.next_channel) where
    connects-Keeps :
        (can_flush : Bool) (user : ℕ) → Keeps v (step marshal v (connects can_flush user))
    unfolding step admit
    connects-Keeps can_flush user =
        let n = v.hub.next_channel in
        let made = add_client-HubKeeps user v.hub below in
        let other : (n == ch) ≡ false = ground (arith, below, eqb_iff n ch) in
        let opened : Stream = record { phase = opening; frames = [] } in
        let full = ltb 0 v.hub.max_clients && leb v.hub.max_clients (length v.hub.clients) in
        elim (Bool-cases can_flush) [
          | inr q ↦ simp (step, admit, q) (Keeps-refl v)
          | inl q ↦ elim (Bool-cases full) [
            | inl r ↦ simp (step, admit, q, r) (Keeps-refl v)
            | inr r ↦
                simp (step, admit, q, r)
                  (Keeps-trans v (with_hub v (add_client v.hub user))
                    (set_stream (with_hub v (add_client v.hub user)) n opened)
                    (HubKeeps-Keeps v (add_client v.hub user) made)
                    (set_stream-Keeps n other (with_hub v (add_client v.hub user)) opened))
          ]
        ]

    -- Every call but a turn of this stream leaves it as it is, and its channel while it has no client.
    pub step-Keeps : (call : Call A) → is_turn call ≡ false → Keeps v (step marshal v call)
    unfolding step broadcast send_to_user register
    step-Keeps (broadcasts evt) other =
        HubKeeps-Keeps v _ (send_each-HubKeeps (λ owner. true) evt v.hub w)
    step-Keeps (sends user evt) other =
        HubKeeps-Keeps v _ (send_each-HubKeeps (λ owner. owner == user) evt v.hub w)
    step-Keeps (registers user) other = HubKeeps-Keeps v _ (add_client-HubKeeps user v.hub below)
    step-Keeps (revokes user) other = HubKeeps-Keeps v _ (revoke_user-HubKeeps user v.hub w)
    step-Keeps (connects can_flush user) other = connects-Keeps can_flush user
    step-Keeps (signals j signal) other = signal_stream-Keeps j other marshal v signal
