-- ===== src/Sse/Hub/Safety.antt =====
-- Every run of the hub of internal/sse/hub.go: no panic, and bounded buffers.
use openlocalcrm.Base.{
  ℕ, ◌≤◌, ◌≡◌, refl, inl, inr, String, Bool, true, false, Option, some, List, [], ◌∷◌, arith,
  nat_comparable, length, Option-cases, List-cases, ◌&&◌,
}
use openlocalcrm.Base.Dict.{lookup}
use openlocalcrm.Sse.Hub.{
  Event, Channel, Hub, slots, set_channel, broadcast, send_to_user, register, revoke_user, admit,
  new_hub,
}
use openlocalcrm.Sse.Hub.State.{
  WellFormed, is_client, new_hub-WellFormed, set_channel-WellFormed, send_each-WellFormed,
  revoke_each-WellFormed, add_client-WellFormed, deregister-WellFormed,
}
use openlocalcrm.Sse.Hub.Serving.{
  Server, Stream, Signal, Frame, connected, heartbeat, Phase, opening, streaming, ended,
  context_done, starts, ticks, receives, phase_turn, Call, broadcasts, sends, registers, revokes,
  connects, signals, with_hub, write_frame, deliver, receive, turn, signal_stream, step, run, start,
}

module _ {A : Type 0} where
  pub admit-WellFormed :
      (h : Hub A) (can_flush : Bool) (user : ℕ)
      → WellFormed h
      → WellFormed (admit h can_flush user).0
  unfolding admit
  admit-WellFormed h can_flush user w = ground (arith, w, add_client-WellFormed h user w)

  write_frame-WellFormed :
      (v : Server A) (ch : ℕ) (s : Stream) (frame : Frame) (wrote : Bool)
      → WellFormed v.hub
      → WellFormed (write_frame v ch s frame wrote).hub
  write_frame-WellFormed v ch s frame true w = w
  write_frame-WellFormed v ch s frame false w = deregister-WellFormed v.hub ch w

  module _ (marshal : A → Option String) where
    deliver-WellFormed :
        (v : Server A) (ch : ℕ) (s : Stream) (evt : Event A) (wrote : Bool)
        → WellFormed v.hub
        → WellFormed (deliver marshal v ch s evt wrote).hub
    unfolding deliver
    deliver-WellFormed v ch s evt wrote w = elim (Option-cases (marshal evt.payload)) [
      | inl q ↦ rw (q, deliver) w
      | inr (text, q) ↦ rw (q, deliver) (write_frame-WellFormed v ch s _ wrote w)
    ]

    receive-WellFormed :
        (v : Server A) (ch : ℕ) (s : Stream) (c : Channel A) (wrote : Bool)
        → lookup ch v.hub.channels ≡ some c
        → WellFormed v.hub
        → WellFormed (receive marshal v ch s c wrote).hub
    unfolding receive
    receive-WellFormed v ch s c wrote found w = elim (List-cases c.buffer) [
      | inl q ↦ rw (q, receive) (ground (arith, w, deregister-WellFormed v.hub ch w))
      | inr (evt, later, q) ↦
          let popped = record c { buffer = later } in
          rw (q, receive)
            (deliver-WellFormed (with_hub v (set_channel v.hub ch popped)) ch s evt wrote (
              set_channel-WellFormed v.hub ch c popped found refl
                (ground (arith, w.within ch c found, q)) w))
    ]

    turn-WellFormed :
        (v : Server A) (ch : ℕ) (s : Stream) (signal : Signal)
        → WellFormed v.hub
        → WellFormed (turn marshal v ch s signal).hub
    unfolding turn
    turn-WellFormed v ch s context_done w = deregister-WellFormed v.hub ch w
    turn-WellFormed v ch s (starts wrote) w = w
    turn-WellFormed v ch s (ticks wrote) w = write_frame-WellFormed v ch s heartbeat wrote w
    turn-WellFormed v ch s (receives wrote) w = elim (Option-cases (lookup ch v.hub.channels)) [
      | inl q ↦ rw (q, turn) w
      | inr (c, q) ↦ rw (q, turn) (receive-WellFormed v ch s c wrote q w)
    ]

    phase_turn-WellFormed :
        (v : Server A) (ch : ℕ) (s : Stream) (p : Phase) (signal : Signal)
        → WellFormed v.hub
        → WellFormed (phase_turn marshal v ch s p signal).hub
    unfolding phase_turn
    phase_turn-WellFormed v ch s streaming signal w = turn-WellFormed v ch s signal w
    phase_turn-WellFormed v ch s ended signal w = w
    phase_turn-WellFormed v ch s opening (starts wrote) w =
        write_frame-WellFormed v ch s connected wrote w
    phase_turn-WellFormed v ch s opening context_done w = w
    phase_turn-WellFormed v ch s opening (ticks wrote) w = w
    phase_turn-WellFormed v ch s opening (receives wrote) w = w

    signal_stream-WellFormed :
        (v : Server A) (ch : ℕ) (signal : Signal)
        → WellFormed v.hub
        → WellFormed (signal_stream marshal v ch signal).hub
    unfolding signal_stream
    signal_stream-WellFormed v ch signal w = elim (Option-cases (lookup ch v.streams)) [
      | inl q ↦ rw (q, signal_stream) w
      | inr (s, q) ↦ rw (q, signal_stream) (phase_turn-WellFormed v ch s s.phase signal w)
    ]

    pub step-WellFormed :
        (v : Server A) (call : Call A) → WellFormed v.hub → WellFormed (step marshal v call).hub
    unfolding step broadcast send_to_user register revoke_user
    step-WellFormed v (broadcasts evt) w =
        send_each-WellFormed _ evt v.hub.clients v.hub (λ ch q. q) w
    step-WellFormed v (sends user evt) w =
        send_each-WellFormed _ evt v.hub.clients v.hub (λ ch q. q) w
    step-WellFormed v (registers user) w = add_client-WellFormed v.hub user w
    step-WellFormed v (revokes user) w =
        revoke_each-WellFormed user v.hub.clients v.hub w.unique (λ ch q. q) w
    step-WellFormed v (connects can_flush user) w =
        ground (arith, w, admit-WellFormed v.hub can_flush user w)
    step-WellFormed v (signals ch signal) w = signal_stream-WellFormed v ch signal w

    run_from-WellFormed :
        (v : Server A) (calls : List (Call A))
        → WellFormed v.hub
        → WellFormed (run marshal v calls).hub
    unfolding run
    run_from-WellFormed v [] w = w
    run_from-WellFormed v (call ∷ calls) w =
        run_from-WellFormed (step marshal v call) calls (step-WellFormed v call w)

    pub run-WellFormed :
        (n : ℕ) (calls : List (Call A)) → WellFormed (run marshal (start n) calls).hub
    unfolding run new_hub
    run-WellFormed n calls = run_from-WellFormed (start n) calls (new_hub-WellFormed n)

    -- Whatever calls a new hub receives, in whatever order (events, revocations, connections, and every
    -- turn of every stream), no goroutine sends on a closed channel or closes one twice.
    pub run_never_panics :
        (n : ℕ) (calls : List (Call A)) → (run marshal (start n) calls).hub.has_panicked ≡ false
    run_never_panics n calls = (run-WellFormed n calls).calm

    -- After every sequence of calls of a new hub, no channel holds more than its 16 events, and none
    -- that is closed belongs to a client.
    pub run_bounds_channels :
        (n : ℕ) (calls : List (Call A)) (ch : ℕ) (c : Channel A)
        → lookup ch (run marshal (start n) calls).hub.channels ≡ some c
        → (length c.buffer ≤ slots)
          × ((c.is_closed && is_client (lookup ch (run marshal (start n) calls).hub.clients))
              ≡ false)
    run_bounds_channels n calls ch c found =
        let w = run-WellFormed n calls in (w.within ch c found, ground (arith, w.live ch, found))
