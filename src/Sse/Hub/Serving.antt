-- ===== src/Sse/Hub/Serving.antt =====
-- `ServeHTTPFor` and `writeFrame` of internal/sse/hub.go: the goroutines that serve the streams, each
-- named by its channel. A signal is one turn of a stream's loop; its Boolean says whether the write
-- succeeded, which is the network's to say. `marshal` is `json.Marshal` of an event's data, `none`
-- its error.
use openlocalcrm.Base.{
  ℕ, String, Bool, Option, none, some, List, [], ◌∷◌, ◌++◌, if◌then◌else◌, nat_comparable,
}
use openlocalcrm.Base.Dict.{Dict, lookup, insert}
use openlocalcrm.Sse.Hub.{
  Event, Channel, Hub, Admission, streams_on, streaming_unsupported, too_many_streams, set_channel,
  broadcast, send_to_user, register, revoke_user, admit, deregister, new_hub,
}

-- What one `writeFrame` sends.
pub data Frame : Type 0 where
  connected heartbeat : Frame
  event_frame : String → String → Frame

pub data Phase : Type 0 where
  opening streaming ended : Phase

-- A run of `ServeHTTPFor` that was admitted, with the frames it has written.
pub record Stream : Type 0 where
  pub phase : Phase
  pub frames : List Frame

pub record Server (A : Type 0) : Type 0 where
  pub hub : Hub A
  pub streams : Dict ℕ Stream

-- What a turn of the loop meets; `starts` is the initial event, before the loop.
pub data Signal : Type 0 where
  context_done : Signal
  starts ticks receives : Bool → Signal

pub data Call (A : Type 0) : Type 0 where
  broadcasts : Event A → Call A
  sends : ℕ → Event A → Call A
  registers revokes : ℕ → Call A
  connects : Bool → ℕ → Call A
  signals : ℕ → Signal → Call A

module _ {A : Type 0} where
  abbrev pub start : ℕ → Server A
  unfolding new_hub
  start max_clients = record { hub = new_hub max_clients; streams = [] }

  abbrev pub set_stream : Server A → ℕ → Stream → Server A
  set_stream v ch s = record v { streams = insert ch s v.streams }

  abbrev pub with_hub : Server A → Hub A → Server A
  with_hub v h = record v { hub = h }

  open_stream : Server A → Hub A × Admission → Server A
  open_stream v (h, streams_on ch) =
      set_stream (with_hub v h) ch (record { phase = opening; frames = [] })
  open_stream v (h, streaming_unsupported) = with_hub v h
  open_stream v (h, too_many_streams) = with_hub v h

  -- The stream returns, and its deferred function runs.
  abbrev pub leave : Server A → ℕ → Stream → Server A
  leave v ch s = set_stream (with_hub v (deregister v.hub ch)) ch (record s { phase = ended })

  -- The frame is written, or its write fails and the stream returns.
  abbrev pub write_frame : Server A → ℕ → Stream → Frame → Bool → Server A
  write_frame v ch s frame wrote =
      if wrote
      then set_stream v ch (record s { phase = streaming; frames = s.frames ++ (frame ∷ []) })
      else leave v ch s

  module _ (marshal : A → Option String) where
    unfoldable pub deliver : Server A → ℕ → Stream → Event A → Bool → Server A
    deliver v ch s evt wrote = elim (marshal evt.payload) [
      | none ↦ v
      | some text ↦ write_frame v ch s (event_frame evt.kind text) wrote
    ]

    -- `evt, ok := <-ch`: what is buffered comes first, also from a closed channel.
    unfoldable pub receive : Server A → ℕ → Stream → Channel A → Bool → Server A
    receive v ch s c wrote = elim c.buffer [
      | [] ↦ if c.is_closed then leave v ch s else v
      | evt ∷ later ↦
          deliver (with_hub v (set_channel v.hub ch (record c { buffer = later }))) ch s evt wrote
    ]

    unfoldable pub turn : Server A → ℕ → Stream → Signal → Server A
    turn v ch s context_done = leave v ch s
    turn v ch s (starts wrote) = v
    turn v ch s (ticks wrote) = write_frame v ch s heartbeat wrote
    turn v ch s (receives wrote) = elim (lookup ch v.hub.channels) [
      | none ↦ v
      | some c ↦ receive v ch s c wrote
    ]

    unfoldable pub phase_turn : Server A → ℕ → Stream → Phase → Signal → Server A
    phase_turn v ch s opening (starts wrote) = write_frame v ch s connected wrote
    phase_turn v ch s opening context_done = v
    phase_turn v ch s opening (ticks wrote) = v
    phase_turn v ch s opening (receives wrote) = v
    phase_turn v ch s streaming signal = turn v ch s signal
    phase_turn v ch s ended signal = v

    unfoldable pub signal_stream : Server A → ℕ → Signal → Server A
    signal_stream v ch signal = elim (lookup ch v.streams) [
      | none ↦ v
      | some s ↦ phase_turn v ch s s.phase signal
    ]

    unfoldable pub step : Server A → Call A → Server A
    unfolding open_stream
    step v (broadcasts evt) = with_hub v (broadcast v.hub evt)
    step v (sends user evt) = with_hub v (send_to_user v.hub user evt)
    step v (registers user) = with_hub v (register v.hub user).0
    step v (revokes user) = with_hub v (revoke_user v.hub user)
    step v (connects can_flush user) = open_stream v (admit v.hub can_flush user)
    step v (signals ch signal) = signal_stream v ch signal

    unfoldable pub run : Server A → List (Call A) → Server A
    run v [] = v
    run v (call ∷ calls) = run (step v call) calls
