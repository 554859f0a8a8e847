-- ===== src/Sse/Hub/Draining.antt =====
-- How a stream of internal/sse/hub.go whose channel is closed drains it and ends.
use openlocalcrm.Base.{
  ℕ, suc, if◌then◌else◌, ◌<◌, ◌≡◌, refl, ◌∙◌, inl, inr, String, Bool, true, false, ◌&&◌, ◌||◌,
  Option, none, some, List, [], ◌∷◌, ◌++◌, ◌==◌, eq_refl, eq→≡, arith, nat_comparable, eqb_iff,
  Bool-cases, List-cases, Option-cases, length,
}
use openlocalcrm.Base.Dict.{lookup, lookup-insert_self}
use openlocalcrm.Sse.Hub.{Event, Channel, set_channel}
use openlocalcrm.Sse.Hub.State.{WellFormed}
use openlocalcrm.Sse.Hub.Safety.{step-WellFormed}
use openlocalcrm.Sse.Hub.Frame.{Keeps, is_turn, signal_stream-Keeps, step-Keeps}
use openlocalcrm.Sse.Hub.Serving.{
  Call, Server, Stream, Frame, connected, heartbeat, Phase, opening, streaming, ended, Signal,
  context_done, starts, ticks, receives, signals, broadcasts, sends, registers, connects, revokes,
  leave, write_frame, with_hub, signal_stream, phase_turn, turn, receive, deliver, step, run,
}

-- Whether the call starts the loop of the stream `ch`, or lets it receive.
abbrev pub starts_on : {A : Type 0} → ℕ → Call A → Bool
starts_on ch (signals j (starts wrote)) = j == ch
starts_on ch (signals j context_done) = false
starts_on ch (signals j (ticks wrote)) = false
starts_on ch (signals j (receives wrote)) = false
starts_on ch _ = false

abbrev pub receives_on : {A : Type 0} → ℕ → Call A → Bool
receives_on ch (signals j (receives wrote)) = j == ch
receives_on ch (signals j context_done) = false
receives_on ch (signals j (ticks wrote)) = false
receives_on ch (signals j (starts wrote)) = false
receives_on ch _ = false

-- How many of the calls let the stream receive, once its loop has begun.
unfoldable pub received : {A : Type 0} → ℕ → Bool → List (Call A) → ℕ
received ch begun [] = 0
received ch begun (call ∷ calls) =
    let rest = received ch (starts_on ch call || begun) calls in
    if receives_on ch call && begun then suc rest else rest

abbrev pub phase_of : Bool → Phase
phase_of true = streaming
phase_of false = opening

module _ {A : Type 0} (marshal : A → Option String) (ch : ℕ) where
  abbrev pub HasEnded : Server A → Type 0
  HasEnded v = (s : Stream) × (lookup ch v.streams ≡ some s) × (s.phase ≡ ended)

  -- A stream of this phase whose closed channel holds `c` and has no client any more.
  abbrev pub IsCutOff : Server A → Bool → Stream → Channel A → Type 0
  IsCutOff v begun s c =
      (lookup ch v.streams ≡ some s)
      × (s.phase ≡ phase_of begun)
      × (lookup ch v.hub.channels ≡ some c)
      × (c.is_closed ≡ true)
      × (lookup ch v.hub.clients ≡ none)

  -- The stream has ended, or ends when it has received so often.
  pub data Ends (v : Server A) (begun : Bool) (times : ℕ) : Type 0 where
    over : HasEnded v → Ends v begun times
    drains :
        (s : Stream) (c : Channel A)
        → IsCutOff v begun s c
        → length c.buffer < times
        → Ends v begun times

  Keeps-Ends :
      (v new : Server A) (begun : Bool) (times : ℕ)
      → Keeps ch v new
      → Ends v begun times
      → Ends new begun times
  Keeps-Ends v new begun times k (over (s, found, q)) = over (s, k.stream ∙ found, q)
  Keeps-Ends v new begun times k (drains s c (found, q, held, shut, gone) h) =
      drains s c (k.stream ∙ found, q, k.channel gone ∙ held, shut, k.client gone) h

  ended_turn :
      (v : Server A) (signal : Signal) → HasEnded v → step marshal v (signals ch signal) ≡ v
  unfolding step signal_stream phase_turn
  ended_turn v signal (s, found, q) = rw (found, signal_stream, q) refl

  leave-HasEnded : (v : Server A) (s : Stream) → HasEnded (leave v ch s)
  leave-HasEnded v s = (record s { phase = ended }, lookup-insert_self ch _ v.streams, refl)

  receive_drained :
      (v : Server A) (s : Stream) (c : Channel A) (wrote : Bool)
      → IsCutOff v true s c
      → c.buffer ≡ []
      → step marshal v (signals ch (receives wrote)) ≡ leave v ch s
  unfolding step signal_stream phase_turn turn receive
  receive_drained v s c wrote (found, q, held, shut, gone) empty =
      rw (found, signal_stream, q, held, turn, empty, receive, shut) refl

  pub receive_buffered :
      (v : Server A) (s : Stream) (c : Channel A) (evt : Event A) (later : List (Event A))
      (wrote : Bool)
      → IsCutOff v true s c
      → c.buffer ≡ evt ∷ later
      → step marshal v (signals ch (receives wrote))
        ≡ deliver marshal
            (with_hub v (set_channel v.hub ch (record c { buffer = later })))
            ch
            s
            evt
            wrote
  unfolding step signal_stream phase_turn turn receive
  receive_buffered v s c evt later wrote (found, q, held, shut, gone) full =
      rw (found, signal_stream, q, held, turn, full, receive) refl

  -- Whatever the stream wrote, it streams on or has ended.
  written-Ends :
      (v : Server A) (s : Stream) (c : Channel A) (frame : Frame) (wrote : Bool) (times : ℕ)
      → lookup ch v.hub.channels ≡ some c
      → c.is_closed ≡ true
      → lookup ch v.hub.clients ≡ none
      → length c.buffer < times
      → Ends (write_frame v ch s frame wrote) true times
  written-Ends v s c frame true times held shut gone h =
      drains (record { phase = streaming; frames = s.frames ++ (frame ∷ []) }) c
        (lookup-insert_self ch _ v.streams, refl, held, shut, gone) h
  written-Ends v s c frame false times held shut gone h = over (leave-HasEnded v s)

  delivered-Ends :
      (v : Server A) (s : Stream) (c : Channel A) (evt : Event A) (wrote : Bool) (times : ℕ)
      → IsCutOff v true s c
      → length c.buffer < times
      → Ends (deliver marshal v ch s evt wrote) true times
  unfolding deliver
  delivered-Ends v s c evt wrote times cut h =
      let (found, q, held, shut, gone) = cut in
      elim (Option-cases (marshal evt.payload)) [
        | inl lost ↦ rw (lost, deliver) (drains s c cut h)
        | inr (text, sent) ↦ rw (sent, deliver) (written-Ends v s c _ wrote times held shut gone h)
      ]

  received-Ends :
      (v : Server A) (s : Stream) (c : Channel A) (wrote : Bool) (times : ℕ)
      → IsCutOff v true s c
      → length c.buffer < suc times
      → Ends (step marshal v (signals ch (receives wrote))) true times
  received-Ends v s c wrote times cut h = elim (List-cases c.buffer) [
    | inl empty ↦ rw (receive_drained v s c wrote cut empty) (over (leave-HasEnded v s))
    | inr (evt, later, full) ↦
        let popped = record c { buffer = later } in
        let (found, q, held, shut, gone) = cut in
        let now = lookup-insert_self ch popped v.hub.channels in
        let fewer : length later < times = ground (arith, h, full) in
        rw (receive_buffered v s c evt later wrote cut full) (
          delivered-Ends (with_hub v (set_channel v.hub ch popped)) s popped evt wrote times
            (found, q, now, shut, gone) fewer)
  ]

  -- A turn of the stream itself.
  turn-Ends :
      (v : Server A) (begun : Bool) (signal : Signal) (times : ℕ)
      → Ends v begun
          (if receives_on {A = A} ch (signals ch signal) && begun then suc times else times)
      → Ends
          (step marshal v (signals ch signal))
          (starts_on {A = A} ch (signals ch signal) || begun)
          times
  unfolding step signal_stream phase_turn turn
  turn-Ends v begun signal times (over e) = rw (ended_turn v signal e) (over e)
  turn-Ends v false (starts wrote) times (drains s c (found, q, held, shut, gone) h) =
      rw (eq_refl ch)
        (rw (found, signal_stream, q) (written-Ends v s c connected wrote times held shut gone h))
  turn-Ends v false context_done times (drains s c cut h) =
      rw (cut.0, signal_stream, cut.1) (drains s c cut h)
  turn-Ends v false (ticks wrote) times (drains s c cut h) =
      rw (cut.0, signal_stream, cut.1) (drains s c cut h)
  turn-Ends v false (receives wrote) times (drains s c cut h) =
      let less : length c.buffer < times = rw (eq_refl ch) at h in
      rw (cut.0, signal_stream, cut.1) (drains s c cut less)
  turn-Ends v true (starts wrote) times (drains s c cut h) =
      rw (eq_refl ch) (rw (cut.0, signal_stream, cut.1) (drains s c cut h))
  turn-Ends v true context_done times (drains s c cut h) =
      rw (cut.0, signal_stream, cut.1) (over (leave-HasEnded v s))
  turn-Ends v true (ticks wrote) times (drains s c (found, q, held, shut, gone) h) =
      rw (found, signal_stream, q) (written-Ends v s c heartbeat wrote times held shut gone h)
  turn-Ends v true (receives wrote) times (drains s c cut h) =
      received-Ends v s c wrote times cut (rw (eq_refl ch) at h)

  other_turns : (call : Call A) → is_turn ch call ≡ false → starts_on ch call ≡ false
  other_turns (signals j (starts wrote)) other = other
  other_turns (signals j context_done) other = refl
  other_turns (signals j (ticks wrote)) other = refl
  other_turns (signals j (receives wrote)) other = refl
  other_turns (broadcasts evt) other = refl
  other_turns (sends user evt) other = refl
  other_turns (registers user) other = refl
  other_turns (revokes user) other = refl
  other_turns (connects can_flush user) other = refl

  other_receives : (call : Call A) → is_turn ch call ≡ false → receives_on ch call ≡ false
  other_receives (signals j (receives wrote)) other = other
  other_receives (signals j context_done) other = refl
  other_receives (signals j (ticks wrote)) other = refl
  other_receives (signals j (starts wrote)) other = refl
  other_receives (broadcasts evt) other = refl
  other_receives (sends user evt) other = refl
  other_receives (registers user) other = refl
  other_receives (revokes user) other = refl
  other_receives (connects can_flush user) other = refl

  own_turn :
      (call : Call A) → is_turn ch call ≡ true → (signal : Signal) × (call ≡ signals ch signal)
  own_turn (signals j signal) own = (signal, rw (eq→≡ j ch own) refl)
  own_turn (broadcasts evt) own = absurd (cc own)
  own_turn (sends user evt) own = absurd (cc own)
  own_turn (registers user) own = absurd (cc own)
  own_turn (revokes user) own = absurd (cc own)
  own_turn (connects can_flush user) own = absurd (cc own)

  step-Ends :
      (v : Server A) (begun : Bool) (call : Call A) (times : ℕ)
      → WellFormed v.hub
      → ch < v.hub.next_channel
      → Ends v begun (if receives_on ch call && begun then suc times else times)
      → Ends (step marshal v call) (starts_on ch call || begun) times
  step-Ends v begun call times w below e = elim (Bool-cases (is_turn ch call)) [
    | inr other ↦
        let same = rw (other_receives call other) at e in
        rw (other_turns call other) (
          Keeps-Ends v (step marshal v call) begun times
            (step-Keeps ch marshal v w below call other) same)
    | inl own ↦
        let (signal, this) = own_turn call own in
        rw this (turn-Ends v begun signal times (rw this at e))
  ]

  -- A turn opens no channel.
  pub step-below :
      (v : Server A) (call : Call A)
      → WellFormed v.hub
      → ch < v.hub.next_channel
      → ch < (step marshal v call).hub.next_channel
  unfolding step
  step-below v call w below = elim (Bool-cases (is_turn ch call)) [
    | inr other ↦
        let kept = step-Keeps ch marshal v w below call other in omega (arith, below, kept.next)
    | inl own ↦
        let (signal, this) = own_turn call own in
        let apart : (ch == suc ch) ≡ false = ground (arith, eqb_iff ch (suc ch)) in
        let kept = signal_stream-Keeps (suc ch) ch apart marshal v signal in
        rw this (omega (arith, below, kept.next))
  ]

  pub run-HasEnded :
      (calls : List (Call A)) (v : Server A) (begun : Bool)
      → WellFormed v.hub
      → ch < v.hub.next_channel
      → Ends v begun (received ch begun calls)
      → HasEnded (run marshal v calls)
  unfolding run received
  run-HasEnded [] v begun w below (over e) = e
  run-HasEnded [] v begun w below (drains s c cut h) = absurd (omega (arith, h))
  run-HasEnded (call ∷ calls) v begun w below e =
      run-HasEnded calls (step marshal v call) (starts_on ch call || begun)
        (step-WellFormed marshal v call w) (step-below v call w below)
        (step-Ends v begun call (received ch (starts_on ch call || begun) calls) w below e)
