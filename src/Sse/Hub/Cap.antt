-- ===== src/Sse/Hub/Cap.antt =====
-- The limit on the clients of internal/sse/hub.go.
use openlocalcrm.Base.{
  ℕ, ◌≤◌, ◌<◌, ◌≡◌, refl, inl, inr, String, Bool, true, false, Option, List, [], ◌∷◌, arith,
  nat_comparable, length, if◌then◌else◌, ◌==◌, Option-cases, List-cases, All,
}
use openlocalcrm.Base.Dict.{Dict, lookup, length-insert-le, length-delete-le}
use openlocalcrm.Sse.Hub.{
  Event, Channel, Hub, set_channel, forget, close_channel, send, send_each, broadcast, send_to_user,
  revoke_each, revoke_user, add_client, admit, deregister, new_hub,
}
use openlocalcrm.Sse.Hub.Serving.{
  Server, Stream, Signal, phase_turn, Call, broadcasts, sends, registers, revokes, connects,
  signals, with_hub, deliver, receive, turn, signal_stream, step, run, start,
}

-- Whether the call is of the running program; only a test of the package calls `register`.
abbrev pub is_production : {A : Type 0} → Call A → Bool
is_production (registers user) = false
is_production (broadcasts evt) = true
is_production (sends user evt) = true
is_production (revokes user) = true
is_production (connects can_flush user) = true
is_production (signals ch signal) = true

module _ {A : Type 0} where
  -- No more clients than before, under the same limit.
  record NoGrowth (h new : Hub A) : Type 0 where
    fewer : length new.clients ≤ length h.clients
    same_limit : new.max_clients ≡ h.max_clients

  close-NoGrowth : (h : Hub A) (ch : ℕ) → NoGrowth h (close_channel h ch)
  unfolding close_channel
  close-NoGrowth h ch = record { fewer = ground arith; same_limit = ground arith }

  send_each-NoGrowth :
      (wanted : ℕ → Bool) (evt : Event A) (part : Dict ℕ ℕ) (h : Hub A)
      → NoGrowth h (send_each wanted evt part h)
  unfolding send_each send
  send_each-NoGrowth wanted evt [] h = record { fewer = omega arith; same_limit = refl }
  send_each-NoGrowth wanted evt ((ch, owner) ∷ rest) h =
      let ih = send_each-NoGrowth wanted evt rest (if wanted owner then send h ch evt else h) in
      record { fewer = ground (arith, ih.fewer); same_limit = ground (arith, ih.same_limit) }

  revoke_each-NoGrowth :
      (user : ℕ) (part : Dict ℕ ℕ) (h : Hub A) → NoGrowth h (revoke_each user part h)
  unfolding revoke_each
  revoke_each-NoGrowth user [] h = record { fewer = omega arith; same_limit = refl }
  revoke_each-NoGrowth user ((ch, owner) ∷ rest) h =
      let ih =
        revoke_each-NoGrowth user rest
          (if owner == user then forget (close_channel h ch) ch else h) in
      let closed = close-NoGrowth h ch in
      let dropped = length-delete-le ch (close_channel h ch).clients in
      record {
        fewer = ground (arith, ih.fewer, closed.fewer, dropped);
        same_limit = ground (arith, ih.same_limit, closed.same_limit);
      }

  deregister-NoGrowth : (h : Hub A) (ch : ℕ) → NoGrowth h (deregister h ch)
  unfolding deregister
  deregister-NoGrowth h ch =
      let closed = close-NoGrowth (forget h ch) ch in
      let dropped = length-delete-le ch h.clients in
      record {
        fewer = ground (arith, closed.fewer, dropped);
        same_limit = ground (arith, closed.same_limit);
      }

  module _ (marshal : A → Option String) where
    deliver-NoGrowth :
        (v : Server A) (ch : ℕ) (s : Stream) (evt : Event A) (wrote : Bool)
        → NoGrowth v.hub (deliver marshal v ch s evt wrote).hub
    unfolding deliver
    deliver-NoGrowth v ch s evt wrote =
        let left = deregister-NoGrowth v.hub ch in
        record { fewer = ground (arith, left.fewer); same_limit = ground (arith, left.same_limit) }

    receive-NoGrowth :
        (v : Server A) (ch : ℕ) (s : Stream) (c : Channel A) (wrote : Bool)
        → NoGrowth v.hub (receive marshal v ch s c wrote).hub
    unfolding receive
    receive-NoGrowth v ch s c wrote = elim (List-cases c.buffer) [
      | inl q ↦
          let left = deregister-NoGrowth v.hub ch in
          rw (q, receive)
            (record {
              fewer = ground (arith, left.fewer);
              same_limit = ground (arith, left.same_limit);
            })
      | inr (evt, later, q) ↦
          let popped = with_hub v (set_channel v.hub ch (record c { buffer = later })) in
          let given = deliver-NoGrowth popped ch s evt wrote in
          rw (q, receive) (record { fewer = given.fewer; same_limit = given.same_limit })
    ]

    turn-NoGrowth :
        (v : Server A) (ch : ℕ) (s : Stream) (signal : Signal)
        → NoGrowth v.hub (turn marshal v ch s signal).hub
    unfolding turn
    turn-NoGrowth v ch s signal =
        let left = deregister-NoGrowth v.hub ch in
        elim (Option-cases (lookup ch v.hub.channels)) [
          | inl q ↦ record {
            fewer = ground (arith, left.fewer, q);
            same_limit = ground (arith, left.same_limit, q);
          }
          | inr (c, q) ↦
              let got = receive-NoGrowth v ch s c true in
              let lost = receive-NoGrowth v ch s c false in
              record {
                fewer = ground (arith, left.fewer, q, got.fewer, lost.fewer);
                same_limit = ground (arith, left.same_limit, q, got.same_limit, lost.same_limit);
              }
        ]

    signal_stream-NoGrowth :
        (v : Server A) (ch : ℕ) (signal : Signal)
        → NoGrowth v.hub (signal_stream marshal v ch signal).hub
    unfolding signal_stream phase_turn
    signal_stream-NoGrowth v ch signal =
        let left = deregister-NoGrowth v.hub ch in
        elim (Option-cases (lookup ch v.streams)) [
          | inl q ↦ rw (q, signal_stream) (record { fewer = omega arith; same_limit = refl })
          | inr (s, q) ↦
              let turned = turn-NoGrowth v ch s signal in
              record {
                fewer = ground (arith, left.fewer, q, turned.fewer);
                same_limit = ground (arith, left.same_limit, q, turned.same_limit);
              }
        ]

    record IsCapped (n : ℕ) (h : Hub A) : Type 0 where
      within : length h.clients ≤ n
      limit : h.max_clients ≡ n

    NoGrowth-IsCapped : (n : ℕ) (h new : Hub A) → NoGrowth h new → IsCapped n h → IsCapped n new
    NoGrowth-IsCapped n h new g c = record {
      within = omega (arith, g.fewer, c.within, c.limit);
      limit = cc (g.same_limit, c.limit);
    }

    admit-IsCapped :
        (n : ℕ) (h : Hub A) (can_flush : Bool) (user : ℕ)
        → 0 < n
        → IsCapped n h
        → IsCapped n (admit h can_flush user).0
    unfolding admit add_client
    admit-IsCapped n h can_flush user pos c =
        let added = length-insert-le h.next_channel user h.clients in
        record {
          within = ground (arith, c.within, c.limit, added);
          limit = ground (arith, c.limit);
        }

    step-IsCapped :
        (n : ℕ) (v : Server A) (call : Call A)
        → 0 < n
        → is_production call ≡ true
        → IsCapped n v.hub
        → IsCapped n (step marshal v call).hub
    unfolding step broadcast send_to_user revoke_user
    step-IsCapped n v (registers user) pos p c = absurd (cc p)
    step-IsCapped n v (broadcasts evt) pos p c =
        NoGrowth-IsCapped n v.hub _ (send_each-NoGrowth _ evt v.hub.clients v.hub) c
    step-IsCapped n v (sends user evt) pos p c =
        NoGrowth-IsCapped n v.hub _ (send_each-NoGrowth _ evt v.hub.clients v.hub) c
    step-IsCapped n v (revokes user) pos p c =
        NoGrowth-IsCapped n v.hub _ (revoke_each-NoGrowth user v.hub.clients v.hub) c
    step-IsCapped n v (connects can_flush user) pos p c =
        ground (arith, admit-IsCapped n v.hub can_flush user pos c)
    step-IsCapped n v (signals ch signal) pos p c =
        NoGrowth-IsCapped n v.hub _ (signal_stream-NoGrowth v ch signal) c

    run-IsCapped :
        (n : ℕ) (v : Server A) (calls : List (Call A))
        → 0 < n
        → All (λ call. is_production call ≡ true) calls
        → IsCapped n v.hub
        → IsCapped n (run marshal v calls).hub
    unfolding run
    run-IsCapped n v [] pos p c = c
    run-IsCapped n v (call ∷ calls) pos (p, ps) c =
        run-IsCapped n (step marshal v call) calls pos ps (step-IsCapped n v call pos p c)

    -- A hub with a positive limit never has more registered clients, which are the channels that
    -- events are sent to, than the limit, whatever its connections, revocations, events and turns of
    -- streams, in any order, the test helper `register` left aside. A stream whose user was revoked
    -- is no client any more while it drains its channel, and is not counted.
    pub run_caps_clients :
        (n : ℕ) (calls : List (Call A))
        → 0 < n
        → All (λ call. is_production call ≡ true) calls
        → length (run marshal (start n) calls).hub.clients ≤ n
    unfolding new_hub
    run_caps_clients n calls pos ps =
        (run-IsCapped n (start n) calls pos ps
          (record { within = omega arith; limit = refl })).within
