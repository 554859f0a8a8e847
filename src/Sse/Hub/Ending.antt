-- ===== src/Sse/Hub/Ending.antt =====
-- What `RevokeUser` of internal/sse/hub.go does to the user's streams: each of them ends.
use openlocalcrm.Base.{
  ℕ, ◌<◌, ◌≡◌, refl, String, Bool, true, Option, some, List, [], ◌∷◌, ◌++◌, arith, nat_comparable,
  eqb_iff, length,
}
use openlocalcrm.Base.Dict.{lookup, lookup-insert_self}
use openlocalcrm.Sse.Hub.{Event, Channel}
use openlocalcrm.Sse.Hub.Revocation.{revoke-WellFormed}
use openlocalcrm.Sse.Hub.State.{WellFormed}
use openlocalcrm.Sse.Hub.Safety.{run-WellFormed, step-WellFormed}
use openlocalcrm.Sse.Hub.Serving.{
  start, Call, Server, Stream, event_frame, streaming, receives, signals, revokes, deliver, step,
  run,
}
use openlocalcrm.Sse.Hub.Draining.{
  received, phase_of, HasEnded, IsCutOff, drains, receive_buffered, step-below, run-HasEnded,
}

module _ {A : Type 0} (marshal : A → Option String) (ch : ℕ) where
  revoked-IsCutOff :
      (n : ℕ) (calls : List (Call A)) (v : Server A) (begun : Bool) (user : ℕ) (s : Stream)
      (c : Channel A)
      → v ≡ run marshal (start n) calls
      → lookup ch v.streams ≡ some s
      → s.phase ≡ phase_of begun
      → lookup ch v.hub.clients ≡ some user
      → lookup ch v.hub.channels ≡ some c
      → IsCutOff marshal ch (step marshal v (revokes user)) begun s (record c { is_closed = true })
  unfolding step
  revoked-IsCutOff n calls v begun user s c reached found q owned held =
      let w : WellFormed v.hub = rw reached (run-WellFormed marshal n calls) in
      let (channel, client) = revoke-WellFormed v.hub user ch w in
      (
        found,
        q,
        ground (arith, channel, owned, held, eqb_iff user user),
        refl,
        ground (arith, client, owned, eqb_iff user user),
      )

  -- In every state that calls of a new hub lead to, a stream that is registered for a user, whether it
  -- has written its first frame or not, ends after `RevokeUser` for the user, whatever calls follow in
  -- whatever order (events, revocations, connections, turns of this and other streams) and whether the
  -- writes succeed: it has ended once the calls have let it receive, in its loop, once more often
  -- than its channel held events at the revocation.
  pub revoked_stream_ends :
      (n : ℕ) (calls later : List (Call A)) (v : Server A) (begun : Bool) (user : ℕ) (s : Stream)
      (c : Channel A)
      → v ≡ run marshal (start n) calls
      → lookup ch v.streams ≡ some s
      → s.phase ≡ phase_of begun
      → lookup ch v.hub.clients ≡ some user
      → lookup ch v.hub.channels ≡ some c
      → length c.buffer < received ch begun later
      → HasEnded marshal ch (run marshal (step marshal v (revokes user)) later)
  revoked_stream_ends n calls later v begun user s c reached found q owned held h =
      let w : WellFormed v.hub = rw reached (run-WellFormed marshal n calls) in
      let below : ch < v.hub.next_channel = ground (arith, w.fresh ch, held) in
      run-HasEnded marshal ch later (step marshal v (revokes user)) begun
        (step-WellFormed marshal v (revokes user) w)
        (step-below marshal ch v (revokes user) w below)
        (drains s (record c { is_closed = true })
          (revoked-IsCutOff n calls v begun user s c reached found q owned held) h)

  -- A revoked stream still writes what its channel held: the first event of the buffer is sent
  -- after `RevokeUser`, and the stream goes on.
  pub revoked_stream_writes :
      (n : ℕ) (calls : List (Call A)) (v : Server A) (user : ℕ) (s : Stream) (c : Channel A)
      (evt : Event A) (later : List (Event A)) (text : String)
      → v ≡ run marshal (start n) calls
      → lookup ch v.streams ≡ some s
      → s.phase ≡ streaming
      → lookup ch v.hub.clients ≡ some user
      → lookup ch v.hub.channels ≡ some c
      → c.buffer ≡ evt ∷ later
      → marshal evt.payload ≡ some text
      → lookup ch
          (step marshal (step marshal v (revokes user)) (signals ch (receives true))).streams
        ≡ some (record { phase = streaming; frames = s.frames ++ (event_frame evt.kind text ∷ []) })
  unfolding deliver
  revoked_stream_writes n calls v user s c evt later text reached found q owned held full sent =
      let revoked = step marshal v (revokes user) in
      let shut = record c { is_closed = true } in
      let cut = revoked-IsCutOff n calls v true user s c reached found q owned held in
      rw (receive_buffered marshal ch revoked s shut evt later true cut full)
        (rw (sent, deliver) (lookup-insert_self ch _ revoked.streams))
