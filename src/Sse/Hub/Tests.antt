-- ===== src/Sse/Hub/Tests.antt =====
-- Runs of the hub on small inputs, and the theorems at inputs that meet their hypotheses.
use openlocalcrm.Base.{
  ◌≤◌, ◌≡◌, ◌&&◌, refl, String, true, false, ◌==◌, Option, some, List, [], ◌∷◌, nat_comparable,
  arith, length,
}
use openlocalcrm.Base.Dict.{lookup, insert, delete}
use openlocalcrm.Sse.Hub.{
  Event, Channel, send, send_each, broadcast, send_to_user, add_client, admit, new_hub, revoke_user,
  revoke_each, close_channel,
}
use openlocalcrm.Sse.Hub.State.{is_client}
use openlocalcrm.Sse.Hub.Serving.{
  Server, Stream, Call, sends, broadcasts, revokes, connects, signals, connected, starts, ticks,
  receives, opening, streaming, phase_turn, signal_stream, step, run, start,
}
use openlocalcrm.Sse.Hub.Delivery.{send_to_user_lem, offered}
use openlocalcrm.Sse.Hub.Draining.{received, HasEnded}
use openlocalcrm.Sse.Hub.Ending.{revoked_stream_ends}
use openlocalcrm.Sse.Hub.Safety.{run_never_panics, run_bounds_channels}
use openlocalcrm.Sse.Hub.Cap.{run_caps_clients}

abbrev encode : String → Option String
encode s = some s

abbrev news : Event String
news = record { kind = "deal"; payload = "7" }

-- Two users connect, the first stream starts, and an event is sent to its user.
abbrev calls : List (Call String)
calls = connects true 5 ∷ connects true 6 ∷ signals 0 (starts true) ∷ sends 5 news ∷ []

reached : Server String
unfolding run step admit add_client signal_stream phase_turn send_to_user send_each send new_hub
    insert lookup
reached = run encode (start 2) calls

third_declined : (admit reached.hub true 7).0.clients ≡ reached.hub.clients
unfolding reached admit
third_declined = refl

abbrev stream : Stream
stream = record { phase = streaming; frames = connected ∷ [] }

abbrev channel : Channel String
channel = record { buffer = news ∷ []; is_closed = false }

run_never_panics_example : reached.hub.has_panicked ≡ false
unfolding reached
run_never_panics_example = run_never_panics encode 2 calls

run_bounds_channels_example :
    (length channel.buffer ≤ 16)
    × ((channel.is_closed && is_client (lookup 0 reached.hub.clients)) ≡ false)
unfolding reached lookup
run_bounds_channels_example = run_bounds_channels encode 2 calls 0 channel refl

run_caps_clients_example : length reached.hub.clients ≤ 2
unfolding reached
run_caps_clients_example =
    run_caps_clients encode 2 calls (omega arith) (refl, (refl, (refl, (refl, tt))))

send_to_user_lem_example :
    (lookup 0 (send_to_user reached.hub 5 news).channels
      ≡ offered
          (λ owner. owner == 5)
          news
          (lookup 0 reached.hub.clients)
          (lookup 0 reached.hub.channels))
    × (lookup 0 (broadcast reached.hub news).channels
        ≡ offered
            (λ owner. true)
            news
            (lookup 0 reached.hub.clients)
            (lookup 0 reached.hub.channels))
    × ((send_to_user reached.hub 5 news).clients ≡ reached.hub.clients)
    × ((broadcast reached.hub news).clients ≡ reached.hub.clients)
unfolding reached
send_to_user_lem_example = send_to_user_lem encode 2 calls 5 news 0

-- The stream of user 6, which has not written its first frame, after `RevokeUser`.
abbrev waiting : Stream
waiting = record { phase = opening; frames = [] }

abbrev unused_channel : Channel String
unused_channel = record { buffer = []; is_closed = false }

abbrev afterwards : List (Call String)
afterwards =
    broadcasts news
    ∷ signals 1 (starts true)
    ∷ connects true 6
    ∷ signals 0 (receives true)
    ∷ signals 1 (ticks true)
    ∷ signals 1 (receives true)
    ∷ []

revoked_stream_ends_example :
    HasEnded encode 1 (run encode (step encode reached (revokes 6)) afterwards)
unfolding reached lookup received
revoked_stream_ends_example =
    revoked_stream_ends encode 1 2 calls afterwards reached false 6 waiting unused_channel refl refl
      refl refl refl (omega arith)

-- A limit of one: a stream whose user was revoked drains its channel beside a new stream.
beyond_limit : Server String
unfolding run step admit add_client signal_stream phase_turn new_hub insert lookup revoke_user
    revoke_each close_channel delete
beyond_limit = run encode (start 1) (
    connects true 5
    ∷ signals 0 (starts true)
    ∷ revokes 5
    ∷ connects true 6
    ∷ signals 1 (starts true)
    ∷ [])

two_streams_on :
    (lookup 0 beyond_limit.streams ≡ some stream)
    × (lookup 1 beyond_limit.streams ≡ some stream)
    × (length beyond_limit.hub.clients ≡ 1)
unfolding beyond_limit lookup
two_streams_on = (refl, refl, refl)
