-- ===== src/Sse/Hub.antt =====
-- internal/sse/hub.go. A channel is its number in `channels`. Each operation is what the code does under one hold of `h.mu`. A user id is its
-- 16 bytes as a number (0 is `uuid.Nil`), `max_clients` 0 stands for every limit that is not
-- positive.
pub mod State
pub mod Delivery
pub mod Revocation
pub mod Frame
pub mod Draining
pub mod Ending
pub mod Serving
pub mod Safety
pub mod Cap
mod Tests
use openlocalcrm.Base.{
  ℕ, suc, ◌+◌, String, Bool, true, false, not, ◌&&◌, Option, none, some, List, [], ◌∷◌, ◌++◌, ltb,
  leb, ◌==◌, nat_comparable, if◌then◌else◌, length,
}
use openlocalcrm.Base.Dict.{Dict, lookup, insert, delete}

pub record Event (A : Type 0) : Type 0 where
  pub kind : String
  pub payload : A

pub record Channel (A : Type 0) : Type 0 where
  pub buffer : List (Event A)
  pub is_closed : Bool

pub record Hub (A : Type 0) : Type 0 where
  pub clients : Dict ℕ ℕ
  pub max_clients : ℕ
  pub channels : Dict ℕ (Channel A)
  pub next_channel : ℕ
  pub has_panicked : Bool

abbrev pub default_max_clients : ℕ
default_max_clients = 1000

-- The size that `make(chan Event, 16)` gives a buffer.
abbrev pub slots : ℕ
slots = 16

-- How `ServeHTTPFor` answers a request: with a stream, 500 or 503.
pub data Admission : Type 0 where
  streams_on : ℕ → Admission
  streaming_unsupported too_many_streams : Admission

module _ {A : Type 0} where
  unfoldable pub new_hub : ℕ → Hub A
  new_hub max_clients = record {
    clients = [];
    max_clients = max_clients;
    channels = [];
    next_channel = 0;
    has_panicked = false;
  }

  abbrev pub panic : Hub A → Hub A
  panic h = record h { has_panicked = true }

  abbrev pub set_channel : Hub A → ℕ → Channel A → Hub A
  set_channel h ch c = record h { channels = insert ch c h.channels }

  abbrev pub offer : Event A → Channel A → Channel A
  offer evt c =
      if ltb (length c.buffer) slots then record c { buffer = c.buffer ++ (evt ∷ []) } else c

  -- `select { case ch <- evt: default: }`, which panics on a closed channel.
  unfoldable pub send : Hub A → ℕ → Event A → Hub A
  send h ch evt = elim (lookup ch h.channels) [
    | none ↦ h
    | some c ↦ if c.is_closed then panic h else set_channel h ch (offer evt c)
  ]

  -- `close(ch)`, which panics on a nil or closed channel.
  unfoldable pub close_channel : Hub A → ℕ → Hub A
  close_channel h ch = elim (lookup ch h.channels) [
    | none ↦ panic h
    | some c ↦ if c.is_closed then panic h else set_channel h ch (record c { is_closed = true })
  ]

  abbrev pub forget : Hub A → ℕ → Hub A
  forget h ch = record h { clients = delete ch h.clients }

  unfoldable pub send_each : (ℕ → Bool) → Event A → Dict ℕ ℕ → Hub A → Hub A
  send_each wanted evt [] h = h
  send_each wanted evt ((ch, owner) ∷ rest) h =
      send_each wanted evt rest (if wanted owner then send h ch evt else h)

  unfoldable pub broadcast : Hub A → Event A → Hub A
  broadcast h evt = send_each (λ owner. true) evt h.clients h

  unfoldable pub send_to_user : Hub A → ℕ → Event A → Hub A
  send_to_user h user evt = send_each (λ owner. owner == user) evt h.clients h

  abbrev pub client_count : Hub A → ℕ
  client_count h = length h.clients

  -- `make(chan Event, 16)` and `h.clients[ch] = userID`.
  unfoldable pub add_client : Hub A → ℕ → Hub A
  add_client h user = record h {
    clients = insert h.next_channel user h.clients;
    channels = insert h.next_channel (record { buffer = []; is_closed = false }) h.channels;
    next_channel = suc h.next_channel;
  }

  unfoldable pub register : Hub A → ℕ → Hub A × ℕ
  register h user = (add_client h user, h.next_channel)

  unfoldable pub revoke_each : ℕ → Dict ℕ ℕ → Hub A → Hub A
  revoke_each user [] h = h
  revoke_each user ((ch, owner) ∷ rest) h =
      revoke_each user rest (if owner == user then forget (close_channel h ch) ch else h)

  unfoldable pub revoke_user : Hub A → ℕ → Hub A
  revoke_user h user = revoke_each user h.clients h

  -- `ServeHTTPFor` up to the registration of its channel.
  unfoldable pub admit : Hub A → Bool → ℕ → Hub A × Admission
  admit h can_flush user =
      if not can_flush
      then (h, streaming_unsupported)
      else (if ltb 0 h.max_clients && leb h.max_clients (length h.clients)
          then (h, too_many_streams)
          else (add_client h user, streams_on h.next_channel))

  -- The deferred function.
  unfoldable pub deregister : Hub A → ℕ → Hub A
  deregister h ch = elim (lookup ch h.clients) [
    | none ↦ h
    | some owner ↦ close_channel (forget h ch) ch
  ]
