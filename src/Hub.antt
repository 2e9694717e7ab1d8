-- ===== src/Hub.antt =====
-- internal/server/handlers/ws: the hub of the websocket connections and its clients. A client's two
-- buffered channels are queues of messages; the order of `clients` is that of the loop over the map.
-- A panic, a send on a channel that is closed, is `none`.
pub mod Delivery
pub mod Steps
pub mod Messages
use syftbox.Base.{
  ℕ, ◌+◌, Bool, true, false, not, ◌&&◌, ◌||◌, List, [], ◌∷◌, ◌++◌, Option, none, some, Text,
  text_eq, ltb, length, if◌then◌else◌, keep, ◌≡◌, ◌≢◌, ◌⊎◌,
}
use mathlib.Core.List.{map}

-- The size of the buffers `MsgRx` and `MsgTx`.
abbrev pub buffer_size : ℕ
buffer_size = 8

-- `WebsocketClient`; `closed` tells that the channels are closed.
pub record WebsocketClient (M : Type 0) : Type 0 where
  pub conn_id : Text
  pub user : Text
  pub rx : List M
  pub tx : List M
  pub closed : Bool

module _ {M : Type 0} where
  -- `NewWebsocketClient`, with the system message that `WebsocketHandler` sends to it.
  unfoldable pub new_websocket_client : Text → Text → M → WebsocketClient M
  new_websocket_client conn_id user hello = record {
    conn_id = conn_id;
    user = user;
    rx = [];
    tx = hello ∷ [];
    closed = false;
  }

  abbrev pub has_room : WebsocketClient M → Bool
  has_room c = ltb (length c.tx) buffer_size

  abbrev pub with_message : M → WebsocketClient M → WebsocketClient M
  with_message m c = record c { tx = c.tx ++ (m ∷ []) }

  -- `select { case client.MsgTx <- msg: … default: … }`, and whether the message was taken.
  unfoldable pub try_send : M → WebsocketClient M → Option (Bool × WebsocketClient M)
  try_send m c =
      if c.closed
      then none
      else if has_room c
      then some (true, with_message m c)
      else some (false, c)

  abbrev pub try_send_if : Bool → M → WebsocketClient M → Option (Bool × WebsocketClient M)
  try_send_if b m c = if b then try_send m c else some (false, c)

  -- One round of a loop over the clients and the rest of the loop: a panic ends it.
  abbrev pub and_then :
      Option (Bool × WebsocketClient M)
      → Option (Bool × List (WebsocketClient M))
      → Option (Bool × List (WebsocketClient M))
  and_then none rest = none
  and_then (some (sent, c)) none = none
  and_then (some (sent, c)) (some (more, cs)) = some (sent || more, c ∷ cs)

  abbrev pub and_clients :
      Option (Bool × WebsocketClient M)
      → Option (List (WebsocketClient M))
      → Option (List (WebsocketClient M))
  and_clients none rest = none
  and_clients (some (sent, c)) none = none
  and_clients (some (sent, c)) (some cs) = some (c ∷ cs)

  abbrev pub and_state :
      {S : Type 0}
      → Option (Bool × WebsocketClient M)
      → Option (List (WebsocketClient M) × S)
      → Option (List (WebsocketClient M) × S)
  and_state none rest = none
  and_state (some (sent, c)) none = none
  and_state (some (sent, c)) (some (cs, s)) = some (c ∷ cs, s)

  -- The loop of `SendMessageUser`.
  unfoldable pub send_message_user :
      Text → M → List (WebsocketClient M) → Option (Bool × List (WebsocketClient M))
  send_message_user user m [] = some (false, [])
  send_message_user user m (c ∷ cs) =
      and_then (try_send_if (text_eq c.user user) m c) (send_message_user user m cs)

  -- `Broadcast`
  unfoldable pub broadcast : M → List (WebsocketClient M) → Option (List (WebsocketClient M))
  broadcast m [] = some []
  broadcast m (c ∷ cs) = and_clients (try_send m c) (broadcast m cs)

  -- `BroadcastFiltered`; the predicate may change a state.
  unfoldable pub broadcast_filtered :
      {S : Type 0}
      → (Text → S → Bool × S)
      → M
      → List (WebsocketClient M)
      → S
      → Option (List (WebsocketClient M) × S)
  broadcast_filtered predicate m [] s = some ([], s)
  broadcast_filtered predicate m (c ∷ cs) s =
      let (picked, s') = predicate c.user s in
      and_state (try_send_if picked m c) (broadcast_filtered predicate m cs s')

-- What `SendMessage` comes to: done, a panic, or a wait for room in the buffer.
pub data Sending (M : Type 0) : Type 0 where
  sent : List (WebsocketClient M) → Sending M
  panics : Sending M
  waits : Sending M

module _ {M : Type 0} where
  abbrev pub with_client : WebsocketClient M → Sending M → Sending M
  with_client c (sent cs) = sent (c ∷ cs)
  with_client c panics = panics
  with_client c waits = waits

  -- `client.MsgTx <- msg`
  abbrev pub send_now : M → WebsocketClient M → List (WebsocketClient M) → Sending M
  send_now m c cs =
      if c.closed then panics else if has_room c then sent (with_message m c ∷ cs) else waits

  -- `SendMessage`; the map has one client for an ID.
  unfoldable pub send_message : Text → M → List (WebsocketClient M) → Sending M
  send_message conn m [] = sent []
  send_message conn m (c ∷ cs) =
      let rest = send_message conn m cs in
      if text_eq c.conn_id conn then send_now m c cs else with_client c rest
