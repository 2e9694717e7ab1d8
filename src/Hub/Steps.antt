-- ===== src/Hub/Steps.antt =====
-- internal/server/handlers/ws/ws_hub.go and ws_client.go: what the goroutines of the hub and of its
-- clients do to the clients that the hub holds, a step at a time.
use syftbox.Base.{
  true, not, ◌&&◌, List, [], ◌∷◌, ◌++◌, Text, text_eq, ltb, length, if◌then◌else◌, keep,
}
use mathlib.Core.List.{map}
use syftbox.Hub.{WebsocketClient, buffer_size}

module _ {M : Type 0} where
  abbrev pub behind : List M → List M
  behind [] = []
  behind (m ∷ ms) = ms

  -- The clients after a change of the one with an ID.
  abbrev pub update :
      Text
      → (WebsocketClient M → WebsocketClient M)
      → List (WebsocketClient M)
      → List (WebsocketClient M)
  update conn f cs = map (λ c. if text_eq c.conn_id conn then f c else c) cs

  -- `delete(h.clients, client.ConnID)`
  abbrev pub remove : Text → List (WebsocketClient M) → List (WebsocketClient M)
  remove conn cs = keep (λ c. not (text_eq c.conn_id conn)) cs

  -- `Run`: a client is registered; the map has one client for an ID.
  unfoldable pub register : WebsocketClient M → List (WebsocketClient M) → List (WebsocketClient M)
  register c cs = c ∷ remove c.conn_id cs

  -- `writeLoop`: the next message is taken to be written.
  unfoldable pub write_next : WebsocketClient M → WebsocketClient M
  write_next c = if c.closed then c else record c { tx = behind c.tx }

  -- `readLoop`: a message of the connection is kept, or dropped where the buffer is full.
  unfoldable pub receive : M → WebsocketClient M → WebsocketClient M
  receive m c =
      if not c.closed && ltb (length c.rx) buffer_size
      then record c { rx = c.rx ++ (m ∷ []) }
      else c

  -- `handleClientMessages`: the next message goes to the hub's channel.
  unfoldable pub hand_on : WebsocketClient M → WebsocketClient M
  hand_on c = record c { rx = behind c.rx }

  -- `closeConnection`
  unfoldable pub close_connection : WebsocketClient M → WebsocketClient M
  close_connection c = record c { closed = true }
