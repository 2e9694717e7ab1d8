-- ===== src/Tests/Hub.antt =====
-- Runs of the hub of the websockets, and its theorems at concrete data.
use syftbox.Base.{
  ◌≡◌, refl, true, false, List, [], ◌∷◌, none, some, Text, codes, text_eq, any, ◌&&◌, if◌then◌else◌,
}
use syftbox.Hub.{
  WebsocketClient, new_websocket_client, try_send, send_message_user, broadcast, broadcast_filtered,
  send_message, has_room,
}
use syftbox.Hub.Delivery.{deliver, send_message_user-deliver, broadcast-deliver}
use syftbox.Hub.Steps.{register, update, write_next, close_connection, receive, hand_on}
use syftbox.Hub.Messages.{
  FileWrite, Message, file_write, Live, Handled, done, panicked, blocked, may_receive,
  handle_file_write,
}
use syftbox.Hub.Messages.Writes.{IsHandled, handle_file_write-done}
use syftbox.Tests.Samples.{env, now, table, table-IsLawful, alice, bob}
use syftbox.Tests.Blob.{opened_blob, server, file_key}
use syftbox.Tests.Store.{store}

unfoldable pub opened_hub : Unit {0}
unfolding opened_blob new_websocket_client try_send send_message_user broadcast broadcast_filtered
    send_message register write_next receive hand_on close_connection may_receive handle_file_write
opened_hub = tt

abbrev client : Text → Text → WebsocketClient Text
client conn user = new_websocket_client conn user (codes "ok")

abbrev one : List (WebsocketClient Text)
one = client (codes "1") bob ∷ []

-- The client after a message.
abbrev told_clients : List (WebsocketClient Text)
told_clients =
    record {
      conn_id = codes "1";
      user = bob;
      rx = [];
      tx = codes "ok" ∷ codes "hi" ∷ [];
      closed = false;
    }
    ∷ []

send_message_user-deliver_example : send_message_user bob (codes "hi") one ≡ (
    if any (λ c. text_eq c.user bob && c.closed) one
    then none
    else some (
      any (λ c. text_eq c.user bob && has_room c) one,
      deliver (λ c. text_eq c.user bob) (codes "hi") one,
    ))
send_message_user-deliver_example = send_message_user-deliver bob (codes "hi") one

tells_runs : send_message_user bob (codes "hi") one ≡ some (true, told_clients)
unfolding opened_hub
tells_runs = refl

broadcast-deliver_example : broadcast (codes "hi") one ≡ (
    if any (λ (c : WebsocketClient Text). c.closed) one
    then none
    else some (deliver (λ c. true) (codes "hi") one))
broadcast-deliver_example = broadcast-deliver (codes "hi") one

goroutine_runs :
    (register (client (codes "1") alice) one ≡ client (codes "1") alice ∷ [])
    × (update (codes "1") write_next told_clients
        ≡ record (client (codes "1") bob) { tx = codes "hi" ∷ [] } ∷ [])
    × (update (codes "1") hand_on (update (codes "1") (receive (codes "q")) one) ≡ one)
unfolding opened_hub
goroutine_runs = (refl, refl, refl)

-- Bob writes a file, and Alice and Bob are connected.
abbrev write : FileWrite
write = record { path = file_key; etag = []; length = 1; content = codes "y" }

abbrev message : Message
message = record { id = codes "m"; payload = file_write write }

abbrev live : Live table store
live = record {
  server = server;
  clients =
      new_websocket_client (codes "1") alice message
      ∷ new_websocket_client (codes "2") bob message
      ∷ [];
  writes = [];
}

abbrev reached : Handled table store → Live table store
reached (done l) = l
reached panicked = live
reached blocked = live

abbrev after : Live table store
after =
    reached (handle_file_write table store env now (codes "n") (codes "2") bob message write live)

handle_file_write-done_example :
    IsHandled table store env now (codes "n") (codes "2") bob message write live after
unfolding opened_hub
handle_file_write-done_example =
    handle_file_write-done table store env now table-IsLawful (codes "n") (codes "2") bob message
      write live after refl
