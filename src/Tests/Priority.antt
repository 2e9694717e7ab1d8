-- ===== src/Tests/Priority.antt =====
-- Runs of the handlers of the websocket of the client, and their theorems at concrete data.
use syftbox.Base.{ℕ, ◌≡◌, refl, true, false, text_eq, [], none, some, Text, codes, if◌then◌else◌}
use syftbox.Base.Dict.{insert, lookup}
use syftbox.Hub.Messages.{FileWrite, Message, error}
use syftbox.Sync.Files.{Time}
use syftbox.Sync.Status.{
  new_sync_status, set_syncing, change, get_or_create_status, broadcast_event,
}
use syftbox.Sync.Reconcile.{is_syncing}
use syftbox.Sync.Priority.{
  Desk, Faults, cross_device, write_with_integrity_check, datasite_abs_path,
  handle_priority_download, handle_socket_event,
}
use syftbox.Sync.Priority.Integrity.{goes_through, row, handle_priority_download-goes_through}
use syftbox.Sync.Priority.Ended.{Ending, panics, path_of, handle_socket_event-Ending}

abbrev desk : Desk
desk = record {
  engine = record { status = new_sync_status; journal = [] };
  crashed = false;
  disk = [];
  ignored = [];
}

abbrev no_faults : Faults
no_faults = record { before = none; after = none }

abbrev root : Text
root = codes "/d"

-- In place of a digest, the content itself.
abbrev md5 : Text → Text
md5 t = t

abbrev write : FileWrite
write = record { path = codes "p"; etag = codes "hi"; length = 2; content = codes "hi" }

abbrev clock : Time
clock = record { instant = 7; location = 0 }

abbrev reread : ℕ → ℕ
reread l = l

handle_priority_download-goes_through_example :
    let after = handle_priority_download md5 root reread 1 clock no_faults write desk in
    (after.disk ≡ (
      if goes_through md5 root reread 1 clock no_faults write
      then insert (datasite_abs_path md5 root reread 1 clock (codes "p")) (codes "hi") []
      else []))
    × (after.engine.journal ≡ (
        if goes_through md5 root reread 1 clock no_faults write
        then insert (codes "p") (row md5 root reread 1 clock write) []
        else []))
handle_priority_download-goes_through_example =
    handle_priority_download-goes_through md5 root reread 1 clock no_faults write desk

abbrev denied : Message
denied = record { id = codes "m"; payload = error 403 (codes "p") (codes "no") }

handle_socket_event-Ending_example :
    Ending 1
      (panics md5 root reread 1 clock no_faults denied.payload)
      (path_of md5 root reread 1 clock denied.payload)
      desk
      (handle_socket_event md5 root reread 1 clock no_faults none denied desk)
handle_socket_event-Ending_example =
    handle_socket_event-Ending md5 root reread 1 clock no_faults none denied desk

-- A rename between devices.
priority_runs :
    let after =
      handle_priority_download md5 root reread 1 clock
        (record { before = none; after = some cross_device })
        write
        desk in
    (after.crashed ≡ true) × (is_syncing (codes "p") after.engine.status ≡ true) × (after.disk ≡ [])
unfolding text_eq set_syncing change get_or_create_status broadcast_event write_with_integrity_check
    handle_priority_download is_syncing lookup new_sync_status
priority_runs = (refl, refl, refl)
