-- ===== src/Sync/Priority.antt =====
-- internal/client/sync/sync_engine_priority_*.go and handleSocketEvents of sync_engine.go: what the
-- client does with a message of the websocket and with a file that the watcher reports. What the
-- file system and the connection answer is an argument; an error is its message.
pub mod Integrity
pub mod Ended
use syftbox.Base.{
  ℕ, ◌*◌, Bool, true, false, not, ◌&&◌, ◌||◌, List, [], ◌∷◌, ◌++◌, Option, none, some, Text, codes,
  text_eq, ltb, length, if◌then◌else◌, ◌==◌,
}
use syftbox.Base.Dict.{Dict, lookup, insert}
use syftbox.FilePath.{join_path}
use syftbox.SyftUrl.{to_local_path, join_all}
use syftbox.Hub.Messages.{
  FileWrite, HttpMsg, Message, Payload, system, error, file_write, file_delete, ack, nack, http,
}
use syftbox.Send.{file_path, request_suffix}
use syftbox.Sync.Status.{SyncStatus, set_syncing, set_completed, set_error, set_rejected}
use syftbox.Sync.Files.{FileMetadata, Files, Time, contents_changed, stored_time}
use syftbox.Sync.Handlers.{Engine, complete}

-- The engine with the contents of the local files, by their absolute paths, the paths whose next
-- event the watcher ignores, and whether the client has panicked.
pub record Desk : Type 0 where
  pub engine : Engine
  pub crashed : Bool
  pub disk : Dict Text
  pub ignored : List Text

-- A step that fails after the comparison of the digests: with an error, or, for the rename, because
-- the files are on two devices.
pub data Fault : Type 0 where
  returned : Text → Fault
  cross_device : Fault

-- The first step of a write that fails before the comparison of the digests, and after it.
pub record Faults : Type 0 where
  pub before : Option Text
  pub after : Option Fault

-- How a write ends.
pub data Written : Type 0 where
  wrote : Written
  failed : Text → Written
  panicked : Written

abbrev pub integrity_error : Text
integrity_error = codes "Integrity check failed"

module _ (md5 : Text → Text) where
  -- The end of a write, by the step that fails after the comparison.
  abbrev pub after_check : Option Fault → Text → Text → Dict Text → Written × Dict Text
  after_check (some (returned err)) path body disk = (failed err, disk)
  after_check (some cross_device) path body disk = (panicked, disk)
  after_check none path body disk = (wrote, insert path body disk)

  -- `writeFileWithIntegrityCheck`. The temporary file, which it removes where it does not succeed, is
  -- left out.
  unfoldable pub write_with_integrity_check :
      Faults → Text → Text → Text → Dict Text → Written × Dict Text
  unfolding text_eq insert
  write_with_integrity_check faults path body etag disk = elim faults.before [
    | some err ↦ (failed err, disk)
    | none ↦
        if not (text_eq etag (md5 body))
        then (failed integrity_error, disk)
        else after_check faults.after path body disk
  ]

  abbrev pub has_panicked : Written → Bool
  has_panicked wrote = false
  has_panicked (failed err) = false
  has_panicked panicked = true

  module _ (root : Text) (reread : ℕ → ℕ) (now : ℕ) (clock : Time) where
    -- `DatasiteAbsPath`; `root` is the folder of the datasites.
    unfoldable pub datasite_abs_path : Text → Text
    unfolding join_path
    datasite_abs_path path = join_path root path

    -- The end of a handler after the write: an error, or a row of the journal and the end of the work;
    -- nothing is done after a panic.
    abbrev pub after_write : Text → Text → ℕ → Written → Engine → Engine
    after_write path etag size panicked e = e
    after_write path etag size (failed err) e = record e {
      status = set_error err now path e.status;
    }
    after_write path etag size wrote e = complete now path (record e {
      journal =
          insert path
            (record {
              path = path;
              size = size;
              etag = etag;
              version = [];
              last_modified = stored_time reread clock;
            })
            e.journal;
    })

    -- What `handlePriorityDownload` and `processHttpMessage` do with a file that has come.
    abbrev pub write_local : Faults → Text → Text → Text → ℕ → Desk → Desk
    write_local faults path body etag size d =
        let place = datasite_abs_path path in
        let (end, disk) = write_with_integrity_check faults place body etag d.disk in
        record {
          engine =
              after_write path etag size end
                (record d.engine { status = set_syncing now path d.engine.status });
          crashed = d.crashed || has_panicked end;
          disk = disk;
          ignored = place ∷ d.ignored;
        }

    -- `handlePriorityDownload`
    unfoldable pub handle_priority_download : Faults → FileWrite → Desk → Desk
    unfolding write_with_integrity_check datasite_abs_path
    handle_priority_download faults w d = write_local faults w.path w.content w.etag w.length d

    -- `processHttpMessage`
    unfoldable pub process_http_message : Faults → HttpMsg → Desk → Desk
    unfolding write_with_integrity_check datasite_abs_path to_local_path file_path
    process_http_message faults m d =
        write_local faults (file_path (to_local_path m.syft_url) m.id request_suffix) m.body m.etag
          (length m.body) d

    -- The status after an error of the server; `marking` is the error of `SetMarker`.
    abbrev pub error_status : ℕ → Text → Option Text → SyncStatus → SyncStatus
    error_status code path (some err) s =
        if code == 403 then set_error err now path s else set_completed now path s
    error_status code path none s =
        if code == 403 then set_rejected now path s else set_completed now path s

    -- `handlePriorityError`
    unfoldable pub handle_priority_error : ℕ → Text → Option Text → Desk → Desk
    handle_priority_error code path marking d = record d {
      engine = record d.engine {
        status = error_status code path marking (set_syncing now path d.engine.status);
      };
    }

    -- `handleSocketEvents` on one message.
    unfoldable pub handle_socket_event : Faults → Option Text → Message → Desk → Desk
    unfolding handle_priority_download process_http_message handle_priority_error
    handle_socket_event faults marking m d = elim m.payload [
      | system version text ↦ d
      | error code path text ↦ handle_priority_error code path marking d
      | file_write w ↦ handle_priority_download faults w d
      | http h ↦ process_http_message faults h d
      | other ↦ d
    ]

-- `maxPrioritySize`
abbrev pub max_priority_size : ℕ
max_priority_size = 4194304

-- What the file system tells of a file that the watcher reports.
pub data FileContent : Type 0 where
  not_exist : FileContent
  unreadable : Text → FileContent
  content : ℕ → Text → Time → Text → FileContent

module _ (reread : ℕ → ℕ) (now : ℕ) where
  -- The end of `handlePriorityUpload`, from the message on: `sending` is the error of the sending.
  abbrev pub after_send : Text → ℕ → Text → Time → Option Text → Engine → Engine
  after_send path size etag modified (some err) e = record e {
    status = set_error err now path e.status;
  }
  after_send path size etag modified none e = complete now path (record e {
    journal =
        insert path
          (record {
            path = path;
            size = size;
            etag = etag;
            version = [];
            last_modified = stored_time reread modified;
          })
          e.journal;
  })

  -- What is done with the file that was read.
  unfoldable pub after_read : Text → FileContent → Option Text → Engine → Engine
  unfolding contents_changed
  after_read path not_exist sending e = complete now path e
  after_read path (unreadable err) sending e = record e { status = set_error err now path e.status }
  after_read path (content size etag modified body) sending e =
      if contents_changed path etag e.journal
      then after_send path size etag modified sending e
      else complete now path e

  -- `handlePriorityUpload`: the size of the file, where `none` is an error of `os.Stat`, and its path in
  -- the datasites, where `none` is an error of `DatasiteRelPath`.
  unfoldable pub handle_priority_upload :
      Option ℕ → Option Text → FileContent → Option Text → Engine → Engine
  unfolding after_read
  handle_priority_upload stat rel_path file sending e = elim stat [
    | none ↦ e
    | some size ↦ if ltb max_priority_size size then e else elim rel_path [
      | none ↦ e
      | some path ↦
          after_read path file sending (record e { status = set_syncing now path e.status })
    ]
  ]
