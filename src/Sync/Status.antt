-- ===== src/Sync/Status.antt =====
-- internal/client/sync/sync_status.go: what the client tracks of each path, and who is told. Locks
-- are left out: every operation holds the write lock from its first line to its last.
pub mod Queries
pub mod Slots
pub mod Kept
pub mod Reachable
pub mod Retry
use syftbox.Base.{
  ℕ, ◌+◌, Bool, true, false, not, ◌&&◌, List, [], ◌∷◌, ◌++◌, Option, none, some, Text, ltb, ◌==◌,
  length, if◌then◌else◌,
}
use syftbox.Base.Dict.{Dict, lookup, insert, erase, filter, keys}
use mathlib.Core.List.{map}

pub data SyncState : Type 0 where
  pending : SyncState
  syncing : SyncState
  completed : SyncState
  error : SyncState

pub data ConflictState : Type 0 where
  unmarked : ConflictState  -- ConflictStateNone
  conflicted : ConflictState
  rejected : ConflictState

abbrev pub is_syncing_state : SyncState → Bool
is_syncing_state syncing = true
is_syncing_state _ = false

abbrev pub is_completed_state : SyncState → Bool
is_completed_state completed = true
is_completed_state _ = false

abbrev pub is_unmarked : ConflictState → Bool
is_unmarked unmarked = true
is_unmarked _ = false

abbrev pub is_conflicted : ConflictState → Bool
is_conflicted conflicted = true
is_conflicted _ = false

abbrev pub is_rejected : ConflictState → Bool
is_rejected rejected = true
is_rejected _ = false

-- The bits of the float64 values 0.0 and 100.0; the code only stores them.
abbrev pub progress_min : ℕ
progress_min = 0

abbrev pub progress_max : ℕ
progress_max = 0x4059000000000000

abbrev pub sync_event_buffer_size : ℕ
sync_event_buffer_size = 16

-- `PathStatus`; an error is its message, the time a number.
pub record PathStatus : Type 0 where
  pub sync_state : SyncState
  pub conflict_state : ConflictState
  pub progress : ℕ
  pub error : Option Text
  pub error_count : ℕ
  pub last_updated : ℕ

-- A subscribed channel: its identity, and the paths of the events that wait in its buffer. The
-- status pointer of an event is left out.
pub record Channel : Type 0 where
  pub id : ℕ
  pub queue : List Text

-- `SyncStatus`, with the identity that the next channel gets.
pub record SyncStatus : Type 0 where
  pub files : Dict PathStatus
  pub event_subs : List Channel
  pub next_id : ℕ

-- `NewSyncStatus`
unfoldable pub new_sync_status : SyncStatus
new_sync_status = record { files = []; event_subs = []; next_id = 0 }

-- `Subscribe`
unfoldable pub subscribe : SyncStatus → ℕ × SyncStatus
subscribe s = (
  s.next_id,
  record s {
    event_subs = s.event_subs ++ (record { id = s.next_id; queue = [] } ∷ []);
    next_id = s.next_id + 1;
  },
)

-- The loop of `Unsubscribe`, which stops at the first channel that is the given one.
unfoldable pub drop_channel : ℕ → List Channel → List Channel
drop_channel id [] = []
drop_channel id (ch ∷ chs) =
    let rest = drop_channel id chs in if ch.id == id then chs else ch ∷ rest

-- `Unsubscribe`
unfoldable pub unsubscribe : ℕ → SyncStatus → SyncStatus
unfolding drop_channel
unsubscribe id s = record s { event_subs = drop_channel id s.event_subs }

-- The non-blocking send: a full buffer skips the event.
unfoldable pub offer : Text → Channel → Channel
offer path ch =
    if ltb (length ch.queue) sync_event_buffer_size
    then record ch { queue = ch.queue ++ (path ∷ []) }
    else ch

-- `broadcastEvent`
unfoldable pub broadcast_event : Text → SyncStatus → SyncStatus
broadcast_event path s = record s { event_subs = map (offer path) s.event_subs }

-- The status that `getOrCreateStatus` creates.
abbrev pub fresh_status : ℕ → PathStatus
fresh_status now = record {
  sync_state = pending;
  conflict_state = unmarked;
  progress = progress_min;
  error = none;
  error_count = 0;
  last_updated = now;
}

-- What the read of the map leads to: the status, and the map, where a created status is stored.
abbrev pub existing_or_new :
    ℕ → Text → Dict PathStatus → Option PathStatus → PathStatus × Dict PathStatus
existing_or_new now path files (some st) = (st, files)
existing_or_new now path files none = (fresh_status now, insert path (fresh_status now) files)

-- `getOrCreateStatus`
unfoldable pub get_or_create_status : ℕ → Text → Dict PathStatus → PathStatus × Dict PathStatus
get_or_create_status now path files = existing_or_new now path files (lookup path files)

-- The assignments of an operation to the status that `getOrCreateStatus` returns, which the map
-- shares.
unfoldable pub change : (PathStatus → PathStatus) → ℕ → Text → SyncStatus → SyncStatus
change f now path s =
    let got = get_or_create_status now path s.files in
    record s { files = insert path (f got.0) got.1 }

-- The assignments of each operation.
abbrev pub as_syncing : ℕ → PathStatus → PathStatus
as_syncing now st = record st {
  sync_state = syncing;
  progress = progress_min;
  error = none;
  last_updated = now;
}

abbrev pub as_progress : ℕ → ℕ → PathStatus → PathStatus
as_progress progress now st = record st { progress = progress; last_updated = now }

abbrev pub as_completed : ℕ → PathStatus → PathStatus
as_completed now st = record st {
  sync_state = completed;
  progress = progress_max;
  error = none;
  last_updated = now;
}

abbrev pub as_failed : Text → ℕ → PathStatus → PathStatus
as_failed err now st = record st {
  sync_state = SyncState.error;
  error = some err;
  error_count = st.error_count + 1;
  last_updated = now;
}

abbrev pub as_marked : ConflictState → ℕ → PathStatus → PathStatus
as_marked mark now st = record (as_completed now st) { conflict_state = mark }

-- `SetSyncing`
unfoldable pub set_syncing : ℕ → Text → SyncStatus → SyncStatus
set_syncing now path s = broadcast_event path (change (as_syncing now) now path s)

-- `SetProgress`
unfoldable pub set_progress : ℕ → ℕ → Text → SyncStatus → SyncStatus
set_progress progress now path s =
    broadcast_event path (change (as_progress progress now) now path s)

abbrev pub has_no_mark : Option PathStatus → Bool
has_no_mark none = false
has_no_mark (some st) = is_unmarked st.conflict_state

-- The removal in `SetCompleted` of a status that carries no mark.
unfoldable pub drop_unmarked : Text → SyncStatus → SyncStatus
drop_unmarked path s =
    if has_no_mark (lookup path s.files) then record s { files = erase path s.files } else s

-- `SetCompleted`
unfoldable pub set_completed : ℕ → Text → SyncStatus → SyncStatus
set_completed now path s =
    broadcast_event path (drop_unmarked path (change (as_completed now) now path s))

-- `SetCompletedAndRemove`
unfoldable pub set_completed_and_remove : ℕ → Text → SyncStatus → SyncStatus
set_completed_and_remove now path s =
    let told = broadcast_event path (change (as_marked unmarked now) now path s) in
    record told { files = erase path told.files }

-- `SetError`
unfoldable pub set_error : Text → ℕ → Text → SyncStatus → SyncStatus
set_error err now path s = broadcast_event path (change (as_failed err now) now path s)

-- `SetConflicted`
unfoldable pub set_conflicted : ℕ → Text → SyncStatus → SyncStatus
set_conflicted now path s = broadcast_event path (change (as_marked conflicted now) now path s)

-- `SetRejected`
unfoldable pub set_rejected : ℕ → Text → SyncStatus → SyncStatus
set_rejected now path s = broadcast_event path (change (as_marked rejected now) now path s)

-- `GetStatus`
abbrev pub get_status : Text → SyncStatus → Option PathStatus
get_status path s = lookup path s.files

-- `GetErrorCount`
unfoldable pub get_error_count : Text → SyncStatus → ℕ
get_error_count path s = elim (lookup path s.files) [ some st ↦ st.error_count | none ↦ 0 ]

-- What `Cleanup` deletes at `now`: the comparison with the cutoff is moved to the other side.
abbrev pub is_stale : ℕ → ℕ → PathStatus → Bool
is_stale max_age now st =
    is_completed_state st.sync_state
    && is_unmarked st.conflict_state
    && ltb (st.last_updated + max_age) now

-- `Cleanup`
unfoldable pub cleanup : ℕ → ℕ → SyncStatus → SyncStatus
cleanup max_age now s = record s { files = filter (λ _ st. not (is_stale max_age now st)) s.files }

-- `Close`
unfoldable pub close : SyncStatus → SyncStatus
close s = record s { files = []; event_subs = [] }
