-- ===== src/Tests/Sync.antt =====
-- Runs of the client's synchronisation, and its theorems at concrete data.
use syftbox.Base.{
  ℕ, ◌≡◌, refl, true, false, [], ◌∷◌, none, some, Text, codes, text_eq, arith, Bool, List, is_some,
  ◌&&◌,
}
use syftbox.Base.Dict
use syftbox.FilePath.{is_empty}
use syftbox.Sync.Status.{
  SyncStatus, new_sync_status, subscribe, unsubscribe, drop_channel, offer, broadcast_event,
  get_or_create_status, change, set_syncing, set_progress, set_completed, drop_unmarked,
  set_completed_and_remove, set_error, set_conflicted, set_rejected, get_error_count, cleanup,
  close,
}
use syftbox.Sync.Status.Queries.{get_conflicted_files, get_syncing_file_count}
use syftbox.Sync.Status.Slots.{Action, run, slot_after, run-slot_after}
use syftbox.Sync.Status.Reachable.{
  Event, acted, subscribed, taken, step, steps, steps-IsTidy, new_sync_status-IsTidy,
}
use syftbox.Sync.Status.Retry.{get_error_count-steps, has_mark, has_mark-steps}
use syftbox.Sync.Files.{
  FileMetadata, Files, Time, differ, has_modified, journal_set, remote_state, get_remote_state,
  contents_changed,
}
use syftbox.Sync.Reconcile.{
  ignore, write_remote, conflict, unchanged, is_syncing, is_skipped, classify, place, add_paths,
  reconcile_paths, reconcile, record_agreed, rebuild_paths, rebuild_journal, has_changes, operation,
  op_write_remote,
}
use syftbox.Sync.Reconcile.Merge.{merge, classify-merge}
use syftbox.Sync.Reconcile.Placement.{entry, entry-reconcile}
use syftbox.Sync.Reconcile.Rebuild.{agreed, classify-rebuild_journal}
use syftbox.Sync.Reconcile.Skipped.{classify-steps, overwrites_local-classify}

-- All that a run of the synchronisation computes with.
opened : Unit {0}
unfolding text_eq Dict.lookup Dict.insert Dict.erase Dict.filter is_empty new_sync_status subscribe
    unsubscribe drop_channel offer broadcast_event get_or_create_status change set_syncing
    set_progress set_completed drop_unmarked set_completed_and_remove set_error set_conflicted
    set_rejected get_error_count get_conflicted_files get_syncing_file_count cleanup close run
    slot_after step steps differ has_modified journal_set remote_state get_remote_state
    contents_changed is_syncing is_skipped classify place add_paths reconcile_paths reconcile
    record_agreed rebuild_paths rebuild_journal has_changes merge entry agreed
opened = tt

abbrev a_file : Text
a_file = codes "a/f"

abbrev b_file : Text
b_file = codes "b/g"

abbrev c_file : Text
c_file = codes "c/h"

abbrev at : ℕ → Time
at n = record { instant = n; location = 1 }

abbrev file : Text → Text → ℕ → FileMetadata
file p etag size = record {
  path = p;
  size = size;
  etag = etag;
  version = [];
  last_modified = at 1500000000;
}

abbrev local : Files
local = (a_file, file a_file (codes "e1") 4) ∷ (b_file, file b_file (codes "e2") 4) ∷ []

abbrev remote : Files
remote = (a_file, file a_file (codes "e1") 4) ∷ (c_file, file c_file (codes "e3") 4) ∷ []

abbrev journal : Files
journal = (c_file, file c_file (codes "e3") 4) ∷ (a_file, file a_file (codes "e0") 4) ∷ []

abbrev nothing : Text → Bool
nothing p = false

abbrev utc : ℕ → ℕ
utc _ = 0

abbrev failing : List Event
failing =
    acted Action.syncing 1 a_file
    ∷ subscribed
    ∷ acted (Action.failed (codes "x")) 2 a_file
    ∷ acted (Action.failed (codes "y")) 3 a_file
    ∷ acted Action.completed 4 b_file
    ∷ acted (Action.failed (codes "z")) 5 a_file
    ∷ taken 0
    ∷ acted Action.marked_conflicted 6 c_file
    ∷ acted Action.completed 7 c_file
    ∷ []

abbrev reached : SyncStatus
reached = steps failing new_sync_status

status_runs :
    (get_error_count a_file reached ≡ 3)
    × (get_error_count b_file reached ≡ 0)
    × (Dict.keys (get_conflicted_files reached) ≡ c_file ∷ [])
    × (Dict.lookup b_file reached.files ≡ none)
unfolding opened
status_runs = (refl, refl, refl, refl)

reconcile_runs :
    let ops = reconcile nothing new_sync_status local remote journal in
    (Dict.keys ops.conflicts ≡ a_file ∷ [])
    × (Dict.keys ops.remote_writes ≡ b_file ∷ [])
    × (Dict.keys ops.remote_deletes ≡ c_file ∷ [])
    × (ops.total ≡ 3)
    × (has_changes ops ≡ true)
unfolding opened
reconcile_runs = (refl, refl, refl, refl, refl)

run-slot_after_example :
    Dict.lookup a_file (run (Action.failed (codes "w")) 9 a_file reached).files
    ≡ slot_after (Action.failed (codes "w")) 9 (Dict.lookup a_file reached.files)
unfolding opened
run-slot_after_example = run-slot_after (Action.failed (codes "w")) 9 a_file a_file reached

get_error_count-steps_example : get_error_count a_file reached ≡ 3
unfolding opened
get_error_count-steps_example =
    get_error_count-steps a_file failing new_sync_status new_sync_status-IsTidy refl

has_mark-steps_example :
    has_mark (Dict.lookup c_file (steps (acted Action.completed 8 c_file ∷ []) reached).files)
    ≡ true
unfolding opened
has_mark-steps_example =
    has_mark-steps c_file (acted Action.completed 8 c_file ∷ []) reached
      (steps-IsTidy failing new_sync_status new_sync_status-IsTidy) refl refl

classify-merge_example :
    classify nothing new_sync_status a_file
      (Dict.lookup a_file local)
      (Dict.lookup a_file remote)
      (Dict.lookup a_file journal)
    ≡ conflict
unfolding opened
classify-merge_example =
    classify-merge nothing new_sync_status a_file (Dict.lookup a_file local)
      (Dict.lookup a_file remote) (Dict.lookup a_file journal) refl

entry-reconcile_example :
    entry write_remote b_file (reconcile nothing new_sync_status local remote journal)
    ≡ some (some (operation b_file local remote journal op_write_remote))
unfolding opened
entry-reconcile_example =
    entry-reconcile nothing new_sync_status local remote journal write_remote b_file

classify-rebuild_journal_example :
    classify nothing new_sync_status a_file
      (Dict.lookup a_file local)
      (Dict.lookup a_file remote)
      (Dict.lookup a_file (rebuild_journal utc local remote journal))
    ≡ unchanged
unfolding opened
classify-rebuild_journal_example =
    classify-rebuild_journal utc nothing new_sync_status local remote journal a_file
      (file a_file (codes "e1") 4) (file a_file (codes "e1") 4) (refl, (refl, tt)) refl refl refl
      refl refl refl

classify-steps_example :
    classify nothing reached a_file (Dict.lookup a_file local) (Dict.lookup a_file remote) none
    ≡ ignore
unfolding opened
classify-steps_example =
    classify-steps nothing a_file failing (Dict.lookup a_file local) (Dict.lookup a_file remote)
      none refl (omega arith)

overwrites_local-classify_example :
    (is_some (Dict.lookup c_file journal)
      && has_modified (Dict.lookup c_file journal) (Dict.lookup c_file journal))
    ≡ false
unfolding opened
overwrites_local-classify_example =
    overwrites_local-classify nothing new_sync_status c_file (Dict.lookup c_file journal) none
      (Dict.lookup c_file journal) refl
