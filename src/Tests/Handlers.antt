-- ===== src/Tests/Handlers.antt =====
-- Runs of the handlers of the client's synchronisation, and their theorems at concrete data.
use syftbox.Base.{
  ℕ, ◌≡◌, refl, true, false, [], ◌∷◌, none, some, Text, codes, has_prefix, contains, text_eq, List,
  inr,
}
use syftbox.Base.Dict
use syftbox.Sync.Status.{
  new_sync_status, set_syncing, set_progress, set_completed, set_completed_and_remove, set_error,
  set_rejected, set_conflicted, drop_unmarked, change, get_or_create_status, broadcast_event, offer,
  get_error_count,
}
use syftbox.Sync.Files.{FileMetadata, Time, contents_changed, stored}
use syftbox.Sync.Reconcile.{is_syncing}
use syftbox.Sync.Handlers.{
  Engine, Answers, UploadResult, uploaded, refused, broken, reject, report_progress, upload_answer,
  process_upload, DeleteResponse, deleted_keys, delete_error, delete_errors, fail_all,
  handle_delete_result, delete_local_file, mark_conflict, take_first, drop_first, chunks,
  chunk_batch_slice, code_access_denied, code_delete_failed,
}
use syftbox.Sync.Handlers.Finished.{process_upload-Ends}
use syftbox.Sync.Handlers.Rows.{sent, process_upload_rows}
use syftbox.Sync.Downloads.{
  DownloadResult, start_all, take_outcome, take_result, take_results, handle_local_writes,
  etag_to_paths, unique_files, has_suffix, get_download_priority,
}
use syftbox.Sync.Downloads.Finished.{handle_local_writes-Ends}

opened : Unit {0}
unfolding text_eq Dict.lookup Dict.insert Dict.erase new_sync_status set_syncing set_progress
    set_completed set_completed_and_remove set_error set_rejected set_conflicted drop_unmarked
    change get_or_create_status broadcast_event offer get_error_count contents_changed is_syncing
    reject report_progress upload_answer process_upload deleted_keys delete_error delete_errors
    fail_all handle_delete_result delete_local_file mark_conflict take_first drop_first chunks
    chunk_batch_slice
opened = tt

abbrev a_file : Text
a_file = codes "a/f"

abbrev b_file : Text
b_file = codes "b/g"

abbrev time : Time
time = record { instant = 1500000000; location = 1 }

abbrev old_row : FileMetadata
old_row = record { path = a_file; size = 3; etag = codes "e0"; version = []; last_modified = time }

abbrev local_file : FileMetadata
local_file = record old_row { etag = codes "e1"; size = 4 }

abbrev syncing : Engine
syncing = record {
  status = set_syncing 1 b_file (set_syncing 1 a_file new_sync_status);
  journal = (a_file, old_row) ∷ (b_file, record old_row { path = b_file }) ∷ [];
}

abbrev answers : UploadResult → Answers
answers r = record {
  exists = true;
  is_valid_path = true;
  marking = none;
  progress = 1 ∷ 2 ∷ [];
  result = r;
}

abbrev utc : ℕ → ℕ
utc _ = 0

abbrev response : DeleteResponse
response = record {
  deleted = a_file ∷ [];
  errors = (b_file, code_delete_failed, codes "down") ∷ [];
}

handler_runs :
    let sent_file =
      process_upload utc 2 a_file local_file (answers (uploaded (codes "e1") 4 time)) syncing in
    let refused_file =
      process_upload utc 2 a_file local_file
        (answers (refused code_access_denied (codes "no")))
        syncing in
    let removed = handle_delete_result 2 (a_file ∷ b_file ∷ []) (inr response) syncing in
    (contents_changed a_file (codes "e1") sent_file.journal ≡ false)
    × (Dict.lookup a_file sent_file.status.files ≡ none)
    × (Dict.lookup a_file refused_file.journal ≡ none)
    × (get_error_count b_file removed.status ≡ 1)
    × (is_syncing b_file (mark_conflict 3 b_file none removed).status ≡ false)
    × (Dict.lookup b_file (delete_local_file 3 b_file none removed).journal ≡ none)
unfolding opened
handler_runs = (refl, refl, refl, refl, refl, refl)

process_upload-Ends_example :
    is_syncing a_file
      (process_upload utc 2 a_file local_file (answers (broken (codes "net"))) syncing).status
    ≡ false
unfolding opened
process_upload-Ends_example =
    process_upload-Ends utc 2 a_file local_file (answers (broken (codes "net"))) syncing a_file

process_upload_rows_example :
    Dict.lookup a_file
      (process_upload utc 2 a_file local_file
        (answers (uploaded (codes "e1") 4 time))
        syncing).journal
    ≡ some (stored utc (sent a_file (codes "e1") 4 time))
unfolding opened
process_upload_rows_example =
    process_upload_rows utc 2 a_file a_file local_file (answers (uploaded (codes "e1") 4 time))
      syncing

abbrev three : List ℕ
three = 1 ∷ 2 ∷ 3 ∷ []

abbrev downloads : List DownloadResult
downloads = record { path = a_file; metadata = local_file; error = none } ∷ []

download_runs :
    let done = handle_local_writes utc 4 (a_file ∷ b_file ∷ []) (some downloads) syncing in
    (contents_changed a_file (codes "e1") done.journal ≡ false)
    × (is_syncing a_file done.status ≡ false)
    × (Dict.lookup
          (codes "e1")
          (etag_to_paths (local_file ∷ record local_file { path = b_file } ∷ []) [])
        ≡ some (a_file ∷ b_file ∷ []))
    × (Dict.lookup
          (codes "e1")
          (unique_files (local_file ∷ record local_file { path = b_file } ∷ []) [])
        ≡ some b_file)
    × (get_download_priority (codes "a") local_file ≡ 0)
    × (get_download_priority (codes "bob") local_file ≡ 7)
    × (get_download_priority (codes "bob") (record local_file { path = codes "a/syft.pub.yaml" })
        ≡ 1)
unfolding opened start_all take_outcome take_result take_results handle_local_writes etag_to_paths
    unique_files has_suffix get_download_priority has_prefix contains
download_runs = (refl, refl, refl, refl, refl, refl, refl)

handle_local_writes-Ends_example :
    is_syncing b_file (handle_local_writes utc 4 (b_file ∷ []) none syncing).status ≡ true
unfolding opened start_all handle_local_writes
handle_local_writes-Ends_example = handle_local_writes-Ends utc 4 (b_file ∷ []) none syncing b_file
