-- ===== src/Sync/Status/Queries.antt =====
-- internal/client/sync/sync_status.go: the reads that go over all paths.
use syftbox.Base.{ℕ, ◌+◌, Bool, [], ◌∷◌, if◌then◌else◌}
use syftbox.Base.Dict.{Dict, filter}
use syftbox.Sync.Status.{PathStatus, SyncStatus, is_conflicted, is_rejected, is_syncing_state}

-- `GetConflictedFiles`
unfoldable pub get_conflicted_files : SyncStatus → Dict PathStatus
get_conflicted_files s = filter (λ _ st. is_conflicted st.conflict_state) s.files

-- `GetRejectedFiles`
unfoldable pub get_rejected_files : SyncStatus → Dict PathStatus
get_rejected_files s = filter (λ _ st. is_rejected st.conflict_state) s.files

-- The counting loops.
abbrev pub count_status : (PathStatus → Bool) → Dict PathStatus → ℕ
count_status p [] = 0
count_status p ((_, st) ∷ d) = if p st then count_status p d + 1 else count_status p d

-- `GetSyncingFileCount`
unfoldable pub get_syncing_file_count : SyncStatus → ℕ
get_syncing_file_count s = count_status (λ st. is_syncing_state st.sync_state) s.files

-- `GetConflictedFileCount`
unfoldable pub get_conflicted_file_count : SyncStatus → ℕ
get_conflicted_file_count s = count_status (λ st. is_conflicted st.conflict_state) s.files

-- `GetRejectedFileCount`
unfoldable pub get_rejected_file_count : SyncStatus → ℕ
get_rejected_file_count s = count_status (λ st. is_rejected st.conflict_state) s.files

-- `GetAllStatus`, whose copies are the values.
abbrev pub get_all_status : SyncStatus → Dict PathStatus
get_all_status s = s.files
