-- ===== src/Sync/Downloads.antt =====
-- internal/client/sync/sync_engine_download.go: what a batch of downloads does to the status and the
-- journal, the grouping of the batch by content, and the priorities. The results of the downloads
-- are an argument; `none` is a temporary folder that cannot be made.
pub mod Finished
use syftbox.Base.{
  ℕ, ◌+◌, ◌≡◌, refl, Bool, true, false, not, ◌&&◌, ◌||◌, List, [], ◌∷◌, ◌++◌, Option, none, some,
  Text, codes, text_eq, has_prefix, contains, length, any, if◌then◌else◌, Bool-cases, inl, inr,
  arith, sym, ◌∙◌,
}
use syftbox.Base.Dict.{Dict, lookup, insert}
use syftbox.Sync.Status.{
  SyncStatus, set_syncing, set_completed, set_completed_and_remove, set_error,
}
use syftbox.Sync.Status.Slots.{Action, run, slot_after, run-slot_after}
use syftbox.Sync.Files.{FileMetadata, Files, stored}
use syftbox.Sync.Reconcile.{is_syncing}
use syftbox.Sync.Handlers.{Engine}

-- The error of a download; `presigned` is one of the server whose code begins as the codes for
-- presigned URLs do.
pub data DownloadError : Type 0 where
  presigned : Text → DownloadError
  other : Text → DownloadError

-- `downloadResult`
pub record DownloadResult : Type 0 where
  pub path : Text
  pub metadata : FileMetadata
  pub error : Option DownloadError

-- The first loop of `handleLocalWrites`, over the paths of the batch.
unfoldable pub start_all : ℕ → List Text → SyncStatus → SyncStatus
start_all now [] s = s
start_all now (p ∷ ps) s = start_all now ps (set_syncing now p s)

module _ (reread : ℕ → ℕ) (now : ℕ) where
  -- One round of the loop over the results, by the error of the result.
  unfoldable pub take_outcome : Option DownloadError → DownloadResult → Engine → Engine
  take_outcome (some (presigned err)) r e = record e {
    status = set_completed_and_remove now r.path e.status;
  }
  take_outcome (some (other err)) r e = record e { status = set_error err now r.path e.status }
  take_outcome none r e = record {
    status = set_completed now r.path e.status;
    journal = insert r.metadata.path (stored reread r.metadata) e.journal;
  }

  unfoldable pub take_result : DownloadResult → Engine → Engine
  take_result r e = take_outcome r.error r e

  unfoldable pub take_results : List DownloadResult → Engine → Engine
  take_results [] e = e
  take_results (r ∷ rs) e = take_results rs (take_result r e)

  -- `handleLocalWrites`
  unfoldable pub handle_local_writes : List Text → Option (List DownloadResult) → Engine → Engine
  handle_local_writes batch results e =
      let started = record e { status = start_all now batch e.status } in
      elim results [ none ↦ started | some rs ↦ take_results rs started ]

-- The paths with a content, in the order of the loop.
abbrev pub or_empty : Option (List Text) → List Text
or_empty none = []
or_empty (some ps) = ps

-- `etagToPaths` of `downloadBatchUnique`, for the remote files of the batch.
unfoldable pub etag_to_paths : List FileMetadata → Dict (List Text) → Dict (List Text)
etag_to_paths [] groups = groups
etag_to_paths (f ∷ fs) groups =
    etag_to_paths fs (insert f.etag (or_empty (lookup f.etag groups) ++ (f.path ∷ [])) groups)

-- `uniqueFiles` of `downloadBatchUnique`: one path for each content, the last one.
unfoldable pub unique_files : List FileMetadata → Dict Text → Dict Text
unique_files [] files = files
unique_files (f ∷ fs) files = unique_files fs (insert f.etag f.path files)

-- `strings.HasSuffix`
unfoldable pub has_suffix : Text → Text → Bool
unfolding text_eq
has_suffix [] s = text_eq [] s
has_suffix (c ∷ cs) s = text_eq (c ∷ cs) s || has_suffix cs s

-- `getDownloadPriority`; `owner` is the owner of the workspace.
unfoldable pub get_download_priority : Text → FileMetadata → ℕ
unfolding has_prefix contains has_suffix
get_download_priority owner f =
    if has_prefix f.path owner
    then 0
    else if has_suffix f.path (codes "syft.pub.yaml")
    then 1
    else if contains f.path (codes "/rpc/")
    then 2
    else f.size + length f.path
