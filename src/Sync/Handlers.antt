-- ===== src/Sync/Handlers.antt =====
-- internal/client/sync/sync_engine_upload.go, sync_engine_delete.go and sync_engine_conflict.go: what
-- the handlers of the operations do to the status and the journal. What the file system and the
-- server answer is an argument. One time `now` stands for the clock during a handler.
pub mod Finished
pub mod Deleted
pub mod Chunks
pub mod Rows
use syftbox.Base.{
  ℕ, ◌+◌, ◌-◌, suc, zero, Bool, true, false, not, ◌&&◌, ◌||◌, List, [], ◌∷◌, ◌++◌, Option, none,
  some, Text, codes, leb, text_eq, if◌then◌else◌, length, ◌==◌, ◌⊎◌, inl, inr,
}
use syftbox.Base.Dict.{Dict, lookup, insert, erase}
use syftbox.Sync.Status.{
  SyncStatus, set_syncing, set_progress, set_completed, set_completed_and_remove, set_error,
  set_conflicted, set_rejected,
}
use syftbox.Sync.Files.{FileMetadata, Files, Time, contents_changed, journal_delete, stored_time}
use syftbox.Sync.Reconcile.{SyncOperation, Batch}

-- The state of `SyncEngine` that the handlers change.
pub record Engine : Type 0 where
  pub status : SyncStatus
  pub journal : Files

abbrev pub code_access_denied : Text
code_access_denied = codes "E_ACCESS_DENIED"

abbrev pub code_invalid_path : Text
code_invalid_path = codes "E_DATASITE_INVALID_PATH"

abbrev pub code_delete_failed : Text
code_delete_failed = codes "E_BLOB_DELETE_OPERATION_FAILED"

-- The answer of the upload: the ETag, the size and the time, which is the clock's if the answer's
-- does not parse; an error of the server with its code and message; or another error.
pub data UploadResult : Type 0 where
  uploaded : Text → ℕ → Time → UploadResult
  refused : Text → Text → UploadResult
  broken : Text → UploadResult

-- What the file system and the server answer during an upload. `marking` is the error of
-- `SetMarker`, or `none`; `progress` are the values that the callback is called with.
pub record Answers : Type 0 where
  pub exists : Bool
  pub is_valid_path : Bool
  pub marking : Option Text
  pub progress : List ℕ
  pub result : UploadResult

-- The file is marked as rejected, and its row leaves the journal.
unfoldable pub reject : ℕ → Text → Option Text → Engine → Engine
reject now path marking e = record {
  status = elim marking [
    | none ↦ set_rejected now path e.status
    | some err ↦ set_error err now path e.status
  ];
  journal = journal_delete path e.journal;
}

unfoldable pub report_progress : ℕ → Text → List ℕ → Engine → Engine
report_progress now path [] e = e
report_progress now path (n ∷ ns) e =
    report_progress now path ns (record e { status = set_progress n now path e.status })

abbrev pub complete : ℕ → Text → Engine → Engine
complete now path e = record e { status = set_completed now path e.status }

-- The codes for which the file may not be written.
abbrev pub is_refusal : Text → Bool
is_refusal code = text_eq code code_access_denied || text_eq code code_invalid_path

module _ (reread : ℕ → ℕ) (now : ℕ) where
  -- The end of `processUpload`, from the answer of the upload on.
  unfoldable pub upload_answer : Text → Option Text → UploadResult → Engine → Engine
  upload_answer path marking (uploaded etag size time) e = complete now path (record e {
    journal =
        insert path
          (record {
            path = path;
            size = size;
            etag = etag;
            version = [];
            last_modified = stored_time reread time;
          })
          e.journal;
  })
  upload_answer path marking (refused code err) e =
      if is_refusal code
      then reject now path marking e
      else record e { status = set_error err now path e.status }
  upload_answer path marking (broken err) e = record e { status = set_error err now path e.status }

  -- `processUpload`
  unfoldable pub process_upload : Text → FileMetadata → Answers → Engine → Engine
  process_upload path local answers e =
      if local.size == 0
      then complete now path e
      else if not (contents_changed path local.etag e.journal)
      then complete now path e
      else if not answers.exists
      then complete now path e
      else if not answers.is_valid_path
      then reject now path answers.marking e
      else upload_answer path answers.marking answers.result
          (report_progress now path answers.progress e)

-- The answer of a delete request: the keys that were deleted, and the keys that were not, with
-- their codes and messages.
pub record DeleteResponse : Type 0 where
  pub deleted : List Text
  pub errors : List (Text × Text × Text)

module _ (now : ℕ) where
  abbrev pub forget : Text → Engine → Engine
  forget path e = record {
    status = set_completed_and_remove now path e.status;
    journal = journal_delete path e.journal;
  }

  unfoldable pub deleted_keys : List Text → Engine → Engine
  deleted_keys [] e = e
  deleted_keys (key ∷ keys) e = deleted_keys keys (forget key e)

  -- One round of the loop over the errors.
  unfoldable pub delete_error : Text → Text → Text → Engine → Engine
  delete_error key code err e =
      if text_eq code code_access_denied
      then record {
        status = set_error err now key e.status;
        journal = journal_delete key e.journal;
      }
      else if text_eq code code_delete_failed
      then record e { status = set_error err now key e.status }
      else forget key e

  unfoldable pub delete_errors : List (Text × Text × Text) → Engine → Engine
  delete_errors [] e = e
  delete_errors ((key, code, err) ∷ more) e = delete_errors more (delete_error key code err e)

  unfoldable pub fail_all : Text → List Text → Engine → Engine
  fail_all err [] e = e
  fail_all err (path ∷ paths) e =
      fail_all err paths (record e { status = set_error err now path e.status })

  -- `handleDeleteResult`: the paths of the batch, and the error of the request or the response.
  unfoldable pub handle_delete_result : List Text → Text ⊎ DeleteResponse → Engine → Engine
  handle_delete_result batch (inl err) e = fail_all err batch e
  handle_delete_result batch (inr response) e =
      delete_errors response.errors (deleted_keys response.deleted e)

  -- One round of the loop of `handleLocalDeletes`; `removal` is the error of the removal of the
  -- file, but for one that says that there is none.
  unfoldable pub delete_local_file : Text → Option Text → Engine → Engine
  delete_local_file path removal e =
      let syncing = set_syncing now path e.status in
      record {
        status = elim removal [
          | none ↦ set_completed_and_remove now path syncing
          | some err ↦ set_error err now path syncing
        ];
        journal = journal_delete path e.journal;
      }

  -- One round of the loop of `handleConflicts`; `marking` is the error of `SetMarker`.
  unfoldable pub mark_conflict : Text → Option Text → Engine → Engine
  mark_conflict path marking e =
      let syncing = set_syncing now path e.status in
      record e {
        status = elim marking [
          | none ↦ set_conflicted now path syncing
          | some err ↦ set_error err now path syncing
        ];
      }

module _ {ℓ} {A : Type ℓ} where
  unfoldable pub take_first : ℕ → List A → List A
  take_first zero xs = []
  take_first (suc n) [] = []
  take_first (suc n) (x ∷ xs) = x ∷ take_first n xs

  unfoldable pub drop_first : ℕ → List A → List A
  drop_first zero xs = xs
  drop_first (suc n) [] = []
  drop_first (suc n) (x ∷ xs) = drop_first n xs

  -- The loop of `chunkBatchSlice` on what is left of the slice, on fuel.
  unfoldable pub chunks : ℕ → ℕ → List A → List (List A)
  unfolding take_first drop_first
  chunks fuel size [] = []
  chunks zero size (x ∷ xs) = []
  chunks (suc fuel) size (x ∷ xs) =
      take_first size (x ∷ xs) ∷ chunks fuel size (drop_first size (x ∷ xs))

  -- `chunkBatchSlice`, for a chunk size that is not 0.
  unfoldable pub chunk_batch_slice : List A → ℕ → List (List A)
  chunk_batch_slice xs size = chunks (length xs) size xs
