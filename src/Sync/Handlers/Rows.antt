-- ===== src/Sync/Handlers/Rows.antt =====
-- internal/client/sync/sync_engine_upload.go and sync_engine_delete.go: the rows of the journal after
-- the handlers.
use syftbox.Base.{
  ℕ, ◌≡◌, refl, Bool, true, false, not, ◌&&◌, ◌||◌, List, [], ◌∷◌, Option, none, some, Text,
  text_eq, arith, if◌then◌else◌, any, Bool-cases, inl, inr, ap, ◌==◌, ◌⊎◌,
}
use syftbox.Base.Dict.{lookup, lookup-insert, lookup-erase}
use syftbox.Sync.Files.{FileMetadata, Files, contents_changed, stored, Time}
use syftbox.Sync.Handlers.{
  Engine, Answers, UploadResult, uploaded, refused, broken, reject, report_progress, is_refusal,
  upload_answer, process_upload, DeleteResponse, forget, deleted_keys, delete_error, delete_errors,
  fail_all, handle_delete_result, code_access_denied, code_delete_failed,
}

-- The errors of a key after which its row is removed.
abbrev pub forgets : Text → Bool
forgets code = text_eq code code_access_denied || not (text_eq code code_delete_failed)

abbrev pub forgets_key : Text → Text × Text × Text → Bool
forgets_key q (key, code, _) = text_eq key q && forgets code

-- Whether the result of a delete request removes the row of a path.
abbrev pub forgotten : Text → Text ⊎ DeleteResponse → Bool
forgotten q (inl err) = false
forgotten q (inr r) = any (λ k. text_eq k q) r.deleted || any (forgets_key q) r.errors

module _ (now : ℕ) where
  fail_all_rows :
      (err : Text) (keys : List Text) (e : Engine) → (fail_all now err keys e).journal ≡ e.journal
  unfolding fail_all
  fail_all_rows err [] e = refl
  fail_all_rows err (k ∷ ks) e = fail_all_rows err ks _

  deleted_keys_rows :
      (keys : List Text) (e : Engine) (q : Text)
      → lookup q (deleted_keys now keys e).journal
        ≡ (if any (λ k. text_eq k q) keys then none else lookup q e.journal)
  unfolding deleted_keys
  deleted_keys_rows [] e q = refl
  deleted_keys_rows (k ∷ ks) e q =
      ground (arith, deleted_keys_rows ks (forget now k e) q, lookup-erase k q e.journal)

  delete_errors_rows :
      (es : List (Text × Text × Text)) (e : Engine) (q : Text)
      → lookup q (delete_errors now es e).journal
        ≡ (if any (forgets_key q) es then none else lookup q e.journal)
  unfolding delete_errors delete_error
  delete_errors_rows [] e q = refl
  delete_errors_rows ((k, code, err) ∷ es) e q =
      ground
        (arith, delete_errors_rows es (delete_error now k code err e) q, lookup-erase k q e.journal)

  -- The result of a delete request removes the rows of the deleted keys and of the keys whose error
  -- is not that the delete operation failed, and no others; a failed request removes none.
  pub handle_delete_result_rows :
      (batch : List Text) (r : Text ⊎ DeleteResponse) (e : Engine) (q : Text)
      → lookup q (handle_delete_result now batch r e).journal
        ≡ (if forgotten q r then none else lookup q e.journal)
  unfolding handle_delete_result
  handle_delete_result_rows batch (inl err) e q = ap (lookup q) (fail_all_rows err batch e)
  handle_delete_result_rows batch (inr r) e q = ground (
    arith,
    delete_errors_rows r.errors (deleted_keys now r.deleted e) q,
    deleted_keys_rows r.deleted e q,
  )

report_progress_rows :
    (now : ℕ) (p : Text) (ns : List ℕ) (e : Engine)
    → (report_progress now p ns e).journal ≡ e.journal
unfolding report_progress
report_progress_rows now p [] e = refl
report_progress_rows now p (n ∷ ns) e = report_progress_rows now p ns _

-- The file that the server has after an upload.
abbrev pub sent : Text → Text → ℕ → Time → FileMetadata
sent p etag size time = record {
  path = p;
  size = size;
  etag = etag;
  version = [];
  last_modified = time;
}

same_both {ℓ} : {A : Type ℓ} (b : Bool) (x : A) → x ≡ (if b then x else x)
same_both true x = refl
same_both false x = refl

module _ (reread : ℕ → ℕ) where
  -- What becomes of the row of a path whose upload was tried.
  abbrev pub row_after : Text → UploadResult → Option FileMetadata → Option FileMetadata
  row_after p (uploaded etag size time) old = some (stored reread (sent p etag size time))
  row_after p (refused code err) old = if is_refusal code then none else old
  row_after p (broken err) old = old

  upload_answer_rows :
      (now : ℕ) (p q : Text) (marking : Option Text) (r : UploadResult) (e : Engine)
      → lookup q (upload_answer reread now p marking r e).journal
        ≡ (if text_eq p q then row_after p r (lookup q e.journal) else lookup q e.journal)
  unfolding upload_answer reject
  upload_answer_rows now p q marking (uploaded etag size time) e =
      lookup-insert p q (stored reread (sent p etag size time)) e.journal
  upload_answer_rows now p q marking (refused code err) e = elim (Bool-cases (is_refusal code)) [
    | inl h ↦ rw (h) (lookup-erase p q e.journal)
    | inr h ↦ rw (h) (same_both (text_eq p q) (lookup q e.journal))
  ]
  upload_answer_rows now p q marking (broken err) e = same_both (text_eq p q) (lookup q e.journal)

  -- An upload is tried of a file that is not empty, differs from the journal and is still there.
  abbrev pub is_tried : Text → FileMetadata → Answers → Files → Bool
  is_tried p local answers journal =
      not (local.size == 0) && contents_changed p local.etag journal && answers.exists

  -- `processUpload` touches the row of its path alone, and only if the upload is tried: the row is
  -- what the server has after a successful upload, gone if the path is invalid or the server
  -- refuses the file, and as it was after any other error.
  pub process_upload_rows :
      (now : ℕ) (p q : Text) (local : FileMetadata) (answers : Answers) (e : Engine)
      → lookup q (process_upload reread now p local answers e).journal ≡ (
          if text_eq p q && is_tried p local answers e.journal
          then (if answers.is_valid_path
              then row_after p answers.result (lookup q e.journal)
              else none)
          else lookup q e.journal)
  unfolding process_upload reject
  process_upload_rows now p q local answers e =
      let reported = report_progress now p answers.progress e in
      ground (
        arith,
        upload_answer_rows now p q answers.marking answers.result reported,
        ap (lookup q) (report_progress_rows now p answers.progress e),
        lookup-erase p q e.journal,
      )
