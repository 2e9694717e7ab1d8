-- ===== src/Sync/Downloads/Finished.antt =====
-- internal/client/sync/sync_engine_download.go, handleLocalWrites: which paths are in the syncing
-- state after a batch of downloads.
use syftbox.Base.{
  ℕ, ◌≡◌, refl, Bool, false, not, ◌&&◌, ◌||◌, List, [], ◌∷◌, Option, none, some, Text, text_eq, any,
  Bool-cases, inl, inr, arith,
}
use syftbox.Sync.Status.{SyncStatus, set_syncing}
use syftbox.Sync.Status.Slots.{Action, run, slot_after, run-slot_after}
use syftbox.Sync.Reconcile.{is_syncing}
use syftbox.Sync.Handlers.Deleted.{named}
use syftbox.Sync.Handlers.{Engine}
use syftbox.Sync.Handlers.Finished.{
  Ends, set_completed-Ends, set_completed_and_remove-Ends, set_error-Ends, is_syncing_slot,
}
use syftbox.Sync.Downloads.{
  DownloadError, presigned, other, DownloadResult, start_all, take_result, take_outcome,
  take_results, handle_local_writes,
}

is_syncing-set_syncing :
    (now : ℕ) (p q : Text) (s : SyncStatus)
    → is_syncing q (set_syncing now p s) ≡ (text_eq p q || is_syncing q s)
unfolding run slot_after
is_syncing-set_syncing now p q s =
    rw
      (
        is_syncing_slot q (set_syncing now p s),
        is_syncing_slot q s,
        run-slot_after Action.syncing now p q s,
      )
      (elim (Bool-cases (text_eq p q)) [ inl h ↦ rw (h) refl | inr h ↦ rw (h) refl ])

is_syncing-start_all :
    (now : ℕ) (ps : List Text) (q : Text) (s : SyncStatus)
    → is_syncing q (start_all now ps s) ≡ (named q ps || is_syncing q s)
unfolding start_all
is_syncing-start_all now [] q s = refl
is_syncing-start_all now (p ∷ ps) q s =
    ground
      (arith, is_syncing-start_all now ps q (set_syncing now p s), is_syncing-set_syncing now p q s)

-- A path has a result.
abbrev pub has_result : Text → Option (List DownloadResult) → Bool
has_result q none = false
has_result q (some rs) = any (λ r. text_eq r.path q) rs

module _ (reread : ℕ → ℕ) (now : ℕ) where
  take_outcome-Ends :
      (o : Option DownloadError) (r : DownloadResult) (e : Engine)
      → Ends r.path e.status (take_outcome reread now o r e).status
  unfolding take_outcome
  take_outcome-Ends none r e = set_completed-Ends now r.path e.status
  take_outcome-Ends (some (presigned err)) r e = set_completed_and_remove-Ends now r.path e.status
  take_outcome-Ends (some (other err)) r e = set_error-Ends err now r.path e.status

  take_results-Ends :
      (rs : List DownloadResult) (e : Engine) (q : Text)
      → is_syncing q (take_results reread now rs e).status
        ≡ (not (has_result q (some rs)) && is_syncing q e.status)
  unfolding take_results take_result
  take_results-Ends [] e q = refl
  take_results-Ends (r ∷ rs) e q = ground (
    arith,
    take_results-Ends rs (take_outcome reread now r.error r e) q,
    take_outcome-Ends r.error r e q,
  )

  -- After a batch of downloads a path is in the syncing state exactly if it was before or is in the
  -- batch, and it has no result. Where the temporary folder cannot be made no path has a result, and
  -- the whole batch stays in the syncing state, in which `reconcile` ignores it.
  pub handle_local_writes-Ends :
      (batch : List Text) (results : Option (List DownloadResult)) (e : Engine) (q : Text)
      → is_syncing q (handle_local_writes reread now batch results e).status
        ≡ (not (has_result q results) && (named q batch || is_syncing q e.status))
  unfolding handle_local_writes
  handle_local_writes-Ends batch none e q = is_syncing-start_all now batch q e.status
  handle_local_writes-Ends batch (some rs) e q = ground (
    arith,
    is_syncing-start_all now batch q e.status,
    take_results-Ends rs (record e { status = start_all now batch e.status }) q,
  )
