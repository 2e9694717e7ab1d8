-- ===== src/Sync/Reconcile/Skipped.antt =====
-- internal/client/sync/sync_engine.go, reconcile: skipped paths, and paths that one side changed.
use syftbox.Base.{
  ◌≤◌, ◌≡◌, refl, Bool, true, false, ◌&&◌, Option, none, some, Text, arith, is_some, List, any,
  Bool-cases, inl, inr, sym, ◌∙◌, ap,
}
use syftbox.Base.Dict.{lookup}
use syftbox.Sync.Status.{SyncStatus, new_sync_status, get_error_count}
use syftbox.Sync.Status.Reachable.{Event, steps, new_sync_status-IsTidy}
use syftbox.Sync.Status.Retry.{is_release, failures, get_error_count-steps}
use syftbox.Sync.Files.{FileMetadata, has_modified}
use syftbox.Sync.Reconcile.{
  Verdict, ignore, write_remote, write_local, delete_remote, delete_local, max_retry_count,
  is_skipped, classify,
}
use syftbox.Sync.Reconcile.Merge.{classify-merge, merge, side, Side, missing, same, changed}

classify-is_skipped :
    (ignored : Text → Bool) (s : SyncStatus) (p : Text) (local remote journal : Option FileMetadata)
    → is_skipped ignored s p local ≡ true
    → classify ignored s p local remote journal ≡ ignore
unfolding classify
classify-is_skipped ignored s p local remote journal h = rw (h) refl

get_error_count-new_sync_status : (p : Text) → get_error_count p new_sync_status ≡ 0
unfolding get_error_count new_sync_status lookup
get_error_count-new_sync_status p = refl

is_skipped-get_error_count :
    (ignored : Text → Bool) (s : SyncStatus) (p : Text) (local : Option FileMetadata)
    → max_retry_count ≤ get_error_count p s
    → is_skipped ignored s p local ≡ true
unfolding is_skipped
is_skipped-get_error_count ignored s p local h = ground arith

-- After operations of which three or more are errors of a path and none is a completion or removal
-- of it or a `Close`, the path is ignored, whatever its three states.
pub classify-steps :
    (ignored : Text → Bool) (p : Text) (es : List Event)
    (local remote journal : Option FileMetadata)
    → any (is_release p) es ≡ false
    → max_retry_count ≤ failures p es
    → classify ignored (steps es new_sync_status) p local remote journal ≡ ignore
classify-steps ignored p es local remote journal h many =
    classify-is_skipped ignored _ p local remote journal (
      is_skipped-get_error_count ignored _ p local (
        omega (
          arith,
          get_error_count-steps p es new_sync_status new_sync_status-IsTidy h,
          get_error_count-new_sync_status p,
        )))

abbrev pub overwrites_local : Verdict → Bool
overwrites_local write_local = true
overwrites_local delete_local = true
overwrites_local _ = false

abbrev pub overwrites_remote : Verdict → Bool
overwrites_remote write_remote = true
overwrites_remote delete_remote = true
overwrites_remote _ = false

abbrev is_changed : Side → Bool
is_changed changed = true
is_changed _ = false

overwrites_local-merge :
    (a b : Side) (known : Bool) → overwrites_local (merge a b known) ≡ true → is_changed a ≡ false
unfolding merge
overwrites_local-merge changed missing known h = ground arith
overwrites_local-merge changed same known h = ground arith
overwrites_local-merge changed changed known h = ground arith
overwrites_local-merge missing _ known h = refl
overwrites_local-merge same _ known h = refl

overwrites_remote-merge :
    (a b : Side) (known : Bool) → overwrites_remote (merge a b known) ≡ true → is_changed b ≡ false
unfolding merge
overwrites_remote-merge missing changed known h = ground arith
overwrites_remote-merge same changed known h = ground arith
overwrites_remote-merge changed changed known h = ground arith
overwrites_remote-merge _ missing known h = refl
overwrites_remote-merge _ same known h = refl

is_changed-side : (o : Option FileMetadata) (b : Bool) → is_changed (side o b) ≡ (is_some o && b)
is_changed-side none b = refl
is_changed-side (some f) true = refl
is_changed-side (some f) false = refl

-- `reconcile` writes or deletes a local file only if it is absent, or unmodified since the journal.
pub overwrites_local-classify :
    (ignored : Text → Bool) (s : SyncStatus) (p : Text) (local remote journal : Option FileMetadata)
    → overwrites_local (classify ignored s p local remote journal) ≡ true
    → (is_some local && has_modified local journal) ≡ false
overwrites_local-classify ignored s p local remote journal h =
    elim (Bool-cases (is_skipped ignored s p local)) [
      | inl k ↦
          ground
            (arith, ap overwrites_local (classify-is_skipped ignored s p local remote journal k))
      | inr k ↦
          sym (is_changed-side local (has_modified local journal))
          ∙ overwrites_local-merge _ _ _
              (rw (classify-merge ignored s p local remote journal k) at h)
    ]

-- `reconcile` writes or deletes a remote file only if it is absent, or unmodified since the journal.
pub overwrites_remote-classify :
    (ignored : Text → Bool) (s : SyncStatus) (p : Text) (local remote journal : Option FileMetadata)
    → overwrites_remote (classify ignored s p local remote journal) ≡ true
    → (is_some remote && has_modified journal remote) ≡ false
overwrites_remote-classify ignored s p local remote journal h =
    elim (Bool-cases (is_skipped ignored s p local)) [
      | inl k ↦
          ground
            (arith, ap overwrites_remote (classify-is_skipped ignored s p local remote journal k))
      | inr k ↦
          sym (is_changed-side remote (has_modified journal remote))
          ∙ overwrites_remote-merge (side local (has_modified local journal)) _ _
              (rw (classify-merge ignored s p local remote journal k) at h)
    ]
