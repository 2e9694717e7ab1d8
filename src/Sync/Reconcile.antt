-- ===== src/Sync/Reconcile.antt =====
-- internal/client/sync/sync_engine.go and sync_engine_types.go: what a full synchronisation decides
-- to do. `ignored` is `ShouldIgnore` of the ignore list.
pub mod Merge
pub mod Placement
pub mod Rebuild
pub mod Skipped
use syftbox.Base.{
  ℕ, ◌+◌, Bool, true, false, not, ◌&&◌, ◌||◌, List, [], ◌∷◌, Option, none, some, Text, text_eq, ltb,
  leb, is_some, ◌==◌, length, if◌then◌else◌,
}
use syftbox.Base.Dict.{Dict, lookup, insert, keys}
use syftbox.Sync.Status.{SyncStatus, PathStatus, get_status, get_error_count, is_syncing_state}
use syftbox.Sync.Files.{FileMetadata, Files, has_modified, journal_set}

-- `OpType`, as far as `reconcile` uses it.
pub data OpType : Type 0 where
  op_write_remote : OpType
  op_write_local : OpType
  op_delete_remote : OpType
  op_delete_local : OpType
  op_conflict : OpType

-- `SyncOperation`
pub record SyncOperation : Type 0 where
  pub type : OpType
  pub rel_path : Text
  pub local : Option FileMetadata
  pub remote : Option FileMetadata
  pub last_synced : Option FileMetadata

abbrev pub Batch : Type 0
Batch = Dict SyncOperation

-- A `map[SyncPath]struct{}`.
abbrev pub PathSet : Type 0
PathSet = Dict (Unit {0})

-- `ReconcileOperations`
pub record ReconcileOperations : Type 0 where
  pub local_writes : Batch
  pub remote_writes : Batch
  pub local_deletes : Batch
  pub remote_deletes : Batch
  pub conflicts : Batch
  pub unchanged_paths : PathSet
  pub cleanups : PathSet
  pub ignored : PathSet
  pub total : ℕ

-- `NewReconcileOperations`, whose total `reconcile` sets at once.
abbrev pub new_reconcile_operations : ℕ → ReconcileOperations
new_reconcile_operations total = record {
  local_writes = [];
  remote_writes = [];
  local_deletes = [];
  remote_deletes = [];
  conflicts = [];
  unchanged_paths = [];
  cleanups = [];
  ignored = [];
  total = total;
}

-- `HasChanges`
unfoldable pub has_changes : ReconcileOperations → Bool
has_changes r =
    ltb 0 (length r.local_writes)
    || ltb 0 (length r.remote_writes)
    || ltb 0 (length r.local_deletes)
    || ltb 0 (length r.remote_deletes)
    || ltb 0 (length r.conflicts)
    || ltb 0 (length r.cleanups)

abbrev pub max_retry_count : ℕ
max_retry_count = 3

-- `isSyncing`
unfoldable pub is_syncing : Text → SyncStatus → Bool
is_syncing path s = elim (get_status path s) [
  | none ↦ false
  | some st ↦ is_syncing_state st.sync_state
]

abbrev pub has_size_zero : Option FileMetadata → Bool
has_size_zero none = false
has_size_zero (some f) = f.size == 0

-- Where the body of the loop of `reconcile` puts a path.
pub data Verdict : Type 0 where
  ignore : Verdict
  clean_up : Verdict
  conflict : Verdict
  write_remote : Verdict
  write_local : Verdict
  delete_remote : Verdict
  delete_local : Verdict
  unchanged : Verdict

module _ (ignored : Text → Bool) (s : SyncStatus) where
  -- The first test of the loop.
  unfoldable pub is_skipped : Text → Option FileMetadata → Bool
  is_skipped path local =
      is_syncing path s
      || ignored path
      || has_size_zero local
      || leb max_retry_count (get_error_count path s)

  -- The tests of the loop in their order, of which the last ones look at the three states alone.
  unfoldable pub classify :
      Text → Option FileMetadata → Option FileMetadata → Option FileMetadata → Verdict
  classify path local remote journal =
      let local_exists = is_some local in
      let remote_exists = is_some remote in
      let journal_exists = is_some journal in
      let local_created = local_exists && not journal_exists && not remote_exists in
      let remote_created = not local_exists && not journal_exists && remote_exists in
      let local_deleted = not local_exists && journal_exists && remote_exists in
      let remote_deleted = local_exists && journal_exists && not remote_exists in
      let local_modified = local_exists && has_modified local journal in
      let remote_modified = remote_exists && has_modified journal remote in
      if is_skipped path local
      then ignore
      else if not local_exists && not remote_exists && journal_exists
      then clean_up
      else if (local_modified && remote_modified) || (local_created && remote_created)
      then conflict
      else if local_created || local_modified
      then write_remote
      else if remote_created || remote_modified
      then write_local
      else if local_deleted
      then delete_remote
      else if remote_deleted
      then delete_local
      else unchanged

-- The assignment that each branch makes.
unfoldable pub place :
    Verdict → Text → (OpType → SyncOperation) → ReconcileOperations → ReconcileOperations
place ignore p op r = record r { ignored = insert p tt r.ignored }
place clean_up p op r = record r { cleanups = insert p tt r.cleanups }
place conflict p op r = record r { conflicts = insert p (op op_conflict) r.conflicts }
place write_remote p op r = record r {
  remote_writes = insert p (op op_write_remote) r.remote_writes;
}
place write_local p op r = record r { local_writes = insert p (op op_write_local) r.local_writes }
place delete_remote p op r = record r {
  remote_deletes = insert p (op op_delete_remote) r.remote_deletes;
}
place delete_local p op r = record r {
  local_deletes = insert p (op op_delete_local) r.local_deletes;
}
place unchanged p op r = record r { unchanged_paths = insert p tt r.unchanged_paths }

-- The keys of a state, added to the set of paths.
unfoldable pub add_paths : Files → PathSet → PathSet
add_paths [] paths = paths
add_paths ((p, _) ∷ files) paths = add_paths files (insert p tt paths)

abbrev pub operation : Text → Files → Files → Files → OpType → SyncOperation
operation p local remote journal type = record {
  type = type;
  rel_path = p;
  local = lookup p local;
  remote = lookup p remote;
  last_synced = lookup p journal;
}

module _ (ignored : Text → Bool) (s : SyncStatus) (local remote journal : Files) where
  abbrev pub verdict : Text → Verdict
  verdict p = classify ignored s p (lookup p local) (lookup p remote) (lookup p journal)

  -- The loop over the paths, which Go visits in any order.
  unfoldable pub reconcile_paths : List Text → ReconcileOperations → ReconcileOperations
  reconcile_paths [] r = r
  reconcile_paths (p ∷ ps) r =
      reconcile_paths ps (place (verdict p) p (operation p local remote journal) r)

  -- `reconcile`
  unfoldable pub reconcile : ReconcileOperations
  reconcile =
      let paths = add_paths remote (add_paths local (add_paths journal [])) in
      reconcile_paths (keys paths) (new_reconcile_operations (length paths))

module _ (reread : ℕ → ℕ) where
  -- One round of the loop of `rebuildJournal`, whose errors are dropped.
  unfoldable pub record_agreed : Option FileMetadata → Option FileMetadata → Files → Files
  record_agreed (some l) (some r) journal =
      if text_eq l.etag r.etag
      then elim (journal_set reread (some l) journal) [ none ↦ journal | some j ↦ j ]
      else journal
  record_agreed _ _ journal = journal

module _ (reread : ℕ → ℕ) (local remote : Files) where
  unfoldable pub rebuild_paths : List Text → Files → Files
  rebuild_paths [] journal = journal
  rebuild_paths (p ∷ ps) journal =
      rebuild_paths ps (record_agreed reread (lookup p local) (lookup p remote) journal)

  -- `rebuildJournal`
  unfoldable pub rebuild_journal : Files → Files
  rebuild_journal journal = rebuild_paths (keys (add_paths remote (add_paths local []))) journal
