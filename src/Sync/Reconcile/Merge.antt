-- ===== src/Sync/Reconcile/Merge.antt =====
-- internal/client/sync/sync_engine.go, reconcile: the decision on a path and the table of a three-way
-- merge.
use syftbox.Base.{
  ◌≡◌, refl, Bool, false, Option, none, some, Text, is_some, if◌then◌else◌, Bool-cases, inl, inr,
}
use syftbox.Sync.Status.{SyncStatus}
use syftbox.Sync.Files.{FileMetadata, has_modified, differ}
use syftbox.Sync.Reconcile.{
  Verdict, clean_up, conflict, write_remote, write_local, delete_remote, delete_local, unchanged,
  is_skipped, classify,
}

-- What became of the journal's file on one side.
pub data Side : Type 0 where
  missing : Side
  same : Side
  changed : Side

abbrev pub side : Option FileMetadata → Bool → Side
side none differs = missing
side (some _) differs = if differs then changed else same

-- The table of the merge; the Boolean tells whether the journal knows the path.
unfoldable pub merge : Side → Side → Bool → Verdict
merge missing missing known = if known then clean_up else unchanged
merge missing same known = delete_remote
merge missing changed known = write_local
merge same missing known = delete_local
merge same same known = unchanged
merge same changed known = write_local
merge changed missing known = write_remote
merge changed same known = write_remote
merge changed changed known = conflict

-- A path that is not skipped is decided by the table of the three-way merge.
pub classify-merge :
    (ignored : Text → Bool) (s : SyncStatus) (p : Text) (local remote journal : Option FileMetadata)
    → is_skipped ignored s p local ≡ false
    → classify ignored s p local remote journal
      ≡ merge
          (side local (has_modified local journal))
          (side remote (has_modified journal remote))
          (is_some journal)
unfolding classify merge has_modified
classify-merge ignored s p none none none h = rw (h) refl
classify-merge ignored s p none none (some j) h = rw (h) refl
classify-merge ignored s p none (some r) none h = rw (h) refl
classify-merge ignored s p none (some r) (some j) h = elim (Bool-cases (differ j r)) [
  | inl e ↦ rw (h, e) refl
  | inr e ↦ rw (h, e) refl
]
classify-merge ignored s p (some l) none none h = rw (h) refl
classify-merge ignored s p (some l) none (some j) h = elim (Bool-cases (differ l j)) [
  | inl e ↦ rw (h, e) refl
  | inr e ↦ rw (h, e) refl
]
classify-merge ignored s p (some l) (some r) none h = rw (h) refl
classify-merge ignored s p (some l) (some r) (some j) h = elim (Bool-cases (differ l j)) [
  | inl e ↦ elim (Bool-cases (differ j r)) [ inl f ↦ rw (h, e, f) refl | inr f ↦ rw (h, e, f) refl ]
  | inr e ↦ elim (Bool-cases (differ j r)) [ inl f ↦ rw (h, e, f) refl | inr f ↦ rw (h, e, f) refl ]
]
