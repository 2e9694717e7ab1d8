-- ===== src/Sync/Reconcile/Rebuild.antt =====
-- internal/client/sync/sync_engine.go, rebuildJournal: the journal afterwards, and `reconcile` with it.
use syftbox.Base.{
  ℕ, ◌≡◌, refl, Bool, true, false, ◌||◌, Option, none, some, Text, text_eq, text_eq_refl,
  text_eq_stand, arith, is_some, if◌then◌else◌, List, [], ◌∷◌, any, All, Bool-cases, inl, inr, ◌∙◌,
  eq_of_text_eq,
}
use syftbox.Base.Dict.{lookup, OnSome, keys, lookup-insert, any-keys}
use syftbox.FilePath.{is_empty}
use syftbox.Sync.Status.{SyncStatus}
use syftbox.Sync.Files.{FileMetadata, Files, journal_set, stored, differ, has_modified}
use syftbox.Sync.Reconcile.{
  unchanged, is_skipped, classify, add_paths, record_agreed, rebuild_paths, rebuild_journal,
}
use syftbox.Sync.Reconcile.Merge.{classify-merge, merge}
use syftbox.Sync.Reconcile.Placement.{is_some-lookup-add_paths}

-- A state whose files stand under their own paths.
abbrev pub IsKeyed : Files → Type 0
IsKeyed files = All (λ (p, f). f.path ≡ p) files

IsKeyed-lookup :
    (p : Text) (files : Files) → IsKeyed files → OnSome (λ f. f.path ≡ p) (lookup p files)
unfolding lookup
IsKeyed-lookup p [] keyed = tt
IsKeyed-lookup p ((q, f) ∷ files) (k, keyed) = elim (Bool-cases (text_eq q p)) [
  | inl h ↦ rw (h) (k ∙ eq_of_text_eq q p h)
  | inr h ↦ rw (h) (IsKeyed-lookup p files keyed)
]

module _ (reread : ℕ → ℕ) where
  -- What the journal gets of a file that both sides have: it is recorded if the ETags are equal.
  unfoldable pub agreed : Option FileMetadata → Option FileMetadata → Option FileMetadata
  agreed (some l) (some r) = if text_eq l.etag r.etag then some (stored reread l) else none
  agreed _ _ = none

  -- A recorded file takes the place of the old row.
  abbrev pub or_old : Option FileMetadata → Option FileMetadata → Option FileMetadata
  or_old (some f) old = some f
  or_old none old = old

  lookup-record_agreed :
      (l r : Option FileMetadata) (q p : Text) (journal : Files)
      → OnSome (λ f. f.path ≡ q) l
      → lookup p (record_agreed reread l r journal)
        ≡ (if text_eq q p then or_old (agreed l r) (lookup p journal) else lookup p journal)
  unfolding record_agreed agreed journal_set
  lookup-record_agreed none none q p journal keyed = ground arith
  lookup-record_agreed none (some r) q p journal keyed = ground arith
  lookup-record_agreed (some l) none q p journal keyed = ground arith
  lookup-record_agreed (some l) (some r) q p journal keyed =
      elim (Bool-cases (text_eq l.etag r.etag)) [
        | inl h ↦ rw (h, lookup-insert l.path p (stored reread l) journal, keyed) refl
        | inr h ↦ rw (h) (ground arith)
      ]

  visited :
      (a x : Option FileMetadata) (b c : Bool)
      → let y = if b then or_old a x else x in
        (if c then or_old a y else y) ≡ (if b || c then or_old a x else x)
  visited none x true true = refl
  visited (some f) x true true = refl
  visited a x true false = refl
  visited a x false true = refl
  visited a x false false = refl

  covered :
      (l r : Option FileMetadata) (x : Option FileMetadata)
      → (if is_some r || (is_some l || false) then or_old (agreed l r) x else x)
        ≡ or_old (agreed l r) x
  unfolding agreed
  covered none none x = refl
  covered (some l) none x = refl
  covered none (some r) x = refl
  covered (some l) (some r) x = refl

  module _ (local remote : Files) (keyed : IsKeyed local) where
    abbrev agreed_at : Text → Option FileMetadata
    agreed_at p = agreed (lookup p local) (lookup p remote)

    lookup-rebuild_paths :
        (p : Text) (ps : List Text) (journal : Files)
        → lookup p (rebuild_paths reread local remote ps journal) ≡ (
            if any (λ q. text_eq q p) ps
            then or_old (agreed_at p) (lookup p journal)
            else lookup p journal)
    unfolding rebuild_paths
    lookup-rebuild_paths p [] journal = refl
    lookup-rebuild_paths p (q ∷ ps) journal =
        let next = record_agreed reread (lookup q local) (lookup q remote) journal in
        let here =
          lookup-record_agreed (lookup q local) (lookup q remote) q p journal
            (IsKeyed-lookup q local keyed)
          ∙ text_eq_stand q p (λ k. or_old (agreed_at k) (lookup p journal)) (lookup p journal) in
        rw (lookup-rebuild_paths p ps next, here)
          (visited (agreed_at p) (lookup p journal) (text_eq q p) (any (λ x. text_eq x p) ps))

    -- The row of a path after `rebuildJournal`: the local file with its time as stored, if both
    -- sides have the path with the same ETag; otherwise the row that was there.
    pub lookup-rebuild_journal :
        (p : Text) (journal : Files)
        → lookup p (rebuild_journal reread local remote journal)
          ≡ or_old (agreed (lookup p local) (lookup p remote)) (lookup p journal)
    unfolding rebuild_journal lookup
    lookup-rebuild_journal p journal =
        let paths = add_paths remote (add_paths local []) in
        rw
          (
            lookup-rebuild_paths p (keys paths) journal,
            any-keys p paths,
            is_some-lookup-add_paths p remote (add_paths local []),
            is_some-lookup-add_paths p local [],
          )
          (covered (lookup p local) (lookup p remote) (lookup p journal))

  -- A file does not differ from itself as stored.
  differ-stored : (f : FileMetadata) → is_empty f.etag ≡ false → differ f (stored reread f) ≡ false
  unfolding differ
  differ-stored f h = rw (text_eq_refl f.version, text_eq_refl f.etag, h) (ground arith)

  -- The server's view has no versions, so the ETags decide.
  differ-stored_remote :
      (l r : FileMetadata)
      → is_empty l.etag ≡ false
      → text_eq l.etag r.etag ≡ true
      → is_empty r.version ≡ true
      → differ (stored reread l) r ≡ false
  unfolding differ
  differ-stored_remote l r h e v = rw (v, e, ← eq_of_text_eq l.etag r.etag e, h) (ground arith)

  -- Once the journal is rebuilt, a path that both sides have with the same ETag, which is not
  -- empty, is left alone, if it is not skipped and the server gives no version, as
  -- `getRemoteState` has it, and the local files stand under their own paths.
  pub classify-rebuild_journal :
      (ignored : Text → Bool) (s : SyncStatus) (local remote journal : Files) (p : Text)
      (l r : FileMetadata)
      → IsKeyed local
      → lookup p local ≡ some l
      → lookup p remote ≡ some r
      → text_eq l.etag r.etag ≡ true
      → is_empty l.etag ≡ false
      → is_empty r.version ≡ true
      → is_skipped ignored s p (some l) ≡ false
      → classify ignored s p
          (lookup p local)
          (lookup p remote)
          (lookup p (rebuild_journal reread local remote journal))
        ≡ unchanged
  unfolding agreed has_modified merge
  classify-rebuild_journal ignored s local remote journal p l r keyed hl hr e h v skip =
      rw
        (
          lookup-rebuild_journal local remote keyed p journal,
          hl,
          hr,
          e,
          classify-merge ignored s p (some l) (some r) (some (stored reread l)) skip,
          differ-stored l h,
          differ-stored_remote l r h e v,
        )
        refl
