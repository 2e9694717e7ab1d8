-- ===== src/Sync/Reconcile/Placement.antt =====
-- internal/client/sync/sync_engine.go, reconcile: the maps of its result.
use mathlib.Core.Option
use syftbox.Base.{
  ℕ, ◌≡◌, refl, Bool, ◌&&◌, ◌||◌, Option, none, some, Text, text_eq, text_eq_stand, arith, is_some,
  ◌==◌, if◌then◌else◌, List, [], ◌∷◌, any, length, Bool-cases, inl, inr,
}
use syftbox.Base.Dict.{Dict, lookup, insert, keys, lookup-insert, any-keys}
use syftbox.Sync.Status.{SyncStatus}
use syftbox.Sync.Files.{Files}
use syftbox.Sync.Reconcile.{
  OpType, SyncOperation, op_write_remote, op_write_local, op_delete_remote, op_delete_local,
  op_conflict, PathSet, ReconcileOperations, new_reconcile_operations, Verdict, ignore, clean_up,
  conflict, write_remote, write_local, delete_remote, delete_local, unchanged, place, add_paths,
  operation, verdict, reconcile_paths, reconcile,
}

abbrev of_set : Option (Unit {0}) → Option (Option SyncOperation)
of_set o = Option.map (λ _. none) o

abbrev of_batch : Option SyncOperation → Option (Option SyncOperation)
of_batch o = Option.map some o

-- What the map that belongs to a verdict holds under a path. A set of paths holds no operation.
unfoldable pub entry : Verdict → Text → ReconcileOperations → Option (Option SyncOperation)
entry ignore p r = of_set (lookup p r.ignored)
entry clean_up p r = of_set (lookup p r.cleanups)
entry conflict p r = of_batch (lookup p r.conflicts)
entry write_remote p r = of_batch (lookup p r.remote_writes)
entry write_local p r = of_batch (lookup p r.local_writes)
entry delete_remote p r = of_batch (lookup p r.remote_deletes)
entry delete_local p r = of_batch (lookup p r.local_deletes)
entry unchanged p r = of_set (lookup p r.unchanged_paths)

-- The entry that a path gets in the map of a verdict.
abbrev pub placed : Verdict → (OpType → SyncOperation) → Option SyncOperation
placed conflict op = some (op op_conflict)
placed write_remote op = some (op op_write_remote)
placed write_local op = some (op op_write_local)
placed delete_remote op = some (op op_delete_remote)
placed delete_local op = some (op op_delete_local)
placed _ op = none

abbrev index : Verdict → ℕ
index ignore = 0
index clean_up = 1
index conflict = 2
index write_remote = 3
index write_local = 4
index delete_remote = 5
index delete_local = 6
index unchanged = 7

abbrev pub verdict_eq : Verdict → Verdict → Bool
verdict_eq v w = index v == index w

map-lookup-insert {ℓ κ} :
    {V : Type ℓ} {W : Type κ} (f : V → W) (p q : Text) (v : V) (d : Dict V)
    → Option.map f (lookup p (insert q v d))
      ≡ (if text_eq q p then some (f v) else Option.map f (lookup p d))
map-lookup-insert f p q v d =
    rw (lookup-insert q p v d)
      (elim (Bool-cases (text_eq q p)) [ inl h ↦ rw (h) refl | inr h ↦ rw (h) refl ])

entry-place :
    (v w : Verdict) (p q : Text) (op : OpType → SyncOperation) (r : ReconcileOperations)
    → entry v p (place w q op r)
      ≡ (if verdict_eq v w && text_eq q p then some (placed w op) else entry v p r)
unfolding entry place
entry-place ignore ignore p q op r = map-lookup-insert (λ _. none) p q tt r.ignored
entry-place clean_up clean_up p q op r = map-lookup-insert (λ _. none) p q tt r.cleanups
entry-place conflict conflict p q op r = map-lookup-insert some p q (op op_conflict) r.conflicts
entry-place write_remote write_remote p q op r =
    map-lookup-insert some p q (op op_write_remote) r.remote_writes
entry-place write_local write_local p q op r =
    map-lookup-insert some p q (op op_write_local) r.local_writes
entry-place delete_remote delete_remote p q op r =
    map-lookup-insert some p q (op op_delete_remote) r.remote_deletes
entry-place delete_local delete_local p q op r =
    map-lookup-insert some p q (op op_delete_local) r.local_deletes
entry-place unchanged unchanged p q op r = map-lookup-insert (λ _. none) p q tt r.unchanged_paths
entry-place _ _ p q op r = refl

pub is_some-lookup-add_paths :
    (p : Text) (files : Files) (paths : PathSet)
    → is_some (lookup p (add_paths files paths))
      ≡ (is_some (lookup p files) || is_some (lookup p paths))
unfolding add_paths lookup
is_some-lookup-add_paths p [] paths = refl
is_some-lookup-add_paths p ((q, f) ∷ files) paths =
    ground (arith, is_some-lookup-add_paths p files (insert q tt paths), lookup-insert q p tt paths)

abbrev all_paths : Files → Files → Files → PathSet
all_paths local remote journal = add_paths remote (add_paths local (add_paths journal []))

-- A path of one of the three states.
abbrev pub is_known : Text → Files → Files → Files → Bool
is_known p local remote journal =
    is_some (lookup p remote) || is_some (lookup p local) || is_some (lookup p journal)

is_known_lem :
    (p : Text) (local remote journal : Files)
    → any (λ q. text_eq q p) (keys (all_paths local remote journal))
      ≡ is_known p local remote journal
unfolding lookup
is_known_lem p local remote journal =
    rw
      (
        any-keys p (all_paths local remote journal),
        is_some-lookup-add_paths p remote (add_paths local (add_paths journal [])),
        is_some-lookup-add_paths p local (add_paths journal []),
        is_some-lookup-add_paths p journal [],
      )
      (ground arith)

entry-new_reconcile_operations :
    (v : Verdict) (p : Text) (n : ℕ) → entry v p (new_reconcile_operations n) ≡ none
unfolding entry lookup
entry-new_reconcile_operations v p n =
    elim v as (λ w. entry w p (new_reconcile_operations n) ≡ none) [ ignore ↦ refl | _ ↦ refl ]

module _ (ignored : Text → Bool) (s : SyncStatus) (local remote journal : Files) where
  abbrev verdict_of : Text → Verdict
  verdict_of = verdict ignored s local remote journal

  abbrev pub is_member : Text → List Text → Bool
  is_member p ps = any (λ q. text_eq q p) ps

  entry-reconcile_paths :
      (v : Verdict) (p : Text) (ps : List Text) (r : ReconcileOperations)
      → entry v p (reconcile_paths ignored s local remote journal ps r) ≡ (
          if verdict_eq v (verdict_of p) && is_member p ps
          then some (placed (verdict_of p) (operation p local remote journal))
          else entry v p r)
  unfolding reconcile_paths
  entry-reconcile_paths v p [] r = ground arith
  entry-reconcile_paths v p (q ∷ ps) r = ground (
    arith,
    entry-reconcile_paths v p ps (place (verdict_of q) q (operation q local remote journal) r),
    entry-place v (verdict_of q) p q (operation q local remote journal) r,
    text_eq_stand q p
        (λ k.
          if verdict_eq v (verdict_of k)
          then some (placed (verdict_of k) (operation k local remote journal))
          else entry v p r)
        (entry v p r),
  )

  -- A path has an entry in the map of a verdict exactly if it is in one of the three states and the
  -- verdict is the one of its own states; the entry is the operation on its three states.
  pub entry-reconcile :
      (v : Verdict) (p : Text)
      → entry v p (reconcile ignored s local remote journal) ≡ (
          if verdict_eq v (verdict ignored s local remote journal p)
            && is_known p local remote journal
          then some
              (placed (verdict ignored s local remote journal p) (operation p local remote journal))
          else none)
  unfolding reconcile
  entry-reconcile v p =
      let paths = all_paths local remote journal in
      rw
        (
          entry-reconcile_paths v p (keys paths) (new_reconcile_operations (length paths)),
          is_known_lem p local remote journal,
          entry-new_reconcile_operations v p (length paths),
        )
        refl
