-- ===== src/Sync/Status/Kept.antt =====
-- internal/client/sync/sync_status.go: which statuses stay in the map after an operation.
use syftbox.Base.{
  ℕ, ◌≡◌, refl, Bool, true, not, ◌&&◌, Option, none, some, Text, Bool-cases, inl, inr,
}
use syftbox.Base.Dict.{
  Dict, lookup, erase, AllValues, OnSome, AllValues-insert, AllValues-erase-insert,
  AllValues-lookup, lookup-insert_self,
}
use syftbox.Sync.Status.{
  PathStatus, SyncStatus, change, get_or_create_status, existing_or_new, is_completed_state,
  is_unmarked, fresh_status, broadcast_event, as_syncing, as_progress, as_completed, as_failed,
  as_marked, conflicted, rejected, unmarked, set_syncing, set_progress, set_completed,
  set_completed_and_remove, set_error, set_conflicted, set_rejected, drop_unmarked,
}
use syftbox.Sync.Status.Slots.{Action, run}

-- A completed status carries a mark.
abbrev pub is_kept : PathStatus → Bool
is_kept st = not (is_completed_state st.sync_state && is_unmarked st.conflict_state)

abbrev pub Kept : PathStatus → Type 0
Kept st = is_kept st ≡ true

existing_or_new-Kept :
    (now : ℕ) (path : Text) (d : Dict PathStatus) (o : Option PathStatus)
    → AllValues Kept d
    → OnSome Kept o
    → Kept (existing_or_new now path d o).0 × AllValues Kept (existing_or_new now path d o).1
existing_or_new-Kept now path d (some st) all k = (k, all)
existing_or_new-Kept now path d none all _ =
    (refl, AllValues-insert Kept path (fresh_status now) d refl all)

get_or_create_status-Kept :
    (now : ℕ) (path : Text) (d : Dict PathStatus)
    → AllValues Kept d
    → Kept (get_or_create_status now path d).0 × AllValues Kept (get_or_create_status now path d).1
unfolding get_or_create_status
get_or_create_status-Kept now path d all =
    existing_or_new-Kept now path d (lookup path d) all (AllValues-lookup Kept path d all)

-- An assignment that keeps what is kept.
change-Kept :
    (f : PathStatus → PathStatus) (now : ℕ) (path : Text) (s : SyncStatus)
    → ((st : PathStatus) → Kept st → Kept (f st))
    → AllValues Kept s.files
    → AllValues Kept (change f now path s).files
unfolding change
change-Kept f now path s keeps all =
    let got = get_or_create_status-Kept now path s.files all in
    AllValues-insert Kept path _ _ (keeps _ got.0) got.1

-- What `SetCompleted` leaves unmarked it removes.
drop_unmarked-change-Kept :
    (now : ℕ) (path : Text) (s : SyncStatus)
    → AllValues Kept s.files
    → AllValues Kept (drop_unmarked path (change (as_completed now) now path s)).files
unfolding drop_unmarked change
drop_unmarked-change-Kept now path s all =
    let got = get_or_create_status now path s.files in
    let kept = get_or_create_status-Kept now path s.files all in
    elim (Bool-cases (is_unmarked got.0.conflict_state)) [
      | inl h ↦
          rw (lookup-insert_self path (as_completed now got.0) got.1, h)
            (AllValues-erase-insert Kept path _ got.1 kept.1)
      | inr h ↦
          rw (lookup-insert_self path (as_completed now got.0) got.1, h)
            (AllValues-insert Kept path (as_completed now got.0) got.1 (rw (h) refl) kept.1)
    ]

erase-change-Kept :
    (now : ℕ) (path : Text) (s : SyncStatus)
    → AllValues Kept s.files
    → AllValues Kept (erase path (change (as_marked unmarked now) now path s).files)
unfolding change
erase-change-Kept now path s all =
    AllValues-erase-insert Kept path _ _ (get_or_create_status-Kept now path s.files all).1

pub run-Kept :
    (a : Action) (now : ℕ) (path : Text) (s : SyncStatus)
    → AllValues Kept s.files
    → AllValues Kept (run a now path s).files
unfolding run set_syncing set_progress set_completed set_completed_and_remove set_error
    set_conflicted set_rejected broadcast_event
run-Kept Action.syncing now path s all = change-Kept (as_syncing now) now path s (λ _ _. refl) all
run-Kept (Action.progress p) now path s all =
    change-Kept (as_progress p now) now path s (λ _ k. k) all
run-Kept Action.completed now path s all = drop_unmarked-change-Kept now path s all
run-Kept Action.removed now path s all = erase-change-Kept now path s all
run-Kept (Action.failed err) now path s all =
    change-Kept (as_failed err now) now path s (λ _ _. refl) all
run-Kept Action.marked_conflicted now path s all =
    change-Kept (as_marked conflicted now) now path s (λ _ _. refl) all
run-Kept Action.marked_rejected now path s all =
    change-Kept (as_marked rejected now) now path s (λ _ _. refl) all
