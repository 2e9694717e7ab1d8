-- ===== src/Sync/Status/Slots.antt =====
-- internal/client/sync/sync_status.go: each operation as a function on what is tracked of its path.
use syftbox.Base.{
  ℕ, ◌≡◌, refl, ◌+◌, ap, ◌∙◌, Bool, true, false, Option, none, some, Text, text_eq, if◌then◌else◌,
  arith, text_eq_iff, text_eq_refl,
}
use syftbox.Base.Dict.{Dict, lookup, insert, lookup-insert, lookup-erase}
use syftbox.Sync.Status.{
  SyncState, pending, ConflictState, PathStatus, SyncStatus, unmarked, conflicted, rejected, change,
  get_or_create_status, broadcast_event, as_syncing, as_progress, as_completed, as_failed,
  as_marked, fresh_status, set_syncing, set_progress, set_completed, set_completed_and_remove,
  set_error, set_conflicted, set_rejected, drop_unmarked, is_unmarked, existing_or_new,
}

-- The operations that change a path's status.
pub data Action : Type 0 where
  syncing : Action
  progress : ℕ → Action
  completed : Action
  removed : Action  -- SetCompletedAndRemove
  failed : Text → Action
  marked_conflicted : Action
  marked_rejected : Action

-- The code of an action on a path at a time.
unfoldable pub run : Action → ℕ → Text → SyncStatus → SyncStatus
run syncing = set_syncing
run (progress p) = set_progress p
run completed = set_completed
run removed = set_completed_and_remove
run (failed err) = set_error err
run marked_conflicted = set_conflicted
run marked_rejected = set_rejected

-- The status that an absent or tracked path starts an operation with.
abbrev or_fresh : ℕ → Option PathStatus → PathStatus
or_fresh now none = fresh_status now
or_fresh now (some st) = st

abbrev if_marked : PathStatus → Option PathStatus
if_marked st = if is_unmarked st.conflict_state then none else some st

-- What a slot says of its path, where `none` is an untracked path: pending, with no mark, no
-- progress, no error, and no errors counted.
abbrev pub state_in : Option PathStatus → SyncState
state_in none = pending
state_in (some st) = st.sync_state

abbrev pub mark_in : Option PathStatus → ConflictState
mark_in none = unmarked
mark_in (some st) = st.conflict_state

abbrev pub progress_in : Option PathStatus → ℕ
progress_in none = 0
progress_in (some st) = st.progress

abbrev pub error_in : Option PathStatus → Option Text
error_in none = none
error_in (some st) = st.error

abbrev pub errors_in : Option PathStatus → ℕ
errors_in none = 0
errors_in (some st) = st.error_count

-- The status of a path that is done, at 100 percent and without an error.
abbrev pub done_with : ConflictState → ℕ → ℕ → PathStatus
done_with mark errors now = record {
  sync_state = SyncState.completed;
  conflict_state = mark;
  progress = 0x4059000000000000;
  error = none;
  error_count = errors;
  last_updated = now;
}

-- What an action must make of the slot of its path. Work begins at no progress and clears the error
-- and not the count of errors; progress touches nothing else; work that ends is forgotten, unless the
-- path has a mark; an error is counted and the progress stays; a mark ends the work and stays.
unfoldable pub slot_after : Action → ℕ → Option PathStatus → Option PathStatus
slot_after syncing now o = some (record {
  sync_state = SyncState.syncing;
  conflict_state = mark_in o;
  progress = 0;
  error = none;
  error_count = errors_in o;
  last_updated = now;
})
slot_after (progress p) now o = some (record {
  sync_state = state_in o;
  conflict_state = mark_in o;
  progress = p;
  error = error_in o;
  error_count = errors_in o;
  last_updated = now;
})
slot_after completed now o = elim (mark_in o) [
  | unmarked ↦ none
  | conflicted ↦ some (done_with conflicted (errors_in o) now)
  | rejected ↦ some (done_with rejected (errors_in o) now)
]
slot_after removed now o = none
slot_after (failed err) now o = some (record {
  sync_state = SyncState.error;
  conflict_state = mark_in o;
  progress = progress_in o;
  error = some err;
  error_count = errors_in o + 1;
  last_updated = now;
})
slot_after marked_conflicted now o = some (done_with conflicted (errors_in o) now)
slot_after marked_rejected now o = some (done_with rejected (errors_in o) now)

-- A test under the other branch of itself.
if_if {ℓ} :
    {A : Type ℓ}
    → (b : Bool) (x y z : A) → (if b then x else (if b then y else z)) ≡ (if b then x else z)
if_if true x y z = refl
if_if false x y z = refl

-- The slots after a change, by what the read of the map gave.
lookup-existing_or_new :
    (f : PathStatus → PathStatus) (now : ℕ) (path j : Text) (d : Dict PathStatus)
    (o : Option PathStatus)
    → lookup j (insert path (f (existing_or_new now path d o).0) (existing_or_new now path d o).1)
      ≡ (if text_eq path j then some (f (or_fresh now o)) else lookup j d)
lookup-existing_or_new f now path j d (some st) = lookup-insert path j _ d
lookup-existing_or_new f now path j d none =
    rw (lookup-insert path j _ (insert path (fresh_status now) d), lookup-insert path j _ d)
      (if_if (text_eq path j) _ _ _)

-- The slots after the assignments of an operation.
lookup-change :
    (f : PathStatus → PathStatus) (now : ℕ) (path j : Text) (s : SyncStatus)
    → lookup j (change f now path s).files
      ≡ (if text_eq path j then some (f (or_fresh now (lookup path s.files))) else lookup j s.files)
unfolding change get_or_create_status
lookup-change f now path j s = lookup-existing_or_new f now path j s.files (lookup path s.files)

abbrev settled : Option PathStatus → Option PathStatus
settled none = none
settled (some st) = if_marked st

lookup-drop_unmarked :
    (path j : Text) (s : SyncStatus)
    → lookup j (drop_unmarked path s).files
      ≡ (if text_eq path j then settled (lookup path s.files) else lookup j s.files)
unfolding drop_unmarked
lookup-drop_unmarked path j s = ground (arith, lookup-erase path j s.files, text_eq_iff path j)

-- What the assignments of each operation make of a slot.
unfoldable code_after : Action → ℕ → Option PathStatus → Option PathStatus
code_after syncing now o = some (as_syncing now (or_fresh now o))
code_after (progress p) now o = some (as_progress p now (or_fresh now o))
code_after completed now o = if_marked (as_completed now (or_fresh now o))
code_after removed now o = none
code_after (failed err) now o = some (as_failed err now (or_fresh now o))
code_after marked_conflicted now o = some (as_marked conflicted now (or_fresh now o))
code_after marked_rejected now o = some (as_marked rejected now (or_fresh now o))

if_marked-mark :
    (st : PathStatus)
    → if_marked st ≡ (elim st.conflict_state [
      | unmarked ↦ none
      | conflicted ↦ some (record st { conflict_state = conflicted })
      | rejected ↦ some (record st { conflict_state = rejected })
    ])
if_marked-mark st =
    elim st.conflict_state
      as (λ m. if_marked (record st { conflict_state = m }) ≡ (elim m [
        | unmarked ↦ none
        | conflicted ↦ some (record st { conflict_state = conflicted })
        | rejected ↦ some (record st { conflict_state = rejected })
      ])) [ unmarked ↦ refl | conflicted ↦ refl | rejected ↦ refl ]

code_after-slot_after :
    (a : Action) (now : ℕ) (o : Option PathStatus) → code_after a now o ≡ slot_after a now o
unfolding code_after slot_after
code_after-slot_after syncing now none = refl
code_after-slot_after (progress p) now none = refl
code_after-slot_after completed now none = refl
code_after-slot_after removed now none = refl
code_after-slot_after (failed err) now none = refl
code_after-slot_after marked_conflicted now none = refl
code_after-slot_after marked_rejected now none = refl
code_after-slot_after syncing now (some st) = refl
code_after-slot_after (progress p) now (some st) = refl
code_after-slot_after completed now (some st) = if_marked-mark (as_completed now st)
code_after-slot_after removed now (some st) = refl
code_after-slot_after (failed err) now (some st) = refl
code_after-slot_after marked_conflicted now (some st) = refl
code_after-slot_after marked_rejected now (some st) = refl

run-code_after :
    (a : Action) (now : ℕ) (path j : Text) (s : SyncStatus)
    → lookup j (run a now path s).files
      ≡ (if text_eq path j then code_after a now (lookup path s.files) else lookup j s.files)
unfolding run code_after set_syncing set_progress set_completed set_completed_and_remove set_error
    set_conflicted set_rejected broadcast_event
run-code_after syncing now path j s = lookup-change (as_syncing now) now path j s
run-code_after (progress p) now path j s = lookup-change (as_progress p now) now path j s
run-code_after completed now path j s =
    let changed = change (as_completed now) now path s in
    rw
      (
        lookup-drop_unmarked path j changed,
        lookup-change (as_completed now) now path path s,
        lookup-change (as_completed now) now path j s,
        text_eq_refl path,
      )
      (if_if (text_eq path j) _ _ _)
run-code_after removed now path j s =
    let changed = change (as_marked unmarked now) now path s in
    rw (lookup-erase path j changed.files, lookup-change (as_marked unmarked now) now path j s)
      (if_if (text_eq path j) _ _ _)
run-code_after (failed err) now path j s = lookup-change (as_failed err now) now path j s
run-code_after marked_conflicted now path j s =
    lookup-change (as_marked conflicted now) now path j s
run-code_after marked_rejected now path j s = lookup-change (as_marked rejected now) now path j s

-- An action changes the slot of its path as `slot_after` says, and no other.
pub run-slot_after :
    (a : Action) (now : ℕ) (path j : Text) (s : SyncStatus)
    → lookup j (run a now path s).files
      ≡ (if text_eq path j then slot_after a now (lookup path s.files) else lookup j s.files)
run-slot_after a now path j s =
    run-code_after a now path j s
    ∙ ap (λ x. if text_eq path j then x else lookup j s.files)
        (code_after-slot_after a now (lookup path s.files))
