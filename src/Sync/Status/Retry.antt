-- ===== src/Sync/Status/Retry.antt =====
-- internal/client/sync/sync_status.go: the error count and the mark of a path over a sequence of
-- operations.
use syftbox.Base.{
  ℕ, ◌+◌, ◌≡◌, refl, Bool, true, false, not, ◌&&◌, List, [], ◌∷◌, Option, none, some, Text, text_eq,
  text_eq_stand, any, if◌then◌else◌, arith, ◌∙◌, ap, Bool-cases, inl, inr,
}
use syftbox.Base.Dict.{lookup, filter_all}
use syftbox.Sync.Status.{
  PathStatus, SyncStatus, is_unmarked, is_stale, cleanup, close, subscribe, unsubscribe,
  get_error_count,
}
use syftbox.Sync.Status.Slots.{Action, slot_after, run-slot_after}
use syftbox.Sync.Status.Reachable.{
  Event, acted, subscribed, unsubscribed, taken, cleaned, closed, step, steps, IsTidy, step-IsTidy,
  IsTidy-not_stale,
}

-- What an operation makes of the slot of a path.
unfoldable pub slot_step : Text → Event → Option PathStatus → Option PathStatus
unfolding slot_after
slot_step p (acted a now q) o = if text_eq q p then slot_after a now o else o
slot_step p closed o = none
slot_step p _ o = o

slot_step-step :
    (p : Text) (e : Event) (s : SyncStatus)
    → IsTidy s
    → lookup p (step e s).files ≡ slot_step p e (lookup p s.files)
unfolding step slot_step subscribe unsubscribe cleanup close lookup
slot_step-step p (acted a now q) s t =
    run-slot_after a now q p s
    ∙ text_eq_stand q p (λ k. slot_after a now (lookup k s.files)) (lookup p s.files)
slot_step-step p subscribed s t = refl
slot_step-step p (unsubscribed id) s t = refl
slot_step-step p (taken id) s t = refl
slot_step-step p (cleaned max_age now) s t =
    ap (lookup p)
      (filter_all (λ st. not (is_stale max_age now st)) s.files (IsTidy-not_stale max_age now s t))
slot_step-step p closed s t = refl

abbrev releases : Action → Bool
releases Action.completed = true
releases Action.removed = true
releases _ = false

abbrev fails : Action → Bool
fails (Action.failed err) = true
fails _ = false

-- The operations after which a path may not be tracked: a completion, a removal and `Close`.
abbrev pub is_release : Text → Event → Bool
is_release p (acted a now q) = text_eq q p && releases a
is_release p closed = true
is_release p _ = false

-- An error of the path.
abbrev pub is_failure : Text → Event → Bool
is_failure p (acted a now q) = text_eq q p && fails a
is_failure p _ = false

-- How many of the operations are errors of the path.
abbrev pub failures : Text → List Event → ℕ
failures p [] = 0
failures p (e ∷ es) = if is_failure p e then failures p es + 1 else failures p es

abbrev errors_of : Option PathStatus → ℕ
errors_of none = 0
errors_of (some st) = st.error_count

errors_of-slot_after :
    (a : Action) (now : ℕ) (o : Option PathStatus)
    → releases a ≡ false
    → errors_of (slot_after a now o) ≡ (if fails a then errors_of o + 1 else errors_of o)
unfolding slot_after
errors_of-slot_after Action.syncing now none h = refl
errors_of-slot_after Action.syncing now (some st) h = refl
errors_of-slot_after (Action.progress n) now none h = refl
errors_of-slot_after (Action.progress n) now (some st) h = refl
errors_of-slot_after Action.completed now o h = ground arith
errors_of-slot_after Action.removed now o h = ground arith
errors_of-slot_after (Action.failed err) now none h = refl
errors_of-slot_after (Action.failed err) now (some st) h = refl
errors_of-slot_after Action.marked_conflicted now none h = refl
errors_of-slot_after Action.marked_conflicted now (some st) h = refl
errors_of-slot_after Action.marked_rejected now none h = refl
errors_of-slot_after Action.marked_rejected now (some st) h = refl

errors_of-slot_step :
    (p : Text) (e : Event) (o : Option PathStatus)
    → is_release p e ≡ false
    → errors_of (slot_step p e o) ≡ (if is_failure p e then errors_of o + 1 else errors_of o)
unfolding slot_step
errors_of-slot_step p (acted a now q) o h = elim (Bool-cases (text_eq q p)) [
  | inl e ↦ rw (e) (errors_of-slot_after a now o (rw (e) at h))
  | inr e ↦ rw (e) refl
]
errors_of-slot_step p subscribed o h = refl
errors_of-slot_step p (unsubscribed id) o h = refl
errors_of-slot_step p (taken id) o h = refl
errors_of-slot_step p (cleaned max_age now) o h = refl
errors_of-slot_step p closed o h = ground arith

get_error_count_slot :
    (p : Text) (s : SyncStatus) → get_error_count p s ≡ errors_of (lookup p s.files)
unfolding get_error_count
get_error_count_slot p s =
    elim (lookup p s.files) as (λ o. elim o [ some st ↦ st.error_count | none ↦ 0 ] ≡ errors_of o) [
      | none ↦ refl
      | some st ↦ refl
    ]

get_error_count-step :
    (p : Text) (e : Event) (s : SyncStatus)
    → IsTidy s
    → is_release p e ≡ false
    → get_error_count p (step e s)
      ≡ (if is_failure p e then get_error_count p s + 1 else get_error_count p s)
get_error_count-step p e s t h =
    rw (get_error_count_slot p (step e s), get_error_count_slot p s, slot_step-step p e s t)
      (errors_of-slot_step p e (lookup p s.files) h)

-- From a tidy status, over operations among which no completion or removal of the path and no
-- `Close` is, the error count of the path grows by the number of its errors.
pub get_error_count-steps :
    (p : Text) (es : List Event) (s : SyncStatus)
    → IsTidy s
    → any (is_release p) es ≡ false
    → get_error_count p (steps es s) ≡ get_error_count p s + failures p es
unfolding steps
get_error_count-steps p [] s t h = omega arith
get_error_count-steps p (e ∷ es) s t h =
    ground (
      arith,
      get_error_count-step p e s t,
      get_error_count-steps p es (step e s) (step-IsTidy e s t),
    )

abbrev pub has_mark : Option PathStatus → Bool
has_mark none = false
has_mark (some st) = not (is_unmarked st.conflict_state)

-- What takes a mark away: a removal of the path and `Close`.
abbrev pub is_removal : Text → Event → Bool
is_removal p (acted Action.removed now q) = text_eq q p
is_removal p closed = true
is_removal p _ = false

has_mark-slot_after :
    (p q : Text) (a : Action) (now : ℕ) (st : PathStatus)
    → is_removal p (acted a now q) ≡ false
    → text_eq q p ≡ true
    → has_mark (some st) ≡ true
    → has_mark (slot_after a now (some st)) ≡ true
unfolding slot_after
has_mark-slot_after p q Action.syncing now st h e m = m
has_mark-slot_after p q (Action.progress n) now st h e m = m
has_mark-slot_after p q Action.completed now st h e m = ground arith
has_mark-slot_after p q Action.removed now st h e m = ground arith
has_mark-slot_after p q (Action.failed err) now st h e m = m
has_mark-slot_after p q Action.marked_conflicted now st h e m = refl
has_mark-slot_after p q Action.marked_rejected now st h e m = refl

has_mark-slot_step :
    (p : Text) (e : Event) (o : Option PathStatus)
    → is_removal p e ≡ false
    → has_mark o ≡ true
    → has_mark (slot_step p e o) ≡ true
unfolding slot_step
has_mark-slot_step p e none h m = ground arith
has_mark-slot_step p (acted a now q) (some st) h m = elim (Bool-cases (text_eq q p)) [
  | inl e ↦ rw (e) (has_mark-slot_after p q a now st h e m)
  | inr e ↦ rw (e) m
]
has_mark-slot_step p subscribed (some st) h m = m
has_mark-slot_step p (unsubscribed id) (some st) h m = m
has_mark-slot_step p (taken id) (some st) h m = m
has_mark-slot_step p (cleaned max_age now) (some st) h m = m
has_mark-slot_step p closed (some st) h m = ground arith

-- From a tidy status in which a path carries a conflict or reject mark, the path carries a mark
-- after all operations among which no `SetCompletedAndRemove` of the path and no `Close` is.
pub has_mark-steps :
    (p : Text) (es : List Event) (s : SyncStatus)
    → IsTidy s
    → any (is_removal p) es ≡ false
    → has_mark (lookup p s.files) ≡ true
    → has_mark (lookup p (steps es s).files) ≡ true
unfolding steps
has_mark-steps p [] s t h m = m
has_mark-steps p (e ∷ es) s t h m =
    has_mark-steps p es (step e s) (step-IsTidy e s t) (ground arith)
      (rw (slot_step-step p e s t) (has_mark-slot_step p e (lookup p s.files) (ground arith) m))
