-- ===== src/Sync/Status/Reachable.antt =====
-- internal/client/sync/sync_status.go: sequences of operations.
use syftbox.Base.{
  ℕ, ◌≤◌, ◌≡◌, refl, true, false, not, List, [], ◌∷◌, Text, if◌then◌else◌, arith, All, All-imp,
  All-map, All-append, length, length-append, ap, ◌==◌,
}
use mathlib.Core.List.{map}
use syftbox.Base.Dict.{lookup, erase, AllValues, AllValues-filter, filter_all}
use syftbox.Sync.Status.{
  PathStatus, SyncStatus, Channel, change, has_no_mark, is_stale, new_sync_status, subscribe,
  unsubscribe, drop_channel, offer, broadcast_event, set_syncing, set_progress, set_completed,
  set_completed_and_remove, set_error, set_conflicted, set_rejected, drop_unmarked, cleanup, close,
  sync_event_buffer_size,
}
use syftbox.Sync.Status.Slots.{Action, run}
use syftbox.Sync.Status.Kept.{Kept, run-Kept}

-- One operation of a client of the status; `taken` is a subscriber that reads its channel.
pub data Event : Type 0 where
  acted : Action → ℕ → Text → Event
  subscribed : Event
  unsubscribed : ℕ → Event
  taken : ℕ → Event
  cleaned : ℕ → ℕ → Event
  closed : Event

-- The head of the queue of the channel with an identity is read.
abbrev after_first : List Text → List Text
after_first [] = []
after_first (_ ∷ q) = q

abbrev pub take_from : ℕ → Channel → Channel
take_from id ch = if ch.id == id then record ch { queue = after_first ch.queue } else ch

unfoldable pub step : Event → SyncStatus → SyncStatus
unfolding run
step (acted a now path) s = run a now path s
step subscribed s = (subscribe s).1
step (unsubscribed id) s = unsubscribe id s
step (taken id) s = record s { event_subs = map (take_from id) s.event_subs }
step (cleaned max_age now) s = cleanup max_age now s
step closed s = close s

-- The status after a sequence of operations, the first one first.
unfoldable pub steps : List Event → SyncStatus → SyncStatus
unfolding step
steps [] s = s
steps (e ∷ es) s = steps es (step e s)

-- Every tracked status is kept, and no queue is longer than the buffer.
pub record IsTidy (s : SyncStatus) : Type 0 where
  pub kept : AllValues Kept s.files
  pub bounded : All (λ ch. length ch.queue ≤ sync_event_buffer_size) s.event_subs

abbrev pub Bounded : Channel → Type 0
Bounded ch = length ch.queue ≤ sync_event_buffer_size

offer-Bounded : (path : Text) (ch : Channel) → Bounded ch → Bounded (offer path ch)
unfolding offer
offer-Bounded path ch b = ground (arith, length-append ch.queue (path ∷ []))

after_first_shorter : (q : List Text) → length (after_first q) ≤ length q
after_first_shorter [] = omega arith
after_first_shorter (_ ∷ q) = omega arith

take_from-Bounded : (id : ℕ) (ch : Channel) → Bounded ch → Bounded (take_from id ch)
take_from-Bounded id ch b = ground (arith, after_first_shorter ch.queue)

drop_channel-Bounded :
    (id : ℕ) (chs : List Channel) → All Bounded chs → All Bounded (drop_channel id chs)
unfolding drop_channel
drop_channel-Bounded id [] all = tt
drop_channel-Bounded id (ch ∷ chs) (b, all) =
    elim (ch.id == id) as (λ t. All Bounded (if t then chs else ch ∷ drop_channel id chs)) [
      | true ↦ all
      | false ↦ (b, drop_channel-Bounded id chs all)
    ]

event_subs-drop_unmarked :
    (path : Text) (s : SyncStatus) → (drop_unmarked path s).event_subs ≡ s.event_subs
unfolding drop_unmarked
event_subs-drop_unmarked path s =
    elim (has_no_mark (lookup path s.files))
      as (λ t.
        (if t then record s { files = erase path s.files } else s).event_subs ≡ s.event_subs) [
          | true ↦ refl
          | false ↦ refl
        ]

-- An action tells every channel.
event_subs-run :
    (a : Action) (now : ℕ) (path : Text) (s : SyncStatus)
    → (run a now path s).event_subs ≡ map (offer path) s.event_subs
unfolding run set_syncing set_progress set_completed set_completed_and_remove set_error
    set_conflicted set_rejected broadcast_event change
event_subs-run Action.syncing now path s = refl
event_subs-run (Action.progress p) now path s = refl
event_subs-run Action.completed now path s = ap (map (offer path)) (event_subs-drop_unmarked path _)
event_subs-run Action.removed now path s = refl
event_subs-run (Action.failed err) now path s = refl
event_subs-run Action.marked_conflicted now path s = refl
event_subs-run Action.marked_rejected now path s = refl

pub step-IsTidy : (e : Event) (s : SyncStatus) → IsTidy s → IsTidy (step e s)
unfolding step subscribe unsubscribe cleanup close
step-IsTidy (acted a now path) s t = record {
  kept = run-Kept a now path s t.kept;
  bounded =
      rw (event_subs-run a now path s)
        (All-map Bounded (offer path) s.event_subs (offer-Bounded path) t.bounded);
}
step-IsTidy subscribed s t = record {
  kept = t.kept;
  bounded = All-append Bounded s.event_subs _ t.bounded (omega arith, tt);
}
step-IsTidy (unsubscribed id) s t = record {
  kept = t.kept;
  bounded = drop_channel-Bounded id s.event_subs t.bounded;
}
step-IsTidy (taken id) s t = record {
  kept = t.kept;
  bounded = All-map Bounded (take_from id) s.event_subs (take_from-Bounded id) t.bounded;
}
step-IsTidy (cleaned max_age now) s t = record {
  kept = AllValues-filter Kept _ s.files t.kept;
  bounded = t.bounded;
}
step-IsTidy closed s t = record { kept = tt; bounded = tt }

-- Every status that a sequence of operations reaches is tidy: a tracked path that is completed
-- carries a conflict or reject mark, and no subscriber's queue is longer than its buffer.
pub steps-IsTidy : (es : List Event) (s : SyncStatus) → IsTidy s → IsTidy (steps es s)
unfolding steps
steps-IsTidy [] s t = t
steps-IsTidy (e ∷ es) s t = steps-IsTidy es (step e s) (step-IsTidy e s t)

not-is_stale : (max_age now : ℕ) (st : PathStatus) → Kept st → not (is_stale max_age now st) ≡ true
not-is_stale max_age now st k = ground arith

pub IsTidy-not_stale :
    (max_age now : ℕ) (s : SyncStatus)
    → IsTidy s
    → AllValues (λ st. not (is_stale max_age now st) ≡ true) s.files
IsTidy-not_stale max_age now s t =
    All-imp (λ e. Kept e.1) _ s.files (λ e k. not-is_stale max_age now e.1 k) t.kept

pub new_sync_status-IsTidy : IsTidy new_sync_status
unfolding new_sync_status
new_sync_status-IsTidy = record { kept = tt; bounded = tt }

-- On every status that operations reach from the new one, `Cleanup` deletes nothing, whatever the
-- age and the time.
pub cleanup-steps :
    (es : List Event) (max_age now : ℕ)
    → (cleanup max_age now (steps es new_sync_status)).files ≡ (steps es new_sync_status).files
unfolding cleanup
cleanup-steps es max_age now =
    filter_all (λ st. not (is_stale max_age now st)) _
      (IsTidy-not_stale max_age now _ (steps-IsTidy es new_sync_status new_sync_status-IsTidy))
