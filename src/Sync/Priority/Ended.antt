-- ===== src/Sync/Priority/Ended.antt =====
-- internal/client/sync: which paths are in the syncing state after an event of the websocket or of
-- the watcher.
use syftbox.Base.{
  ℕ, ◌≡◌, refl, ◌∙◌, true, false, inl, inr, Option, none, some, Text, text_eq, ltb, length,
  if◌then◌else◌, Bool-cases, Option-cases, ◌==◌, Bool, not, ◌&&◌, ◌||◌, is_some, List, ◌∷◌,
}
use mathlib.Core.Path.{subst}
use syftbox.Base.Dict.{Dict}
use syftbox.Hub.Messages.{Message, Payload, system, error, file_write, file_delete, ack, nack, http}
use syftbox.SyftUrl.{to_local_path}
use syftbox.Send.{file_path, request_suffix}
use syftbox.Sync.Status.{SyncStatus, set_syncing, set_completed, set_error, set_rejected}
use syftbox.Sync.Status.Slots.{Action, run, run-slot_after}
use syftbox.Sync.Files.{Time, contents_changed}
use syftbox.Sync.Reconcile.{is_syncing}
use syftbox.Sync.Handlers.{Engine, complete}
use syftbox.Sync.Handlers.Finished.{
  Ends, is_syncing_slot, set_completed-Ends, set_error-Ends, set_rejected-Ends,
}
use syftbox.Sync.Priority.{
  Desk, Fault, Faults, Written, returned, cross_device, wrote, failed, panicked, has_panicked,
  after_check, datasite_abs_path, FileContent, max_priority_size, not_exist, unreadable, content,
  after_write, write_local, error_status, handle_priority_download, process_http_message,
  handle_priority_error, handle_socket_event, after_send, after_read, handle_priority_upload,
  write_with_integrity_check,
}

is_syncing-set_syncing :
    (now : ℕ) (p q : Text) (s : SyncStatus)
    → text_eq p q ≡ false
    → is_syncing q (set_syncing now p s) ≡ is_syncing q s
unfolding run
is_syncing-set_syncing now p q s h =
    rw
      (
        is_syncing_slot q (set_syncing now p s),
        is_syncing_slot q s,
        run-slot_after Action.syncing now p q s,
        h,
      )
      refl

-- What ends the work on a path that was just begun ends the work on it, and no other.
begun-Ends :
    (now : ℕ) (p : Text) (s after : SyncStatus)
    → Ends p (set_syncing now p s) after
    → Ends p s after
begun-Ends now p s after h q = h q ∙ elim (Bool-cases (text_eq p q)) [
  | inl k ↦ rw (k) refl
  | inr k ↦ rw (k) (is_syncing-set_syncing now p q s k)
]

-- A list of paths that were worked on, none or one.
abbrev pub EndsAt : Option Text → SyncStatus → SyncStatus → Type 0
EndsAt none before after = after ≡ before
EndsAt (some p) before after = Ends p before after

-- How the work on a path ends, by whether the client panics: the client is down with the path
-- still syncing, or the path is not syncing any more and the client is as it was.
abbrev pub Ending : ℕ → Bool → Option Text → Desk → Desk → Type 0
Ending now true none before after = after.crashed ≡ true
Ending now true (some p) before after =
    (after.crashed ≡ true) × (after.engine.status ≡ set_syncing now p before.engine.status)
Ending now false p before after =
    EndsAt p before.engine.status after.engine.status × (after.crashed ≡ before.crashed)

abbrev pub is_cross_device : Option Fault → Bool
is_cross_device none = false
is_cross_device (some (returned err)) = false
is_cross_device (some cross_device) = true

or_true : (b : Bool) → (b || true) ≡ true
or_true true = refl
or_true false = refl

or_false : (b : Bool) → (b || false) ≡ b
or_false true = refl
or_false false = refl

module _ (md5 : Text → Text) (root : Text) (reread : ℕ → ℕ) (now : ℕ) (clock : Time) where
  -- A write panics if it comes to the rename, and the rename is between devices.
  abbrev pub write_panics : Faults → Text → Text → Bool
  write_panics f body etag =
      not (is_some f.before) && text_eq etag (md5 body) && is_cross_device f.after

  after_check-panics :
      (o : Option Fault) (p body : Text) (disk : Dict Text)
      → has_panicked md5 (after_check md5 o p body disk).0 ≡ is_cross_device o
  after_check-panics none p body disk = refl
  after_check-panics (some (returned err)) p body disk = refl
  after_check-panics (some cross_device) p body disk = refl

  write-panics :
      (f : Faults) (p body etag : Text) (disk : Dict Text)
      → has_panicked md5 (write_with_integrity_check md5 f p body etag disk).0
        ≡ write_panics f body etag
  unfolding write_with_integrity_check
  write-panics f p body etag disk = elim (Option-cases f.before) [
    | inr (err, e) ↦ rw (write_with_integrity_check, e) refl
    | inl e ↦ elim (Bool-cases (text_eq etag (md5 body))) [
      | inr t ↦ rw (write_with_integrity_check, e, t) refl
      | inl t ↦ rw (write_with_integrity_check, e, t) (after_check-panics f.after p body disk)
    ]
  ]

  after_write-Ending :
      (p etag : Text) (n : ℕ) (o : Written) (d : Desk) (disk : Dict Text) (ignored : List Text)
      → Ending now (has_panicked md5 o) (some p) d (record {
        engine =
            after_write md5 root reread now clock p etag n o
              (record d.engine { status = set_syncing now p d.engine.status });
        crashed = d.crashed || has_panicked md5 o;
        disk = disk;
        ignored = ignored;
      })
  after_write-Ending p etag n wrote d disk ignored = (
    begun-Ends now p d.engine.status _
        (set_completed-Ends now p (set_syncing now p d.engine.status)),
    or_false d.crashed,
  )
  after_write-Ending p etag n (failed err) d disk ignored = (
    begun-Ends now p d.engine.status _
        (set_error-Ends err now p (set_syncing now p d.engine.status)),
    or_false d.crashed,
  )
  after_write-Ending p etag n panicked d disk ignored = (or_true d.crashed, refl)

  write_local-Ending :
      (f : Faults) (p body etag : Text) (n : ℕ) (d : Desk)
      → Ending now
          (write_panics f body etag)
          (some p)
          d
          (write_local md5 root reread now clock f p body etag n d)
  write_local-Ending f p body etag n d =
      let place = datasite_abs_path md5 root reread now clock p in
      subst (λ b. Ending now b (some p) d (write_local md5 root reread now clock f p body etag n d))
        (write-panics f place body etag d.disk)
        (after_write-Ending p etag n (write_with_integrity_check md5 f place body etag d.disk).0 d
          (write_with_integrity_check md5 f place body etag d.disk).1 (place ∷ d.ignored))

  error_status-Ends :
      (code : ℕ) (p : Text) (marking : Option Text) (s : SyncStatus)
      → Ends p s (error_status md5 root reread now clock code p marking s)
  error_status-Ends code p none s =
      elim (code == 403)
        as (λ b. Ends p s (if b then set_rejected now p s else set_completed now p s)) [
          | true ↦ set_rejected-Ends now p s
          | false ↦ set_completed-Ends now p s
        ]
  error_status-Ends code p (some err) s =
      elim (code == 403)
        as (λ b. Ends p s (if b then set_error err now p s else set_completed now p s)) [
          | true ↦ set_error-Ends err now p s
          | false ↦ set_completed-Ends now p s
        ]

  -- The path that a message is about, where the client works on one.
  abbrev pub path_of : Payload → Option Text
  path_of (system version text) = none
  path_of (error code path text) = some path
  path_of (file_write w) = some w.path
  path_of (file_delete p) = none
  path_of ack = none
  path_of (nack err) = none
  path_of (http m) = some (file_path (to_local_path m.syft_url) m.id request_suffix)

  -- Whether the write of what came with a message panics.
  abbrev pub panics : Faults → Payload → Bool
  panics f (system version text) = false
  panics f (error code path text) = false
  panics f (file_write w) = write_panics f w.content w.etag
  panics f (file_delete p) = false
  panics f ack = false
  panics f (nack err) = false
  panics f (http m) = write_panics f m.body m.etag

  -- Whatever message comes over the websocket, and whatever the file system answers, the client
  -- panics with the path still syncing, which it does exactly if the content that came has the
  -- digest announced, no step before the rename fails and the rename is between devices; or it ends
  -- the work on the path that the message is about: that path is not syncing afterwards, and every
  -- other path is syncing if it was. A message about no path leaves the status as it is.
  pub handle_socket_event-Ending :
      (f : Faults) (marking : Option Text) (m : Message) (d : Desk)
      → Ending now
          (panics f m.payload)
          (path_of m.payload)
          d
          (handle_socket_event md5 root reread now clock f marking m d)
  unfolding handle_socket_event handle_priority_download process_http_message handle_priority_error
  handle_socket_event-Ending f marking m d =
      elim m.payload
        as (λ y.
          Ending now (panics f y) (path_of y) d (
            handle_socket_event md5 root reread now clock f marking (record m { payload = y }) d)) [
              | system version text ↦ (refl, refl)
              | error code path text ↦ (
                begun-Ends now path d.engine.status _
                    (error_status-Ends code path marking (set_syncing now path d.engine.status)),
                refl,
              )
              | file_write w ↦ write_local-Ending f w.path w.content w.etag w.length d
              | file_delete p ↦ (refl, refl)
              | ack ↦ (refl, refl)
              | nack err ↦ (refl, refl)
              | http h ↦
                  write_local-Ending f (file_path (to_local_path h.syft_url) h.id request_suffix)
                    h.body h.etag (length h.body) d
            ]

-- The path that `handlePriorityUpload` works on: that of a file that is not too large.
abbrev pub prioritized : Option ℕ → Option Text → Option Text
prioritized none rel_path = none
prioritized (some size) rel_path = if ltb max_priority_size size then none else rel_path

module _ (reread : ℕ → ℕ) (now : ℕ) where
  after_send-Ends :
      (p etag : Text) (n : ℕ) (t : Time) (sending : Option Text) (e : Engine)
      → Ends p e.status (after_send reread now p n etag t sending e).status
  after_send-Ends p etag n t none e = set_completed-Ends now p e.status
  after_send-Ends p etag n t (some err) e = set_error-Ends err now p e.status

  after_read-Ends :
      (p : Text) (file : FileContent) (sending : Option Text) (e : Engine)
      → Ends p e.status (after_read reread now p file sending e).status
  unfolding after_read
  after_read-Ends p not_exist sending e = set_completed-Ends now p e.status
  after_read-Ends p (unreadable err) sending e = set_error-Ends err now p e.status
  after_read-Ends p (content n etag t body) sending e =
      elim (contents_changed p etag e.journal)
        as (λ b.
          Ends p e.status
            (if b then after_send reread now p n etag t sending e else complete now p e).status) [
              | true ↦ after_send-Ends p etag n t sending e
              | false ↦ set_completed-Ends now p e.status
            ]

  -- Whatever the file system and the connection answer, `handlePriorityUpload` ends the work on the
  -- path of a file that is not larger than 4 MB and is in the datasites, and on no other path; for
  -- any other file the status stays as it is.
  pub handle_priority_upload-Ends :
      (stat : Option ℕ) (rel_path : Option Text) (file : FileContent) (sending : Option Text)
      (e : Engine)
      → EndsAt
          (prioritized stat rel_path)
          e.status
          (handle_priority_upload reread now stat rel_path file sending e).status
  unfolding handle_priority_upload
  handle_priority_upload-Ends none rel_path file sending e = refl
  handle_priority_upload-Ends (some n) rel_path file sending e =
      elim (Bool-cases (ltb max_priority_size n)) [
        | inl large ↦ rw large refl
        | inr small ↦ rw small (placed rel_path)
      ]
    where
      placed :
          (r : Option Text)
          → EndsAt r e.status (handle_priority_upload reread now (some 0) r file sending e).status
      placed none = refl
      placed (some p) =
          begun-Ends now p e.status _
            (after_read-Ends p file sending (record e { status = set_syncing now p e.status }))
