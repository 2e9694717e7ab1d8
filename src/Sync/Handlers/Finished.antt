-- ===== src/Sync/Handlers/Finished.antt =====
-- internal/client/sync/sync_engine_upload.go: which paths are in the syncing state after an upload.
use syftbox.Base.{
  ℕ, ◌≡◌, refl, Bool, true, false, not, ◌&&◌, List, [], ◌∷◌, Option, none, some, Text, text_eq,
  arith, if◌then◌else◌, Bool-cases, inl, inr, ◌∙◌, ◌==◌,
}
use syftbox.Base.Dict.{lookup}
use syftbox.Sync.Status.{
  SyncStatus, PathStatus, unmarked, conflicted, rejected, is_syncing_state, set_progress,
  set_completed, set_completed_and_remove, set_error, set_rejected,
}
use syftbox.Sync.Status.Slots.{
  Action, run, slot_after, run-slot_after, mark_in, errors_in, done_with,
}
use syftbox.Sync.Files.{FileMetadata, contents_changed}
use syftbox.Sync.Reconcile.{is_syncing}
use syftbox.Sync.Handlers.{
  Engine, Answers, UploadResult, uploaded, refused, broken, reject, report_progress, is_refusal,
  upload_answer, process_upload,
}

abbrev slot_syncing : Option PathStatus → Bool
slot_syncing none = false
slot_syncing (some st) = is_syncing_state st.sync_state

pub is_syncing_slot : (q : Text) (s : SyncStatus) → is_syncing q s ≡ slot_syncing (lookup q s.files)
unfolding is_syncing
is_syncing_slot q s =
    elim (lookup q s.files)
      as (λ o.
        elim o [ none ↦ false | some st ↦ is_syncing_state st.sync_state ] ≡ slot_syncing o) [
          | none ↦ refl
          | some st ↦ refl
        ]

-- The actions that end the work on a path.
abbrev ends : Action → Bool
ends Action.syncing = false
ends (Action.progress n) = false
ends _ = true

slot_syncing-slot_after :
    (a : Action) (now : ℕ) (o : Option PathStatus)
    → ends a ≡ true
    → slot_syncing (slot_after a now o) ≡ false
unfolding slot_after
slot_syncing-slot_after Action.syncing now o h = ground arith
slot_syncing-slot_after (Action.progress n) now o h = ground arith
slot_syncing-slot_after Action.completed now o h =
    elim (mark_in o)
      as (λ m.
        slot_syncing (elim m [
          | unmarked ↦ none
          | conflicted ↦ some (done_with conflicted (errors_in o) now)
          | rejected ↦ some (done_with rejected (errors_in o) now)
        ])
        ≡ false) [ unmarked ↦ refl | conflicted ↦ refl | rejected ↦ refl ]
slot_syncing-slot_after Action.removed now o h = refl
slot_syncing-slot_after (Action.failed err) now o h = refl
slot_syncing-slot_after Action.marked_conflicted now o h = refl
slot_syncing-slot_after Action.marked_rejected now o h = refl

is_syncing-run :
    (a : Action) (now : ℕ) (path q : Text) (s : SyncStatus)
    → ends a ≡ true
    → is_syncing q (run a now path s) ≡ (not (text_eq path q) && is_syncing q s)
is_syncing-run a now path q s h =
    rw (is_syncing_slot q (run a now path s), is_syncing_slot q s, run-slot_after a now path q s)
      (elim (Bool-cases (text_eq path q)) [
        | inl e ↦ rw (e) (slot_syncing-slot_after a now (lookup path s.files) h)
        | inr e ↦ rw (e) refl
      ])

-- `after` has ended the work on a path, and on no other.
abbrev pub Ends : Text → SyncStatus → SyncStatus → Type 0
Ends path before after =
    (q : Text) → is_syncing q after ≡ (not (text_eq path q) && is_syncing q before)

pub set_completed-Ends : (now : ℕ) (p : Text) (s : SyncStatus) → Ends p s (set_completed now p s)
unfolding run
set_completed-Ends now p s q = is_syncing-run Action.completed now p q s refl

pub set_completed_and_remove-Ends :
    (now : ℕ) (p : Text) (s : SyncStatus) → Ends p s (set_completed_and_remove now p s)
unfolding run
set_completed_and_remove-Ends now p s q = is_syncing-run Action.removed now p q s refl

pub set_error-Ends :
    (err : Text) (now : ℕ) (p : Text) (s : SyncStatus) → Ends p s (set_error err now p s)
unfolding run
set_error-Ends err now p s q = is_syncing-run (Action.failed err) now p q s refl

pub set_rejected-Ends : (now : ℕ) (p : Text) (s : SyncStatus) → Ends p s (set_rejected now p s)
unfolding run
set_rejected-Ends now p s q = is_syncing-run Action.marked_rejected now p q s refl

reject-Ends :
    (now : ℕ) (p : Text) (marking : Option Text) (e : Engine)
    → Ends p e.status (reject now p marking e).status
unfolding reject
reject-Ends now p none e = set_rejected-Ends now p e.status
reject-Ends now p (some err) e = set_error-Ends err now p e.status

is_syncing-set_progress :
    (n now : ℕ) (p q : Text) (s : SyncStatus)
    → text_eq p q ≡ false
    → is_syncing q (set_progress n now p s) ≡ is_syncing q s
unfolding run
is_syncing-set_progress n now p q s h =
    rw
      (
        is_syncing_slot q (set_progress n now p s),
        is_syncing_slot q s,
        run-slot_after (Action.progress n) now p q s,
        h,
      )
      refl

-- Progress changes nothing of what ends afterwards.
report_progress-Ends :
    (now : ℕ) (p : Text) (ns : List ℕ) (e : Engine) (after : SyncStatus)
    → Ends p (report_progress now p ns e).status after
    → Ends p e.status after
unfolding report_progress
report_progress-Ends now p [] e after h q = h q
report_progress-Ends now p (n ∷ ns) e after h q =
    report_progress-Ends now p ns (record e { status = set_progress n now p e.status }) after h q
    ∙ elim (Bool-cases (text_eq p q)) [
      | inl k ↦ rw (k) refl
      | inr k ↦ rw (k) (is_syncing-set_progress n now p q e.status k)
    ]

module _ (reread : ℕ → ℕ) (now : ℕ) where
  upload_answer-Ends :
      (p : Text) (marking : Option Text) (r : UploadResult) (e : Engine)
      → Ends p e.status (upload_answer reread now p marking r e).status
  unfolding upload_answer
  upload_answer-Ends p marking (uploaded etag size time) e = set_completed-Ends now p e.status
  upload_answer-Ends p marking (refused code err) e =
      elim (is_refusal code)
        as (λ b.
          Ends p e.status
            (if b
              then reject now p marking e
              else record e { status = set_error err now p e.status }).status) [
                | true ↦ reject-Ends now p marking e
                | false ↦ set_error-Ends err now p e.status
              ]
  upload_answer-Ends p marking (broken err) e = set_error-Ends err now p e.status

  -- Whatever the file system and the server answer, `processUpload` ends the work on its path: the
  -- path is not in the syncing state afterwards, and every other path is in it as before.
  pub process_upload-Ends :
      (p : Text) (local : FileMetadata) (answers : Answers) (e : Engine) (q : Text)
      → is_syncing q (process_upload reread now p local answers e).status
        ≡ (not (text_eq p q) && is_syncing q e.status)
  unfolding process_upload
  process_upload-Ends p local answers e q = elim (Bool-cases (local.size == 0)) [
    | inl a ↦ rw (a) (set_completed-Ends now p e.status q)
    | inr a ↦ elim (Bool-cases (contents_changed p local.etag e.journal)) [
      | inr b ↦ rw (a, b) (set_completed-Ends now p e.status q)
      | inl b ↦ elim (Bool-cases answers.exists) [
        | inr c ↦ rw (a, b, c) (set_completed-Ends now p e.status q)
        | inl c ↦ elim (Bool-cases answers.is_valid_path) [
          | inr d ↦ rw (a, b, c, d) (reject-Ends now p answers.marking e q)
          | inl d ↦
              rw (a, b, c, d)
                (report_progress-Ends now p answers.progress e _
                  (upload_answer-Ends p answers.marking answers.result _) q)
        ]
      ]
    ]
  ]
