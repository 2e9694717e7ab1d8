-- ===== src/Sync/Priority/Integrity.antt =====
-- internal/client/sync, handlePriorityDownload and processHttpMessage: what is written.
use syftbox.Base.{
  ℕ, ◌≡◌, refl, Bool, not, ◌&&◌, [], inl, inr, Text, text_eq, is_some, if◌then◌else◌, Bool-cases,
  Option-cases,
}
use syftbox.Base.Dict.{insert}
use syftbox.Hub.Messages.{FileWrite}
use syftbox.Sync.Files.{FileMetadata, Time, stored_time}
use syftbox.Sync.Priority.{
  Desk, Faults, returned, cross_device, datasite_abs_path, write_with_integrity_check,
  handle_priority_download,
}

module _ (md5 : Text → Text) (root : Text) (reread : ℕ → ℕ) (now : ℕ) (clock : Time) where
  -- Whether a write goes through: no step fails, and the digest of the content is the one that was
  -- announced.
  abbrev pub goes_through : Faults → FileWrite → Bool
  goes_through f w =
      not (is_some f.before) && text_eq w.etag (md5 w.content) && not (is_some f.after)

  -- The row of the journal for a file that was written.
  abbrev pub row : FileWrite → FileMetadata
  row w = record {
    path = w.path;
    size = w.length;
    etag = w.etag;
    version = [];
    last_modified = stored_time reread clock;
  }

  -- A file that comes over the websocket is written, at its path below the datasites, and has its row in the journal, exactly if no
  -- step of the write fails and the digest of its content is the one announced; otherwise the local
  -- files and the journal are as they were.
  pub handle_priority_download-goes_through :
      (f : Faults) (w : FileWrite) (d : Desk)
      → let after = handle_priority_download md5 root reread now clock f w d in
        (after.disk ≡ (
          if goes_through f w
          then insert (datasite_abs_path md5 root reread now clock w.path) w.content d.disk
          else d.disk))
        × (after.engine.journal ≡ (
            if goes_through f w then insert w.path (row w) d.engine.journal else d.engine.journal))
  unfolding handle_priority_download write_with_integrity_check
  handle_priority_download-goes_through f w d = elim (Option-cases f.before) [
    | inr (err, e) ↦ rw (write_with_integrity_check, e) (refl, refl)
    | inl e ↦ elim (Bool-cases (text_eq w.etag (md5 w.content))) [
      | inr t ↦ rw (write_with_integrity_check, e, t) (refl, refl)
      | inl t ↦ elim (Option-cases f.after) [
        | inr (returned err, g) ↦ rw (write_with_integrity_check, e, t, g) (refl, refl)
        | inr (cross_device, g) ↦ rw (write_with_integrity_check, e, t, g) (refl, refl)
        | inl g ↦ rw (write_with_integrity_check, e, t, g) (refl, refl)
      ]
    ]
  ]
