-- ===== src/Sync/Files.antt =====
-- internal/client/sync/file_metadata.go, sync_engine.go (hasModified, getRemoteState) and
-- sync_journal.go: what is known of a file, and the journal of the files that were synchronised.
use syftbox.Base.{
  ℕ, ◌*◌, ◌/◌, Bool, true, false, not, ◌&&◌, List, [], ◌∷◌, Option, none, some, Text, text_eq, ◌==◌,
  length, if◌then◌else◌,
}
use syftbox.Base.Dict.{Dict, lookup, insert, erase, keys}
use syftbox.FilePath.{is_empty}

-- `time.Time` as `==` compares it: the instant, in nanoseconds, and the location. The times here
-- carry no monotonic reading.
pub record Time : Type 0 where
  pub instant : ℕ
  pub location : ℕ

abbrev pub time_eq : Time → Time → Bool
time_eq a b = (a.instant == b.instant) && (a.location == b.location)

-- `FileMetadata`; sizes are not negative.
pub record FileMetadata : Type 0 where
  pub path : Text
  pub size : ℕ
  pub etag : Text
  pub version : Text
  pub last_modified : Time

abbrev pub Files : Type 0
Files = Dict FileMetadata

-- The comparison of two files that exist.
unfoldable pub differ : FileMetadata → FileMetadata → Bool
differ a b =
    if not (is_empty a.version) && not (is_empty b.version)
    then not (text_eq a.version b.version)
    else if not (is_empty a.etag) && not (is_empty b.etag)
    then not (text_eq a.etag b.etag)
    else if not (a.size == b.size)
    then true
    else not (time_eq a.last_modified b.last_modified)

-- `hasModified`; `none` is nil.
unfoldable pub has_modified : Option FileMetadata → Option FileMetadata → Bool
has_modified none none = false
has_modified none (some b) = true
has_modified (some a) none = true
has_modified (some a) (some b) = differ a b

-- A file of the view that the server returns.
pub record BlobInfo : Type 0 where
  pub key : Text
  pub etag : Text
  pub size : ℕ
  pub last_modified : Time

abbrev pub remote_metadata : BlobInfo → FileMetadata
remote_metadata file = record {
  path = file.key;
  size = file.size;
  etag = file.etag;
  version = [];
  last_modified = file.last_modified;
}

-- The loop of `getRemoteState` over the files of the response.
unfoldable pub remote_state : List BlobInfo → Files → Files
remote_state [] state = state
remote_state (file ∷ more) state = remote_state more (insert file.key (remote_metadata file) state)

-- `getRemoteState`; a failed request is an error.
unfoldable pub get_remote_state : Option (List BlobInfo) → Option Files
unfolding remote_state
get_remote_state none = none
get_remote_state (some files) = some (remote_state files [])

-- The journal: the rows of the table, by path. Errors of the database are left out. `reread` gives
-- the location of a time whose RFC 3339 text is parsed again, which depends on the machine.
module _ (reread : ℕ → ℕ) where
  -- The text has whole seconds.
  abbrev pub stored_time : Time → Time
  stored_time t = record {
    instant = t.instant / 1000000000 * 1000000000;
    location = reread t.location;
  }

  abbrev pub stored : FileMetadata → FileMetadata
  stored f = record f { last_modified = stored_time f.last_modified }

  -- `Set`; nil is an error.
  unfoldable pub journal_set : Option FileMetadata → Files → Option Files
  journal_set none rows = none
  journal_set (some f) rows = some (insert f.path (stored f) rows)

-- `Get`
abbrev pub journal_get : Text → Files → Option FileMetadata
journal_get path rows = lookup path rows

-- `ContentsChanged`
unfoldable pub contents_changed : Text → Text → Files → Bool
contents_changed path etag rows = elim (lookup path rows) [
  | none ↦ true
  | some f ↦ not (text_eq f.etag etag)
]

-- `GetPaths`
abbrev pub journal_paths : Files → List Text
journal_paths rows = keys rows

-- `GetState`, whose rows all have a time that parses.
abbrev pub journal_state : Files → Files
journal_state rows = rows

-- `Count`
abbrev pub journal_count : Files → ℕ
journal_count rows = length rows

-- `Delete`
abbrev pub journal_delete : Text → Files → Files
journal_delete path rows = erase path rows
