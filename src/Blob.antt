-- ===== src/Blob.antt =====
-- internal/server/blob/blob.go, blob_utils.go, and the calls of blob_backend_s3.go: the files of the
-- server, in a store of objects with an index of them. The store is S3 behind its client; the index
-- is a table of SQLite, read as a map by key.
pub mod Handlers
pub mod Keys
pub mod Safety
pub mod Presigned
pub mod Admin
pub mod Deletion
use syftbox.Base.{
  ℕ, zero, suc, ◌&&◌, if◌then◌else◌, ltb, leb, length, any, contains, has_prefix, text_eq, codes,
  Bool, true, false, not, ◌==◌, keep, List, [], ◌∷◌, ◌++◌, Option, none, some, Text, ◌⊎◌, inl, inr,
}
use syftbox.FilePath.{is_empty}
use syftbox.Base.Dict.{Dict, lookup, insert, erase}

-- `BlobInfo`, with the time as a text.
pub record BlobInfo : Type 0 where
  pub key : Text
  pub etag : Text
  pub size : ℕ
  pub last_modified : Text

-- What S3 tells of an object that it has taken: its ETag, in quotes, and the time.
pub record ObjectInfo : Type 0 where
  pub etag : Text
  pub time : Text

-- The calls of S3 by `S3Backend`; an error is its message.
pub record Backend : Type 1 where
  pub State : Type 0
  pub put : Text → Text → State → (Text ⊎ ObjectInfo) × State
  pub get : Text → State → Text ⊎ Text
  pub delete : Text → State → Option Text × State
  pub copy : Text → Text → State → (Text ⊎ ObjectInfo) × State
  pub put_presigned : Text → State → Text ⊎ Text
  pub get_presigned : Text → State → Text ⊎ Text

pub data EventType : Type 0 where
  put_event : EventType
  delete_event : EventType
  copy_event : EventType

-- `BlobService`; `events` are the calls of the callbacks, each of which runs by itself later.
pub record BlobService (b : Backend) : Type 0 where
  pub objects : b.State
  pub index : Dict BlobInfo
  pub events : List (Text × EventType)

abbrev invalid_key : Text
invalid_key = codes "invalid key"

-- `strings.ReplaceAll` of the quotes.
abbrev without_quotes : Text → Text
without_quotes = keep (λ c. not (c == 34))

abbrev is_inr {ℓ κ} : {A : Type ℓ} {B : Type κ} → A ⊎ B → Bool
is_inr (inl _) = false
is_inr (inr _) = true

-- What the rest of a text in UTF-8 must begin with: bytes that go on with a character, the first
-- of which is between two bounds, or, for none, a new character.
pub data Utf8 : Type 0 where
  wants : ℕ → ℕ → ℕ → Utf8
  broken : Utf8

abbrev within : ℕ → ℕ → ℕ → Bool
within low high c = leb low c && leb c high

-- The first byte of a character.
abbrev utf8_start : ℕ → Utf8
utf8_start c =
    if ltb c 128
    then wants 0 128 191
    else if within 194 223 c
    then wants 1 128 191
    else if c == 224
    then wants 2 160 191
    else if c == 237
    then wants 2 128 159
    else if within 225 239 c
    then wants 2 128 191
    else if c == 240
    then wants 3 144 191
    else if within 241 243 c
    then wants 3 128 191
    else if c == 244
    then wants 3 128 143
    else broken

abbrev utf8_next : Utf8 → ℕ → Utf8
utf8_next broken c = broken
utf8_next (wants zero low high) c = utf8_start c
utf8_next (wants (suc n) low high) c = if within low high c then wants n 128 191 else broken

abbrev utf8_ends : Utf8 → Text → Bool
utf8_ends broken [] = false
utf8_ends (wants n low high) [] = n == 0
utf8_ends u (c ∷ s) = utf8_ends (utf8_next u c) s

-- `utf8.ValidString`
unfoldable pub valid_string : Text → Bool
valid_string s = utf8_ends (wants 0 128 191) s

-- `ValidateKey`: from 1 to 1024 bytes of UTF-8, with no slash in front, no backslash and no `..`.
unfoldable pub validate_key : Text → Bool
unfolding valid_string is_empty text_eq has_prefix contains
validate_key key =
    not (is_empty key)
    && leb (length key) 1024
    && not (text_eq key (codes "."))
    && not (has_prefix key (codes "/"))
    && not (any (λ c. c == 92) key)
    && not (contains key (codes ".."))
    && valid_string key

module _ (b : Backend) where
  -- `invokeBlobChangeCallbacks`
  abbrev notify : Text → EventType → BlobService b → BlobService b
  notify key event s = record s { events = s.events ++ ((key, event) ∷ []) }

  -- `afterPutObject`
  unfoldable pub after_put_object : BlobInfo → BlobService b → BlobService b
  after_put_object info s =
      notify info.key put_event (record s { index = insert info.key info s.index })

  -- `afterDeleteObjects`
  unfoldable pub after_delete_objects : Text → BlobService b → BlobService b
  after_delete_objects key s = notify key delete_event (record s { index = erase key s.index })

  -- `afterCopyObject`
  unfoldable pub after_copy_object : Text → Text → Text → BlobService b → BlobService b
  after_copy_object key etag time s = notify key copy_event (record s {
    index = insert key (record { key = key; etag = etag; size = 0; last_modified = time }) s.index;
  })

  -- The end of `PutObject` of `S3Backend`, with the hook of `BlobService`.
  abbrev put_answer :
      Text → ℕ → (Text ⊎ ObjectInfo) → BlobService b → (Text ⊎ BlobInfo) × BlobService b
  put_answer key size (inl err) s = (inl err, s)
  put_answer key size (inr o) s =
      let info : BlobInfo = record {
        key = key;
        etag = without_quotes o.etag;
        size = size;
        last_modified = o.time;
      } in
      (inr info, after_put_object info s)

  -- What `PutObject` does with a key that is valid.
  unfoldable pub put_valid : Text → ℕ → Text → BlobService b → (Text ⊎ BlobInfo) × BlobService b
  put_valid key size body s =
      let (answer, objects) = b.put key body s.objects in
      put_answer key size answer (record s { objects = objects })

  -- `PutObject`
  unfoldable pub put_object : Text → ℕ → Text → BlobService b → (Text ⊎ BlobInfo) × BlobService b
  unfolding put_valid validate_key
  put_object key size body s =
      if not (validate_key key) then (inl invalid_key, s) else put_valid key size body s

  -- `GetObjectPresigned`
  unfoldable pub get_object_presigned : Text → BlobService b → Text ⊎ Text
  unfolding validate_key
  get_object_presigned key s =
      if not (validate_key key) then inl invalid_key else b.get_presigned key s.objects

  -- `PutObjectPresigned`
  unfoldable pub put_object_presigned : Text → BlobService b → Text ⊎ Text
  unfolding validate_key
  put_object_presigned key s =
      if not (validate_key key) then inl invalid_key else b.put_presigned key s.objects

  abbrev delete_answer : Text → Option Text → BlobService b → BlobService b
  delete_answer key (some err) s = s
  delete_answer key none s = after_delete_objects key s

  -- `DeleteObject` with its hook; `none` is success.
  unfoldable pub delete_object : Text → BlobService b → Option Text × BlobService b
  delete_object key s =
      let (answer, objects) = b.delete key s.objects in
      (answer, delete_answer key answer (record s { objects = objects }))

  abbrev copy_answer : Text → (Text ⊎ ObjectInfo) → BlobService b → BlobService b
  copy_answer target (inl err) s = s
  copy_answer target (inr o) s = after_copy_object target (without_quotes o.etag) o.time s

  -- `CopyObject` with its hook.
  unfoldable pub copy_object : Text → Text → BlobService b → Bool × BlobService b
  unfolding validate_key
  copy_object source target s =
      if not (validate_key source && validate_key target)
      then (false, s)
      else (let (answer, objects) = b.copy source target s.objects in
          (is_inr answer, copy_answer target answer (record s { objects = objects })))
