-- ===== src/Blob/Keys.antt =====
-- internal/server/handlers/blob: the handlers that take a list of keys, blob_handler_delete.go and
-- the two of presigned URLs.
use syftbox.Base.{
  ℕ, not, ◌&&◌, List, [], ◌∷◌, ◌++◌, none, some, Text, is_some, ltb, length, ◌⊎◌, inl, inr,
  if◌then◌else◌,
}
use syftbox.Base.Dict.{lookup}
use syftbox.AclSpec.{is_acl_file}
use syftbox.Acl.Level.{access_read, access_write}
use syftbox.Acl.Matcher.{Env, Today}
use syftbox.Acl.Cache.{Lru}
use syftbox.Acl.Service.{service_remove}
use syftbox.Datasite.{is_valid_path}
use syftbox.Blob.{Backend, delete_object, get_object_presigned, put_object_presigned}
use syftbox.Blob.Handlers.{
  Server, Code, invalid_path, access_denied, put_failed, get_failed, delete_failed, not_found,
  check_permissions, is_reserved_path,
}

-- The two lists of a response, for what a key has given.
pub record Results {ℓ} (A : Type ℓ) : Type ℓ where
  pub done : List A
  pub errors : List (Text × Code)

abbrev pub no_results {ℓ} : {A : Type ℓ} → Results A
no_results = record { done = []; errors = [] }

-- The lists after one more key: `inl` is an error.
abbrev pub record_result {ℓ} : {A : Type ℓ} → Text → Code ⊎ A → Results A → Results A
record_result key (inl code) r = record r { errors = r.errors ++ ((key, code) ∷ []) }
record_result key (inr x) r = record r { done = r.done ++ (x ∷ []) }

module _ (c : Lru) (b : Backend) (env : Env) (now : Today) (user : Text) where
  -- The ruleset of a deleted ACL file is removed, whatever the answer.
  abbrev forget_rules : Text → Server c b → Server c b
  forget_rules key srv =
      if is_acl_file key then record srv { acl = (service_remove c key srv.acl).1 } else srv

  -- The end of a round of the loop of `DeleteObjects`, at a key that may be deleted.
  unfoldable pub delete_permitted : Text → Server c b → (Code ⊎ Text) × Server c b
  delete_permitted key srv =
      let (error, blob) = delete_object b key srv.blob in
      let srv' = record srv { blob = blob } in
      elim error [ some _ ↦ (inl delete_failed, srv') | none ↦ (inr key, forget_rules key srv') ]

  -- One round of the loop of `DeleteObjects`.
  unfoldable pub delete_one : Text → Server c b → (Code ⊎ Text) × Server c b
  delete_one key srv =
      if not (is_valid_path key)
      then (inl invalid_path, srv)
      else (let (denial, acl) = check_permissions c b env now key user access_write srv.acl in
          let srv' = record srv { acl = acl } in
          if is_some denial then (inl access_denied, srv') else delete_permitted key srv')

  unfoldable pub delete_each : List Text → Results Text → Server c b → Results Text × Server c b
  delete_each [] r srv = (r, srv)
  delete_each (key ∷ keys) r srv =
      let (result, srv') = delete_one key srv in delete_each keys (record_result key result r) srv'

  -- `DeleteObjects`: the status and the response. Its test of the two lengths always holds.
  unfoldable pub delete_objects : List Text → Server c b → ℕ × Results Text × Server c b
  delete_objects keys srv = let (r, srv') = delete_each keys no_results srv in (207, r, srv')

  -- A URL of the store for a key.
  abbrev url_result : Text → Code → Text ⊎ Text → Code ⊎ (Text × Text)
  url_result key code (inl err) = inl code
  url_result key code (inr url) = inr (key, url)

  -- One round of the loop of `DownloadObjectsPresigned`.
  unfoldable pub download_one : Text → Server c b → (Code ⊎ (Text × Text)) × Server c b
  download_one key srv =
      if not (is_valid_path key)
      then (inl invalid_path, srv)
      else (let (denial, acl) = check_permissions c b env now key user access_read srv.acl in
          let srv' = record srv { acl = acl } in
          if is_some denial
          then (inl access_denied, srv')
          else if not (is_some (lookup key srv'.blob.index))
          then (inl not_found, srv')
          else (url_result key get_failed (get_object_presigned b key srv'.blob), srv'))

  -- One round of the loop of `UploadPresigned`.
  unfoldable pub upload_one : Text → Server c b → (Code ⊎ (Text × Text)) × Server c b
  upload_one key srv =
      if not (is_valid_path key)
      then (inl invalid_path, srv)
      else if is_reserved_path key
      then (inl invalid_path, srv)
      else (let (denial, acl) = check_permissions c b env now key user access_write srv.acl in
          let srv' = record srv { acl = acl } in
          if is_some denial
          then (inl access_denied, srv')
          else (url_result key put_failed (put_object_presigned b key srv'.blob), srv'))

  unfoldable pub download_each :
      List Text → Results (Text × Text) → Server c b → Results (Text × Text) × Server c b
  download_each [] r srv = (r, srv)
  download_each (key ∷ keys) r srv =
      let (result, srv') = download_one key srv in
      download_each keys (record_result key result r) srv'

  unfoldable pub upload_each :
      List Text → Results (Text × Text) → Server c b → Results (Text × Text) × Server c b
  upload_each [] r srv = (r, srv)
  upload_each (key ∷ keys) r srv =
      let (result, srv') = upload_one key srv in upload_each keys (record_result key result r) srv'

  -- The status of `DownloadObjectsPresigned`.
  unfoldable pub download_status : ℕ → ℕ → ℕ
  download_status urls errors =
      if not (ltb 0 urls) && ltb 0 errors
      then 400
      else if ltb 0 urls && ltb 0 errors
      then 207
      else 200

  -- `DownloadObjectsPresigned`
  unfoldable pub download_objects_presigned :
      List Text → Server c b → ℕ × Results (Text × Text) × Server c b
  download_objects_presigned keys srv =
      let (r, srv') = download_each keys no_results srv in
      (download_status (length r.done) (length r.errors), r, srv')

  -- `UploadPresigned`
  unfoldable pub upload_presigned : List Text → Server c b → ℕ × Results (Text × Text) × Server c b
  upload_presigned keys srv =
      let (r, srv') = upload_each keys no_results srv in
      (if ltb 0 (length r.errors) then 207 else 200, r, srv')
