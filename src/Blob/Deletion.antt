-- ===== src/Blob/Deletion.antt =====
-- internal/server/handlers/blob/blob_handler_delete.go: the loop of DeleteObjects.
use syftbox.Base.{
  ℕ, suc, ◌+◌, ◌≡◌, refl, ◌∙◌, Bool, true, false, ◌||◌, List, [], ◌∷◌, inl, inr, Option, none, Text,
  text_eq, is_some, arith, if◌then◌else◌, Bool-cases, Option-cases, any, All, All-append, length,
  length-append, any-append,
}
use syftbox.Base.Dict.{Dict, lookup, erase, lookup-erase}
use syftbox.AclSpec.{is_acl_file}
use syftbox.Acl.Level.{access_write}
use syftbox.Acl.Matcher.{Env, Today}
use syftbox.Acl.Cache.{Lru}
use syftbox.Datasite.{is_valid_path}
use syftbox.Blob.{BlobInfo, Backend, delete_object, after_delete_objects}
use syftbox.Blob.Handlers.{Server, Code, check_permissions}
use syftbox.Blob.Keys.{
  Results, record_result, no_results, delete_permitted, delete_one, delete_each, delete_objects,
}

abbrev pub listed : Text → List Text → Bool
listed k keys = any (λ j. text_eq j k) keys

module _ (c : Lru) (b : Backend) (env : Env) (now : Today) (user : Text) where
  -- What the loop keeps, seen from the state that it began in: the index lacks the keys that were
  -- deleted, and has all else as it was; each key is in one of the lists; the deleted ones are
  -- valid paths.
  record Kept (start : Dict BlobInfo) (n : ℕ) (r : Results Text) (index_now : Dict BlobInfo)
      : Type 0 where
    index : (k : Text) → lookup k index_now ≡ (if listed k r.done then none else lookup k start)
    count : length r.done + length r.errors ≡ n
    valid : All (λ k. is_valid_path k ≡ true) r.done

  failed_key :
      (start d : Dict BlobInfo) (n : ℕ) (r : Results Text) (key : Text) (code : Code)
      → Kept start n r d
      → Kept start (n + 1) (record_result key (inl code) r) d
  failed_key start d n r key code kept = record {
    index = λ k. kept.index k;
    count = omega (arith, kept.count, length-append r.errors ((key, code) ∷ []));
    valid = kept.valid;
  }

  either_gone {ℓ} :
      {A : Type ℓ} (p q : Bool) (x : Option A)
      → (if p then none else (if q then none else x)) ≡ (if q || (p || false) then none else x)
  either_gone true true x = refl
  either_gone true false x = refl
  either_gone false true x = refl
  either_gone false false x = refl

  deleted_key :
      (start d d' : Dict BlobInfo) (n : ℕ) (r : Results Text) (key : Text)
      → is_valid_path key ≡ true
      → d' ≡ erase key d
      → Kept start n r d
      → Kept start (n + 1) (record_result key (inr key) r) d'
  deleted_key start d d' n r key valid gone kept = record {
    index = λ k.
        rw
          (
            gone,
            lookup-erase key k d,
            kept.index k,
            any-append (λ j. text_eq j k) r.done (key ∷ []),
          )
          (either_gone (text_eq key k) (listed k r.done) (lookup k start));
    count = omega (arith, kept.count, length-append r.done (key ∷ []));
    valid = All-append _ r.done (key ∷ []) kept.valid (valid, tt);
  }

  permitted_step :
      (start : Dict BlobInfo) (n : ℕ) (r : Results Text) (srv : Server c b) (key : Text)
      → is_valid_path key ≡ true
      → Kept start n r srv.blob.index
      → let (result, srv') = delete_permitted c b env now user key srv in
        Kept start (n + 1) (record_result key result r) srv'.blob.index
  unfolding delete_permitted delete_object after_delete_objects
  permitted_step start n r srv key valid kept =
      elim (Option-cases (b.delete key srv.blob.objects).0) [
        | inr (err, e) ↦ rw (delete_permitted, e, e) (failed_key start _ n r key _ kept)
        | inl e ↦ elim (Bool-cases (is_acl_file key)) [
          | inl f ↦ rw (delete_permitted, e, e, f) (deleted_key start _ _ n r key valid refl kept)
          | inr f ↦ rw (delete_permitted, e, e, f) (deleted_key start _ _ n r key valid refl kept)
        ]
      ]

  delete_step :
      (start : Dict BlobInfo) (n : ℕ) (r : Results Text) (srv : Server c b) (key : Text)
      → Kept start n r srv.blob.index
      → let (result, srv') = delete_one c b env now user key srv in
        Kept start (n + 1) (record_result key result r) srv'.blob.index
  unfolding delete_one
  delete_step start n r srv key kept = elim (Bool-cases (is_valid_path key)) [
    | inr v ↦ rw v (failed_key start _ n r key _ kept)
    | inl v ↦
        elim (Bool-cases
          (is_some (check_permissions c b env now key user access_write srv.acl).0)) [
            | inl d ↦ rw (v, d) (failed_key start _ n r key _ kept)
            | inr d ↦ rw (v, d) (permitted_step start n r _ key v kept)
          ]
  ]

  suc_shift : (n m : ℕ) → n + suc m ≡ (n + 1) + m
  suc_shift n m = omega arith

  delete_steps :
      (start : Dict BlobInfo) (n : ℕ) (r : Results Text) (srv : Server c b) (keys : List Text)
      → Kept start n r srv.blob.index
      → let (r', srv') = delete_each c b env now user keys r srv in
        Kept start (n + length keys) r' srv'.blob.index
  unfolding delete_each
  delete_steps start n r srv [] kept = record {
    index = kept.index;
    count = omega (arith, kept.count);
    valid = kept.valid;
  }
  delete_steps start n r srv (key ∷ keys) kept =
      rw (suc_shift n (length keys))
        (delete_steps start (n + 1) _ _ keys (delete_step start n r srv key kept))

  -- After `DeleteObjects` the index lacks the keys that the response lists as deleted, and has for
  -- every other key what it had; each key of the request is counted in exactly one of the two
  -- lists; and the deleted keys are valid paths.
  pub delete_objects-index :
      (keys : List Text) (srv : Server c b)
      → let (status, r, srv') = delete_objects c b env now user keys srv in
        ((k : Text)
          → lookup k srv'.blob.index ≡ (if listed k r.done then none else lookup k srv.blob.index))
        × (length r.done + length r.errors ≡ length keys)
        × All (λ k. is_valid_path k ≡ true) r.done
  unfolding delete_objects
  delete_objects-index keys srv =
      let kept =
        delete_steps srv.blob.index 0 no_results srv keys
          (record { index = λ k. refl; count = refl; valid = tt }) in
      (kept.index, kept.count ∙ omega arith, kept.valid)
