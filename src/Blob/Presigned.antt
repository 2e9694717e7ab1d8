-- ===== src/Blob/Presigned.antt =====
-- internal/server/handlers/blob/blob_handler_download_presigned.go: the loop over the keys.
use syftbox.Base.{
  ℕ, suc, ◌+◌, ◌≡◌, refl, ◌∙◌, true, List, [], ◌∷◌, inl, inr, Text, is_some, arith, Bool-cases,
  Sum-cases, All, All-append, length, length-append,
}
use syftbox.Base.Dict.{lookup}
use syftbox.Acl.Level.{access_read}
use syftbox.Acl.Matcher.{Env, Today}
use syftbox.Acl.Cache.{Lru}
use syftbox.Datasite.{is_valid_path}
use syftbox.Blob.{Backend, BlobService, get_object_presigned}
use syftbox.Blob.Handlers.{Server, Code, check_permissions}
use syftbox.Blob.Keys.{
  Results, record_result, no_results, download_one, download_each, download_objects_presigned,
}

module _ (c : Lru) (b : Backend) (env : Env) (now : Today) (user : Text) where
  -- A URL that may be handed out: its key is a valid path that the index has, and the store has
  -- made it.
  abbrev pub IsServed : BlobService b → Text × Text → Type 0
  IsServed s (key, url) =
      (is_valid_path key ≡ true)
      × (is_some (lookup key s.index) ≡ true)
      × (get_object_presigned b key s ≡ inr url)

  record Served (s : BlobService b) (n : ℕ) (r : Results (Text × Text)) (t : BlobService b)
      : Type 0 where
    same : t ≡ s
    count : length r.done + length r.errors ≡ n
    good : All (IsServed s) r.done

  missed :
      (s : BlobService b) (n : ℕ) (r : Results (Text × Text)) (t : BlobService b) (key : Text)
      (code : Code)
      → Served s n r t
      → Served s (n + 1) (record_result key (inl code) r) t
  missed s n r t key code h = record {
    same = h.same;
    count = omega (arith, h.count, length-append r.errors ((key, code) ∷ []));
    good = h.good;
  }

  served :
      (s : BlobService b) (n : ℕ) (r : Results (Text × Text)) (t : BlobService b) (key url : Text)
      → IsServed t (key, url)
      → Served s n r t
      → Served s (n + 1) (record_result key (inr (key, url)) r) t
  served s n r t key url g h = record {
    same = h.same;
    count = omega (arith, h.count, length-append r.done ((key, url) ∷ []));
    good = All-append _ r.done ((key, url) ∷ []) h.good (rw h.same at g, tt);
  }

  download_step :
      (s : BlobService b) (n : ℕ) (r : Results (Text × Text)) (srv : Server c b) (key : Text)
      → Served s n r srv.blob
      → let (result, srv') = download_one c b env now user key srv in
        Served s (n + 1) (record_result key result r) srv'.blob
  unfolding download_one
  download_step s n r srv key h = elim (Bool-cases (is_valid_path key)) [
    | inr v ↦ rw v (missed s n r _ key _ h)
    | inl v ↦
        elim (Bool-cases (is_some (check_permissions c b env now key user access_read srv.acl).0)) [
          | inl d ↦ rw (v, d) (missed s n r _ key _ h)
          | inr d ↦ elim (Bool-cases (is_some (lookup key srv.blob.index))) [
            | inr x ↦ rw (v, d, x) (missed s n r _ key _ h)
            | inl x ↦ elim (Sum-cases (get_object_presigned b key srv.blob)) [
              | inl (err, e) ↦ rw (v, d, x, e) (missed s n r _ key _ h)
              | inr (url, e) ↦ rw (v, d, x, e) (served s n r _ key url (v, x, e) h)
            ]
          ]
        ]
  ]

  suc_shift : (n m : ℕ) → n + suc m ≡ (n + 1) + m
  suc_shift n m = omega arith

  download_steps :
      (s : BlobService b) (n : ℕ) (r : Results (Text × Text)) (srv : Server c b) (keys : List Text)
      → Served s n r srv.blob
      → let (r', srv') = download_each c b env now user keys r srv in
        Served s (n + length keys) r' srv'.blob
  unfolding download_each
  download_steps s n r srv [] h = record {
    same = h.same;
    count = omega (arith, h.count);
    good = h.good;
  }
  download_steps s n r srv (key ∷ keys) h =
      rw (suc_shift n (length keys))
        (download_steps s (n + 1) _ _ keys (download_step s n r srv key h))

  -- `DownloadObjectsPresigned` leaves the files as they are; it hands out URLs that the store has
  -- made, for valid paths that the index has and no others; and each key of the request is counted
  -- in exactly one of the two lists of the response.
  pub download_objects_presigned-IsServed :
      (keys : List Text) (srv : Server c b)
      → let (status, r, srv') = download_objects_presigned c b env now user keys srv in
        (srv'.blob ≡ srv.blob)
        × All (IsServed srv.blob) r.done
        × (length r.done + length r.errors ≡ length keys)
  unfolding download_objects_presigned
  download_objects_presigned-IsServed keys srv =
      let h =
        download_steps srv.blob 0 no_results srv keys
          (record { same = refl; count = refl; good = tt }) in
      (h.same, h.good, h.count ∙ omega arith)
