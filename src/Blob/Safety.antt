-- ===== src/Blob/Safety.antt =====
-- internal/server/handlers/blob, Upload and UploadACL: what an upload does to the files.
use syftbox.Base.{
  ℕ, ◌≡◌, refl, ap, ◌∙◌, Bool, true, false, not, ◌&&◌, List, inl, inr, Option, none, some, Text,
  is_some, not-true, arith, if◌then◌else◌, Bool-cases, Option-cases, Sum-cases, ◌==◌,
}
use syftbox.FilePath.{is_empty}
use syftbox.AclSpec.{RuleSet, is_acl_file}
use syftbox.Acl.Level.{Level, access_write, access_admin}
use syftbox.Acl.Matcher.{Env, Today}
use syftbox.Acl.Cache.{Lru}
use syftbox.Acl.Service.{Service}
use syftbox.Datasite.{is_valid_path}
use syftbox.Blob.{Backend, BlobService, validate_key, put_valid, put_object}
use syftbox.Blob.Handlers.{
  FormFile, Upload, Reply, Server, is_reserved_path, check_permissions, put_form, load_from_reader,
  add_loaded, put_acl, put_acl_form, upload_acl, upload,
}

-- The size and the bytes of a form with a file that is not empty and can be read.
abbrev pub content : Option FormFile → Option (ℕ × Text)
content none = none
content (some f) =
    if f.size == 0 then none else elim f.body [ none ↦ none | some t ↦ some (f.size, t) ]

module _ (c : Lru) (b : Backend) (env : Env) (now : Today) (parse : Text → Option RuleSet) where
  -- The files after the store was called with the bytes of a form, if it has some, and a key.
  abbrev pub stored : Text → Option (ℕ × Text) → BlobService b → BlobService b
  stored key none s = s
  stored key (some (n, body)) s = (put_valid b key n body s).1

  abbrev pub permits : Text → Text → Level → Service c → Bool
  permits key user level s = not (is_some (check_permissions c b env now key user level s).0)

  -- What the handlers ask of an upload: a valid path, outside of the reserved ones, and the right to
  -- write; for an ACL file a valid path and the right of an admin.
  abbrev pub may_upload : Upload → Server c b → Bool
  may_upload up srv =
      not (is_empty up.key)
      && is_valid_path up.key
      && (if is_acl_file up.key
          then permits up.key up.user access_admin srv.acl
          else not (is_reserved_path up.key) && permits up.key up.user access_write srv.acl)

  -- The files after the store was called, if the key is valid.
  abbrev taken : Text → Option (ℕ × Text) → BlobService b → BlobService b
  taken key o s = if validate_key key then stored key o s else s

  taken-none : (key : Text) (s : BlobService b) → s ≡ taken key none s
  taken-none key s = elim (Bool-cases (validate_key key)) [ inl v ↦ rw v refl | inr v ↦ rw v refl ]

  put_object-taken :
      (key : Text) (n : ℕ) (body : Text) (s : BlobService b)
      → (put_object b key n body s).1 ≡ taken key (some (n, body)) s
  unfolding put_object
  put_object-taken key n body s = elim (Bool-cases (validate_key key)) [
    | inl v ↦ rw (put_object, v) refl
    | inr v ↦ rw (put_object, v) refl
  ]

  put_object-valid :
      (key : Text) (n : ℕ) (body : Text) (s : BlobService b)
      → validate_key key ≡ true
      → (put_object b key n body s).1 ≡ (put_valid b key n body s).1
  unfolding put_object
  put_object-valid key n body s v = rw v refl

  put_form-blob :
      (up : Upload) (srv : Server c b)
      → (put_form c b env now up srv).1.blob ≡ taken up.key (content up.form) srv.blob
  unfolding put_form
  put_form-blob up srv = elim (Option-cases up.form) [
    | inl e ↦ rw e (taken-none up.key srv.blob)
    | inr (f, e) ↦ elim (Bool-cases (f.size == 0)) [
      | inl z ↦ rw (e, z) (taken-none up.key srv.blob)
      | inr z ↦ elim (Option-cases f.body) [
        | inl k ↦ rw (e, z, k) (taken-none up.key srv.blob)
        | inr (t, k) ↦ rw (e, z, k) (put_object-taken up.key f.size t srv.blob)
      ]
    ]
  ]

  put_acl-blob :
      (key : Text) (n : ℕ) (body : Text) (srv : Server c b)
      → (put_acl c b env now parse key n body srv).1.blob ≡ (put_object b key n body srv.blob).1
  unfolding put_acl
  put_acl-blob key n body srv = elim (Sum-cases (put_object b key n body srv.blob).0) [
    | inl (err, e) ↦ rw (e, put_acl) refl
    | inr (i, e) ↦ rw (e, put_acl) refl
  ]

  put_acl_form-blob :
      (up : Upload) (srv : Server c b)
      → (put_acl_form c b env now parse up srv).1.blob ≡ taken up.key (content up.form) srv.blob
  unfolding put_acl_form
  put_acl_form-blob up srv = elim (Option-cases up.form) [
    | inl e ↦ rw e (taken-none up.key srv.blob)
    | inr (f, e) ↦ elim (Bool-cases (f.size == 0)) [
      | inl z ↦ rw (e, z) (taken-none up.key srv.blob)
      | inr z ↦ elim (Option-cases f.body) [
        | inl k ↦ rw (e, z, k) (taken-none up.key srv.blob)
        | inr (t, k) ↦
            rw (e, z, k)
              (put_acl-blob up.key f.size t srv ∙ put_object-taken up.key f.size t srv.blob)
      ]
    ]
  ]

  abbrev told : Bool → Upload → Server c b → BlobService b
  told allowed up srv = if allowed then taken up.key (content up.form) srv.blob else srv.blob

  upload_acl-blob :
      (up : Upload) (srv : Server c b)
      → is_acl_file up.key ≡ true
      → (upload_acl c b env now parse up srv).1.blob ≡ told (may_upload up srv) up srv
  unfolding upload_acl
  upload_acl-blob up srv f = elim (Bool-cases (is_empty up.key)) [
    | inl e ↦ rw e refl
    | inr e ↦ elim (Bool-cases (is_valid_path up.key)) [
      | inr v ↦ rw (e, v) refl
      | inl v ↦
          elim (Bool-cases
            (is_some (check_permissions c b env now up.key up.user access_admin srv.acl).0)) [
              | inl d ↦ rw (e, v, f, d) refl
              | inr d ↦ rw (e, v, f, d) (put_acl_form-blob up _)
            ]
    ]
  ]

  upload-told :
      (up : Upload) (srv : Server c b)
      → (upload c b env now parse up srv).1.blob ≡ told (may_upload up srv) up srv
  unfolding upload
  upload-told up srv = elim (Bool-cases (is_acl_file up.key)) [
    | inl f ↦ rw f (rw f at (upload_acl-blob up srv f))
    | inr f ↦ elim (Bool-cases (is_empty up.key)) [
      | inl e ↦ rw (f, e) refl
      | inr e ↦ elim (Bool-cases (is_valid_path up.key)) [
        | inr v ↦ rw (f, e, v) refl
        | inl v ↦ elim (Bool-cases (is_reserved_path up.key)) [
          | inl r ↦ rw (f, e, v, r) refl
          | inr r ↦
              elim (Bool-cases
                (is_some (check_permissions c b env now up.key up.user access_write srv.acl).0)) [
                  | inl d ↦ rw (f, e, v, r, d) refl
                  | inr d ↦ rw (f, e, v, r, d) (put_form-blob up _)
                ]
        ]
      ]
    ]
  ]

  if_both {ℓ} :
      {A : Type ℓ}
      → (p q : Bool) (x y : A) → (if p then (if q then x else y) else y) ≡ (if p && q then x else y)
  if_both true q x y = refl
  if_both false q x y = refl

  -- An upload calls the store with the bytes of the form and its key, or leaves the files, the index
  -- and the events as they are. It calls it exactly if the key is a valid path and the user may
  -- write there, as an admin where the key is that of an ACL file, outside of the reserved paths
  -- otherwise, the key is one that the store takes, and the form has a file that is not empty and
  -- can be opened.
  pub upload-blob :
      (up : Upload) (srv : Server c b)
      → (upload c b env now parse up srv).1.blob ≡ (
          if may_upload up srv && validate_key up.key
          then stored up.key (content up.form) srv.blob
          else srv.blob)
  upload-blob up srv =
      upload-told up srv
      ∙ if_both (may_upload up srv) (validate_key up.key) (stored up.key (content up.form) srv.blob)
          srv.blob

  put_acl_form-content :
      (up : Upload) (n : ℕ) (body : Text) (srv : Server c b)
      → content up.form ≡ some (n, body)
      → put_acl_form c b env now parse up srv ≡ put_acl c b env now parse up.key n body srv
  unfolding put_acl_form
  put_acl_form-content up n body srv h = elim (Option-cases up.form) [
    | inl e ↦ cc (rw e at h)
    | inr (f, e) ↦ elim (Bool-cases (f.size == 0)) [
      | inl z ↦ cc (rw (e, z) at h)
      | inr z ↦ elim (Option-cases f.body) [
        | inl k ↦ cc (rw (e, z, k) at h)
        | inr (t, k) ↦ rw (e, z, k) (cc (rw (e, z, k) at h))
      ]
    ]
  ]

  put_acl-malformed :
      (key : Text) (n : ℕ) (body : Text) (srv : Server c b)
      → load_from_reader c b env now parse key body ≡ none
      → (put_acl c b env now parse key n body srv).1
        ≡ record srv { blob = (put_object b key n body srv.blob).1 }
  unfolding put_acl add_loaded
  put_acl-malformed key n body srv l = elim (Sum-cases (put_object b key n body srv.blob).0) [
    | inl (err, e) ↦ rw (e, put_acl) refl
    | inr (i, e) ↦ rw (e, l, put_acl) refl
  ]

  all_three : (p q r : Bool) → (not p && q && r) ≡ true → (p ≡ false) × (q ≡ true) × (r ≡ true)
  all_three p q r h = ground arith

  -- The store is called with an ACL file whose rules cannot be loaded, all the same: where the user
  -- may upload it, the key is one that the store takes, and the form has a file, the error of the
  -- loading does not end the handler, and the store is called with the bytes; the rules of the
  -- tree and the cache are those that the test of the permission leaves.
  pub upload_acl-malformed :
      (up : Upload) (n : ℕ) (body : Text) (srv : Server c b)
      → is_acl_file up.key ≡ true
      → may_upload up srv ≡ true
      → validate_key up.key ≡ true
      → content up.form ≡ some (n, body)
      → load_from_reader c b env now parse up.key body ≡ none
      → (upload c b env now parse up srv).1 ≡ record {
        acl = (check_permissions c b env now up.key up.user access_admin srv.acl).1;
        blob = (put_valid b up.key n body srv.blob).1;
      }
  unfolding upload upload_acl
  upload_acl-malformed up n body srv f m k h l =
      let (e, v, d) =
        all_three (is_empty up.key) (is_valid_path up.key)
          (permits up.key up.user access_admin srv.acl) (rw f at m) in
      let passes : is_some (check_permissions c b env now up.key up.user access_admin srv.acl).0
          ≡ false =
        not-true (is_some (check_permissions c b env now up.key up.user access_admin srv.acl).0)
          d in
      rw (f, e, v, passes)
        (ap (λ (r : List Reply × Server c b). r.1) (put_acl_form-content up n body _ h)
          ∙ put_acl-malformed up.key n body _ l
          ∙ ap
              (λ files. record {
                acl = (check_permissions c b env now up.key up.user access_admin srv.acl).1;
                blob = files;
              })
              (put_object-valid up.key n body srv.blob k))
