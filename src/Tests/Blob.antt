-- ===== src/Tests/Blob.antt =====
-- Runs of the handlers of the files, and their theorems at concrete data.
use syftbox.Base.{
  ◌≡◌, refl, ap, true, false, ◌&&◌, [], ◌∷◌, Option, none, some, Text, codes, is_some, ◌⊎◌, All,
  length, ◌+◌, if◌then◌else◌,
}
use syftbox.Base.Dict
use syftbox.AclSpec.{RuleSet, Access}
use syftbox.Acl.Level.{access_admin, new_request}
use syftbox.Acl.Rule.{AclRule, is_admin}
use syftbox.Acl.Tree.{get_compiled_rule}
use syftbox.Datasite.{
  to_slash, top_then_slash, to_dot, domain_then, to_at, address_then, is_valid_path, owns,
}
use syftbox.Blob.{
  BlobService, validate_key, valid_string, put_valid, put_object, after_put_object, delete_object,
  after_delete_objects,
}
use syftbox.Blob.Handlers.{
  Server, Upload, is_reserved_name, is_reserved_path, check_permissions, put_form, load_from_reader,
  add_loaded, put_acl, put_acl_form, upload_acl, upload,
}
use syftbox.Blob.Keys.{
  delete_permitted, delete_one, delete_each, delete_objects, download_one, download_each,
  download_status, download_objects_presigned,
}
use syftbox.Blob.Safety.{may_upload, stored, content, upload-blob, upload_acl-malformed}
use syftbox.Blob.Admin.{upload-admin}
use syftbox.Blob.Deletion.{delete_objects-index, listed}
use syftbox.Tests.Acl.{opened, start}
use syftbox.Tests.Samples.{env, now, table, bob}
use syftbox.Tests.Store.{store, holding}

unfoldable pub opened_blob : Unit {0}
unfolding opened new_request to_slash top_then_slash to_dot domain_then to_at address_then
    is_valid_path owns validate_key put_valid put_object after_put_object delete_object
    after_delete_objects is_reserved_name is_reserved_path check_permissions put_form
    load_from_reader add_loaded put_acl put_acl_form upload_acl upload delete_permitted delete_one
    delete_each delete_objects download_one download_each download_status download_objects_presigned
opened_blob = tt

abbrev pub acl_key : Text
acl_key = codes "alice@x.co/pub/syft.pub.yaml"

abbrev pub file_key : Text
file_key = codes "alice@x.co/pub/f"

abbrev pub server : Server table store
server = record { acl = start; blob = holding ((file_key, codes "x") ∷ []) }

-- What Bob, an admin there, uploads.
abbrev new_acl : Upload
new_acl = record {
  key = acl_key;
  user = bob;
  form = some (record { size = 2; body = some (codes "ab") });
}

abbrev never : Text → Option RuleSet
never t = none

upload-blob_example : (upload table store env now never new_acl server).1.blob ≡ (
    if may_upload table store env now never new_acl server && validate_key acl_key
    then stored table store env now never acl_key (content new_acl.form) server.blob
    else server.blob)
upload-blob_example = upload-blob table store env now never new_acl server

upload_acl-malformed_example : (upload table store env now never new_acl server).1 ≡ record {
  acl = (check_permissions table store env now acl_key bob access_admin start).1;
  blob = (put_valid store acl_key 2 (codes "ab") server.blob).1;
}
unfolding opened_blob
upload_acl-malformed_example =
    upload_acl-malformed table store env now never new_acl 2 (codes "ab") server refl refl refl refl
      refl

upload-admin_example :
    let req = new_request acl_key bob access_admin in
    (r : AclRule) × (get_compiled_rule env now req start.tree ≡ some r)
    × ((r.owner ≡ bob) ⊎ ((a : Access) × (r.rule.access ≡ some a) × (is_admin env a bob ≡ true)))
unfolding opened_blob
upload-admin_example =
    upload-admin table store env now never new_acl server refl refl refl refl
      (λ h. cc (ap (λ (s : BlobService store). is_some (Dict.lookup acl_key s.index)) h))

delete_objects-index_example :
    let (status, r, srv) =
      delete_objects table store env now bob (file_key ∷ codes "x" ∷ []) server in
    ((k : Text)
      → Dict.lookup k srv.blob.index
        ≡ (if listed k r.done then none else Dict.lookup k server.blob.index))
    × (length r.done + length r.errors ≡ 2)
    × All (λ k. is_valid_path k ≡ true) r.done
delete_objects-index_example =
    delete_objects-index table store env now bob (file_key ∷ codes "x" ∷ []) server

delete_runs :
    let (status, r, srv) =
      delete_objects table store env now bob (file_key ∷ codes "x" ∷ []) server in
    (r.done ≡ file_key ∷ []) × (srv.blob.index ≡ [])
unfolding opened_blob
delete_runs = (refl, refl)

-- The keys that the store takes.
key_runs :
    (validate_key file_key ≡ true)
    × (validate_key (codes "alice@x.co/a..b") ≡ false)
    × (validate_key (codes "/a") ≡ false)
    × (validate_key (195 ∷ 164 ∷ []) ≡ true)
    × (validate_key (195 ∷ []) ≡ false)
    × (validate_key (237 ∷ 160 ∷ 128 ∷ []) ≡ false)
    × (validate_key [] ≡ false)
unfolding opened_blob valid_string
key_runs = (refl, refl, refl, refl, refl, refl, refl)
