-- ===== src/Blob/Admin.antt =====
-- internal/server/handlers/blob, Upload of an ACL file, with CanAccess of internal/server/acl.
use syftbox.Base.{
  ◌≡◌, ◌≢◌, refl, ◌∙◌, Bool, true, false, not, ◌&&◌, ◌⊎◌, inl, inr, Option, none, some, Text,
  is_some, is_some-none, arith, Bool-cases,
}
use syftbox.Acl.Paths.{norm_path}
use syftbox.AclSpec.{Access, RuleSet, is_acl_file}
use syftbox.Acl.Level.{new_request, access_admin}
use syftbox.Acl.Matcher.{Env, Today}
use syftbox.Acl.Rule.{AclRule, is_admin}
use syftbox.Acl.Specificity.{is_owner}
use syftbox.Acl.Tree.{get_compiled_rule}
use syftbox.Acl.Cache.{Lru, peek, cache_key}
use syftbox.Acl.Service.{can_access}
use syftbox.Acl.Service.Decisions.{can_access_acl_file}
use syftbox.FilePath.{is_empty}
use syftbox.Datasite.{is_valid_path, owns}
use syftbox.Blob.{Backend}
use syftbox.Blob.Handlers.{Upload, Server, check_permissions, upload}
use syftbox.Blob.Safety.{upload-blob, may_upload}

module _ (c : Lru) (b : Backend) (env : Env) (now : Today) (parse : Text → Option RuleSet) where
  allowed_of_change :
      (up : Upload) (srv : Server c b)
      → (upload c b env now parse up srv).1.blob ≢ srv.blob
      → may_upload c b env now parse up srv ≡ true
  allowed_of_change up srv changed = elim (Bool-cases (may_upload c b env now parse up srv)) [
    | inl e ↦ e
    | inr e ↦ absurd (changed (upload-blob c b env now parse up srv ∙ rw e refl))
  ]

  last_holds : (p q r : Bool) → (not p && q && not r) ≡ true → r ≡ false
  last_holds p q r h = ground arith

  passed :
      (up : Upload) (srv : Server c b)
      → is_acl_file up.key ≡ true
      → is_owner up.key up.user ≡ false
      → may_upload c b env now parse up srv ≡ true
      → (can_access c env now (new_request up.key up.user access_admin) srv.acl).denial ≡ none
  unfolding check_permissions owns is_owner
  passed up srv f o m =
      let req = new_request up.key up.user access_admin in
      is_some-none (can_access c env now req srv.acl).denial (
        last_holds (is_empty up.key) (is_valid_path up.key)
          (is_some (can_access c env now req srv.acl).denial) (rw (f, o) at m))

  -- The upload of an ACL file, with a key in normal form, that changes the files, by a user whose ID does not begin the path
  -- and of whom the cache does not know the answer, is by an owner or an admin: the rule that
  -- matches the path first has the user for its owner or lets the user pass as an admin.
  pub upload-admin :
      (up : Upload) (srv : Server c b)
      → norm_path up.key ≡ up.key
      → is_acl_file up.key ≡ true
      → is_owner up.key up.user ≡ false
      → peek c srv.acl.cache (cache_key (new_request up.key up.user access_admin)) ≡ none
      → (upload c b env now parse up srv).1.blob ≢ srv.blob
      → let req = new_request up.key up.user access_admin in
        (r : AclRule) × (get_compiled_rule env now req srv.acl.tree ≡ some r)
        × ((r.owner ≡ up.user)
            ⊎ ((a : Access) × (r.rule.access ≡ some a) × (is_admin env a up.user ≡ true)))
  unfolding new_request
  upload-admin up srv p f o m changed =
      can_access_acl_file c env now (new_request up.key up.user access_admin) srv.acl (rw p o) m
        (rw p f) refl (passed up srv f o (allowed_of_change up srv changed))
