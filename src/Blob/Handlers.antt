-- ===== src/Blob/Handlers.antt =====
-- internal/server/handlers/blob: what the HTTP handlers do with a request that is authenticated as
-- `user`. The binding of requests, the log and the wording of errors are left out.
use syftbox.Base.{
  ℕ, ◌+◌, Bool, not, ◌&&◌, ◌||◌, List, [], ◌∷◌, ◌++◌, Option, none, some, Text, codes, text_eq, any,
  split, is_some, ltb, ◌==◌, ◌⊎◌, inl, inr, if◌then◌else◌,
}
use mathlib.Core.List.{map}
use syftbox.FilePath.{slash, is_empty}
use syftbox.AclSpec.{RuleSet, is_acl_file, without_acl_path, set_defaults, bad, loaded}
use syftbox.Acl.Level.{Level, new_request, access_write, access_admin}
use syftbox.Acl.Matcher.{Env, Today}
use syftbox.Acl.Tree.{TreeError, invalid_ruleset}
use syftbox.Acl.Cache.{Lru}
use syftbox.Acl.Service.{Denial, Service, service_add, can_access}
use syftbox.Datasite.{is_valid_path, owns, clean_path}
use syftbox.Blob.{BlobInfo, Backend, BlobService, put_object}

-- The codes of the errors.
pub data Code : Type 0 where
  invalid_request : Code
  invalid_path : Code
  access_denied : Code
  put_failed : Code
  get_failed : Code
  delete_failed : Code
  not_found : Code
  acl_update_failed : Code

-- What is written to the response: an error with its status, or what was taken.
pub data Reply : Type 0 where
  refused : ℕ → Code → Reply
  accepted : BlobInfo → Reply

-- The file of the form: its size and its bytes, where `none` is a file that cannot be opened. The
-- reading of an open file is taken to succeed.
pub record FormFile : Type 0 where
  pub size : ℕ
  pub body : Option Text

-- A request to upload; `none` is a form without a file.
pub record Upload : Type 0 where
  pub key : Text
  pub user : Text
  pub form : Option FormFile

abbrev lower : ℕ → ℕ
lower c = if ltb c b'A' || ltb b'Z' c then c else c + 32

-- A name that the system keeps for itself.
unfoldable pub is_reserved_name : Text → Bool
unfolding text_eq
is_reserved_name name =
    let part = map lower name in
    text_eq part (codes "api")
    || text_eq part (codes ".well-known")
    || text_eq part (codes "_internal")

abbrev behind_first : List Text → List Text
behind_first [] = []
behind_first (p ∷ ps) = ps

-- `IsReservedPath`
unfoldable pub is_reserved_path : Text → Bool
unfolding split is_reserved_name
is_reserved_path path = any is_reserved_name (behind_first (split slash (clean_path path)))

-- The state that the handlers share: the access control and the files.
pub record Server (c : Lru) (b : Backend) : Type 0 where
  pub acl : Service c
  pub blob : BlobService b

module _ (c : Lru) (b : Backend) (env : Env) (now : Today) where
  -- `checkPermissions`; `none` lets the user pass.
  unfoldable pub check_permissions : Text → Text → Level → Service c → Option Denial × Service c
  check_permissions key user level s =
      if owns key user
      then (none, s)
      else (let out = can_access c env now (new_request key user level) s in
          (out.denial, out.service))

  -- The replies and the state after the bytes were put.
  abbrev reply_of : (Text ⊎ BlobInfo) → List Reply
  reply_of (inl err) = refused 500 put_failed ∷ []
  reply_of (inr info) = accepted info ∷ []

  -- The end of `Upload`: the file is looked at and put.
  unfoldable pub put_form : Upload → Server c b → List Reply × Server c b
  put_form up srv = elim up.form [
    | none ↦ (refused 400 invalid_request ∷ [], srv)
    | some f ↦ if f.size == 0 then (refused 400 invalid_request ∷ [], srv) else elim f.body [
      | none ↦ (refused 400 invalid_request ∷ [], srv)
      | some body ↦
          let (answer, blob) = put_object b up.key f.size body srv.blob in
          (reply_of answer, record srv { blob = blob })
    ]
  ]

  module _ (parse : Text → Option RuleSet) where
    -- `LoadFromReader`; `parse` is yaml.Unmarshal.
    unfoldable pub load_from_reader : Text → Text → Option RuleSet
    load_from_reader key body = elim (parse body) [
      | none ↦ none
      | some rs ↦ elim (set_defaults (record rs { path = without_acl_path key })) [
        | bad _ ↦ none
        | loaded t ↦ some t
      ]
    ]

    -- `AddRuleSet` on the ruleset that was loaded, which is nil after an error.
    unfoldable pub add_loaded : Option RuleSet → Service c → Option TreeError × Service c
    add_loaded none s = (some invalid_ruleset, s)
    add_loaded (some rs) s = service_add c env rs s

    abbrev load_reply : Option RuleSet → List Reply
    load_reply none = refused 400 invalid_request ∷ []
    load_reply (some _) = []

    abbrev add_reply : BlobInfo → Option TreeError → List Reply
    add_reply info none = accepted info ∷ []
    add_reply info (some _) = refused 500 acl_update_failed ∷ []

    -- The end of `UploadACL`, from the loading of the ruleset on. An error of the loading is
    -- written to the response, and the handler goes on.
    unfoldable pub put_acl : Text → ℕ → Text → Server c b → List Reply × Server c b
    put_acl key size body srv =
        let rules = load_from_reader key body in
        let (answer, blob) = put_object b key size body srv.blob in
        elim answer [
          | inl err ↦
              (load_reply rules ++ (refused 500 put_failed ∷ []), record srv { blob = blob })
          | inr info ↦
              let (error, acl) = add_loaded rules srv.acl in
              (load_reply rules ++ add_reply info error, record { acl = acl; blob = blob })
        ]

    unfoldable pub put_acl_form : Upload → Server c b → List Reply × Server c b
    put_acl_form up srv = elim up.form [
      | none ↦ (refused 400 invalid_request ∷ [], srv)
      | some f ↦ if f.size == 0 then (refused 400 invalid_request ∷ [], srv) else elim f.body [
        | none ↦ (refused 400 invalid_request ∷ [], srv)
        | some body ↦ put_acl up.key f.size body srv
      ]
    ]

    -- `UploadACL`
    unfoldable pub upload_acl : Upload → Server c b → List Reply × Server c b
    upload_acl up srv =
        if is_empty up.key
        then (refused 400 invalid_request ∷ [], srv)
        else if not (is_valid_path up.key && is_acl_file up.key)
        then (refused 400 invalid_path ∷ [], srv)
        else (let (denial, acl) = check_permissions up.key up.user access_admin srv.acl in
            let srv' = record srv { acl = acl } in
            if is_some denial then (refused 403 access_denied ∷ [], srv') else put_acl_form up srv')

    -- `Upload`
    unfoldable pub upload : Upload → Server c b → List Reply × Server c b
    upload up srv =
        if is_acl_file up.key
        then upload_acl up srv
        else if is_empty up.key
        then (refused 400 invalid_request ∷ [], srv)
        else if not (is_valid_path up.key)
        then (refused 400 invalid_path ∷ [], srv)
        else if is_reserved_path up.key
        then (refused 400 invalid_path ∷ [], srv)
        else (let (denial, acl) = check_permissions up.key up.user access_write srv.acl in
            let srv' = record srv { acl = acl } in
            if is_some denial then (refused 403 access_denied ∷ [], srv') else put_form up srv')
