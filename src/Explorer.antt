-- ===== src/Explorer.antt =====
-- internal/server/handlers/explorer/explorer_handler.go: the pages of folders and the files that
-- everybody may read.
pub mod Open
use syftbox.Base.{
  Bool, true, false, not, ◌&&◌, ◌||◌, List, [], ◌∷◌, ◌++◌, Option, none, some, Text, codes, ◌==◌,
  ltb, any, text_eq, has_prefix, split, is_some, if◌then◌else◌, inl, inr, ◌⊎◌,
}
use mathlib.Core.List.{map}
use syftbox.Base.Dict.{lookup}
use syftbox.FilePath.{slash, is_empty, join_path}
use syftbox.AclSpec.{token_everyone}
use syftbox.Acl.Level.{new_request, access_read}
use syftbox.Acl.Matcher.{Env, Today}
use syftbox.Acl.Specificity.{first_part}
use syftbox.Acl.Cache.{Lru}
use syftbox.Acl.Service.{Service, can_access}
use syftbox.Blob.{BlobInfo, Backend, BlobService}
use syftbox.Blob.Handlers.{Server}
use syftbox.Datasite.Domains.{has_suffix}

-- `directoryContents`; the folders are sorted.
pub record Contents : Type 0 where
  pub is_dir : Bool
  pub has_index : Bool
  pub files : List BlobInfo
  pub folders : List Text

-- The page of a folder, a file with its key, or a page for an error.
pub data Page : Type 0 where
  folder_page : Text → Contents → Page
  file_page : Text → Text → Page
  not_found_page : Page
  forbidden_page : Page

-- `<` on strings.
abbrev name_before : Text → Text → Bool
name_before [] [] = false
name_before [] (y ∷ t) = true
name_before (x ∷ s) [] = false
name_before (x ∷ s) (y ∷ t) = if x == y then name_before s t else ltb x y

-- A name put into the set of the folders.
unfoldable pub add_folder : Text → List Text → List Text
unfolding text_eq
add_folder n [] = n ∷ []
add_folder n (m ∷ ms) =
    if text_eq n m then m ∷ ms else if name_before n m then n ∷ m ∷ ms else m ∷ add_folder n ms

-- `strings.TrimPrefix`, of a prefix that is there.
abbrev behind_prefix : Text → Text → Text
behind_prefix s [] = s
behind_prefix [] (y ∷ p) = []
behind_prefix (x ∷ s) (y ∷ p) = behind_prefix s p

abbrev has_slash : Text → Bool
has_slash = any (λ c. c == slash)

-- `datasiteFromPath`
unfoldable pub datasite_from_path : Text → Text
datasite_from_path path = if has_slash path then first_part (split slash path) else []

-- The prefix of a listing, with a slash at its end if it is not empty.
unfoldable pub with_slash : Text → Text
unfolding has_suffix is_empty
with_slash prefix =
    if not (is_empty prefix) && not (has_suffix prefix (slash ∷ []))
    then prefix ++ (slash ∷ [])
    else prefix

-- The prefix that the index is asked for: at the root, all ACL files of a datasite's own folder.
unfoldable pub filter_prefix : Text → Text
unfolding datasite_from_path is_empty
filter_prefix prefix =
    if is_empty (datasite_from_path prefix) then codes "*/syft.pub.yaml" else prefix

-- A file that everybody may read, in the contents of the folder with a prefix.
unfoldable pub place_file : Text → BlobInfo → Contents → Contents
unfolding has_prefix is_empty has_suffix
place_file prefix info contents =
    let rel = behind_prefix info.key prefix in
    if not (has_prefix info.key prefix) || is_empty rel
    then contents
    else if has_slash rel
    then record contents {
      is_dir = true;
      folders = add_folder (first_part (split slash rel)) contents.folders;
    }
    else record contents {
      is_dir = true;
      files = contents.files ++ (info ∷ []);
      has_index = contents.has_index || has_suffix info.key (codes "/index.html");
    }

-- The contents at the start of `listContents`.
unfoldable pub no_contents : Text → Contents
unfolding has_suffix is_empty
no_contents path = record {
  is_dir = has_suffix path (slash ∷ []) || is_empty path;
  has_index = false;
  files = [];
  folders = [];
}

-- `EmptyDir`
unfoldable pub empty_dir : Contents → Bool
empty_dir d = d.is_dir && not (any (λ f. true) d.files) && not (any (λ f. true) d.folders)

-- `glob` is SQLite's operator GLOB, on a pattern and a key.
module _ (c : Lru) (b : Backend) (env : Env) (now : Today) (glob : Text → Text → Bool) where
  -- The loop of `listContents`: each test may change the cache.
  unfoldable pub list_each : Text → List BlobInfo → Contents → Service c → Contents × Service c
  unfolding can_access new_request place_file
  list_each prefix [] contents s = (contents, s)
  list_each prefix (info ∷ more) contents s =
      let out = can_access c env now (new_request info.key token_everyone access_read) s in
      list_each prefix more
        (if is_some out.denial then contents else place_file prefix info contents) out.service

  abbrev pub matching : Text → List BlobInfo → List BlobInfo
  matching pattern [] = []
  matching pattern (info ∷ more) =
      let rest = matching pattern more in if glob pattern info.key then info ∷ rest else rest

  -- `listContents`
  unfoldable pub list_contents : Text → Server c b → Contents × Server c b
  unfolding list_each filter_prefix with_slash no_contents
  list_contents path srv =
      let prefix = with_slash path in
      let infos = matching (filter_prefix prefix ++ codes "*") (map (λ e. e.1) srv.blob.index) in
      let (contents, acl) = list_each prefix infos (no_contents path) srv.acl in
      (contents, record srv { acl = acl })

  -- The answer of the store to a file that may be read.
  abbrev pub shown : Text → Text ⊎ Text → Page
  shown key (inl err) = not_found_page
  shown key (inr body) = file_page key body

  -- `serveFile`
  unfoldable pub serve_file : Text → Server c b → Page × Server c b
  unfolding lookup can_access new_request
  serve_file key srv =
      if not (is_some (lookup key srv.blob.index))
      then (not_found_page, srv)
      else (let out = can_access c env now (new_request key token_everyone access_read) srv.acl in
          let srv' = record srv { acl = out.service } in
          if is_some out.denial
          then (forbidden_page, srv')
          else (shown key (b.get key srv'.blob.objects), srv'))

  -- The choice of `Handler` between the pages, for the contents that were listed.
  unfoldable pub page_of : Text → Bool → Contents → Server c b → Page × Server c b
  unfolding serve_file empty_dir join_path
  page_of path serve_index contents srv =
      if contents.has_index && serve_index
      then serve_file (join_path path (codes "index.html")) srv
      else if contents.is_dir || empty_dir contents
      then (folder_page path contents, srv)
      else serve_file path srv

  -- `Handler`, for a path without the slash before it and whether an index file is wanted.
  unfoldable pub handler : Text → Bool → Server c b → Page × Server c b
  unfolding list_contents page_of
  handler path serve_index srv =
      let (contents, srv') = list_contents path srv in page_of path serve_index contents srv'
