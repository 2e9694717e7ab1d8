-- ===== src/Explorer/Open.antt =====
-- internal/server/handlers/explorer/explorer_handler.go: what is shown may be read by everybody.
use syftbox.Base.{
  Bool, true, false, not, ◌||◌, ◌&&◌, ◌≡◌, refl, sym, ap, ◌∙◌, List, [], ◌∷◌, ◌++◌, Option, none,
  some, Text, is_some, is_some-none, codes, if◌then◌else◌, ◌⊎◌, arith, Bool-cases, inl, inr, All,
  All-append, has_prefix,
}
use mathlib.Core.List.{map}
use syftbox.Base.Dict.{lookup}
use syftbox.FilePath.{is_empty, join_path}
use syftbox.AclSpec.{token_everyone}
use syftbox.Acl.Level.{new_request, access_read}
use syftbox.Acl.Matcher.{Env, Today}
use syftbox.Acl.Cache.{Lru, IsLawful}
use syftbox.Acl.Service.{Service, Denial, can_access}
use syftbox.Acl.Service.Keys.{OfUser, OfUser-own}
use syftbox.Acl.Service.Readers.{
  MayRead, ComesFrom, ComesFrom-refl, can_access-IsGranted, can_access-ComesFrom,
}
use syftbox.Blob.{BlobInfo, Backend, BlobService}
use syftbox.Blob.Handlers.{Server}
use syftbox.Explorer.{
  Contents, Page, folder_page, file_page, not_found_page, forbidden_page, place_file, no_contents,
  list_each, behind_prefix, has_slash, empty_dir, list_contents, serve_file, shown, handler,
  page_of, matching, with_slash, filter_prefix,
}

true-not : {b : Bool} → not b ≡ false → b ≡ true
true-not h = ground arith

module _ (c : Lru) (b : Backend) (env : Env) (now : Today) (glob : Text → Text → Bool) where
  abbrev IsReadable : Service c → BlobInfo → Type 0
  IsReadable s info = MayRead c env now info.key token_everyone s

  -- A service that came from another by decisions on requests of everybody.
  abbrev Later : Service c → Service c → Type 0
  Later s t = ComesFrom c env now (OfUser token_everyone) s t

  -- A page shows what everybody may read, and the content that the store has for the key.
  abbrev pub IsOpen : Server c b → Page → Type 0
  IsOpen srv (folder_page path d) = All (IsReadable srv.acl) d.files
  IsOpen srv (file_page key body) =
      MayRead c env now key token_everyone srv.acl
      × (is_some (lookup key srv.blob.index) ≡ true)
      × (b.get key srv.blob.objects ≡ inr body)
  IsOpen srv not_found_page = Unit
  IsOpen srv forbidden_page = Unit

  place_file-files :
      (s : Service c) (prefix : Text) (info : BlobInfo) (d : Contents)
      → IsReadable s info
      → All (IsReadable s) d.files
      → All (IsReadable s) (place_file prefix info d).files
  unfolding place_file
  place_file-files s prefix info d r a =
      elim (Bool-cases
        (not (has_prefix info.key prefix) || is_empty (behind_prefix info.key prefix))) [
          | inl h ↦ rw h a
          | inr h ↦ elim (Bool-cases (has_slash (behind_prefix info.key prefix))) [
            | inl t ↦ rw (h, t) a
            | inr t ↦ rw (h, t) (All-append _ d.files (info ∷ []) a (r, tt))
          ]
        ]

  -- The step of the loop at a file, for what `CanAccess` says of it.
  step_files :
      (s : Service c) (prefix : Text) (info : BlobInfo) (d : Contents) (o : Option Denial)
      → (o ≡ none → IsReadable s info)
      → All (IsReadable s) d.files
      → All (IsReadable s) (if is_some o then d else place_file prefix info d).files
  step_files s prefix info d none r a = place_file-files s prefix info d (r refl) a
  step_files s prefix info d (some x) r a = a

  -- A page and the state after it: the files are as they were, and the tree of the rules is.
  abbrev pub Shows : Server c b → Page × Server c b → Type 0
  Shows srv (page, after) =
      IsOpen srv page × (after.blob ≡ srv.blob) × (after.acl.tree ≡ srv.acl.tree)

  module _ (lawful : IsLawful c) where
    later :
        (s t : Service c) (key : Text)
        → Later s t
        → Later s (can_access c env now (new_request key token_everyone access_read) t).service
    later s t key e =
        can_access-ComesFrom c env now lawful (OfUser token_everyone) s t
          (new_request key token_everyone access_read) (OfUser-own key token_everyone) e

    list_each-files :
        (s t : Service c) (prefix : Text) (infos : List BlobInfo) (d : Contents)
        → Later s t
        → All (IsReadable s) d.files
        → let (d', t') = list_each c b env now glob prefix infos d t in
          All (IsReadable s) d'.files × Later s t'
    unfolding list_each
    list_each-files s t prefix [] d e a = (a, e)
    list_each-files s t prefix (info ∷ more) d e a =
        let req = new_request info.key token_everyone access_read in
        list_each-files s (can_access c env now req t).service prefix more _ (later s t info.key e)
          (step_files s prefix info d (can_access c env now req t).denial
            (can_access-IsGranted c env now lawful (OfUser token_everyone) s t req (info.key, refl)
              e)
            a)

    if_Shows :
        (srv : Server c b) (test : Bool) (x y : Page × Server c b)
        → (test ≡ true → Shows srv x)
        → (test ≡ false → Shows srv y)
        → Shows srv (if test then x else y)
    if_Shows srv true x y f g = f refl
    if_Shows srv false x y f g = g refl

    shown-IsOpen :
        (srv : Server c b) (key : Text) (o : Text ⊎ Text)
        → b.get key srv.blob.objects ≡ o
        → MayRead c env now key token_everyone srv.acl
        → is_some (lookup key srv.blob.index) ≡ true
        → IsOpen srv (shown c b env now glob key o)
    shown-IsOpen srv key (inl err) g r x = tt
    shown-IsOpen srv key (inr body) g r x = (r, x, g)

    serve_file-Shows :
        (srv t : Server c b) (key : Text)
        → t.blob ≡ srv.blob
        → Later srv.acl t.acl
        → Shows srv (serve_file c b env now glob key t)
    unfolding serve_file
    serve_file-Shows srv t key e f =
        let req = new_request key token_everyone access_read in
        let g = (later srv.acl t.acl key f).0 in
        if_Shows srv (not (is_some (lookup key t.blob.index))) _ _ (λ _. (tt, e, f.0))
          (λ x.
            if_Shows srv (is_some (can_access c env now req t.acl).denial) _ _ (λ _. (tt, e, g))
              (λ h. (
                shown-IsOpen srv key (b.get key t.blob.objects)
                    (ap (λ (s : BlobService b). b.get key s.objects) (sym e))
                    (can_access-IsGranted c env now lawful (OfUser token_everyone) srv.acl t.acl req
                      (key, refl) f (is_some-none _ h))
                    (ap (λ (s : BlobService b). is_some (lookup key s.index)) (sym e) ∙ true-not x),
                e,
                g,
              )))

    page_of-Shows :
        (path : Text) (serve_index : Bool) (d : Contents) (srv t : Server c b)
        → All (IsReadable srv.acl) d.files
        → t.blob ≡ srv.blob
        → Later srv.acl t.acl
        → Shows srv (page_of c b env now glob path serve_index d t)
    unfolding page_of
    page_of-Shows path serve_index d srv t a e f =
        if_Shows srv (d.has_index && serve_index)
          (serve_file c b env now glob (join_path path (codes "index.html")) t) _
          (λ _. serve_file-Shows srv t _ e f)
          (λ _.
            if_Shows srv (d.is_dir || empty_dir d) (folder_page path d, t)
              (serve_file c b env now glob path t) (λ _. (a, e, f.0))
              (λ _. serve_file-Shows srv t path e f))

    list_contents-files :
        (path : Text) (srv : Server c b)
        → let (d, t) = list_contents c b env now glob path srv in
          All (IsReadable srv.acl) d.files × (t.blob ≡ srv.blob) × Later srv.acl t.acl
    unfolding list_contents no_contents
    list_contents-files path srv =
        let (a, e) =
          list_each-files srv.acl srv.acl (with_slash path)
            (matching c b env now glob (filter_prefix (with_slash path) ++ codes "*")
              (map (λ e. e.1) srv.blob.index))
            (no_contents path) (ComesFrom-refl c env now (OfUser token_everyone) srv.acl) tt in
        (a, refl, e)

    -- The explorer shows only what everybody may read: each file of the page of a folder, and the
    -- file whose content is a page, was granted to everybody, by the rule of the tree that matches
    -- first or by a decision that the cache held when the request came, or has a path that begins
    -- with the name for everybody; such a file is in the index, and the content is what the store
    -- has under its key. A page changes neither the files nor the tree. The cache makes no entry up.
    pub handler-Shows :
        (path : Text) (serve_index : Bool) (srv : Server c b)
        → Shows srv (handler c b env now glob path serve_index srv)
    unfolding handler
    handler-Shows path serve_index srv =
        let (a, e, f) = list_contents-files path srv in
        page_of-Shows path serve_index (list_contents c b env now glob path srv).0 srv
          (list_contents c b env now glob path srv).1 a e f
