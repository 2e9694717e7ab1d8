-- ===== src/Datasite/View.antt =====
-- internal/server/datasite/datasite.go, GetView: the files that a user may read.
use syftbox.Base.{List, [], ◌∷◌, Text, is_some, if◌then◌else◌}
use syftbox.Acl.Level.{new_request, access_read}
use syftbox.Acl.Matcher.{Env, Today}
use syftbox.Acl.Cache.{Lru}
use syftbox.Acl.Service.{Service, can_access}
use syftbox.Blob.{BlobInfo, Backend, BlobService}

module _ (c : Lru) (b : Backend) (env : Env) (now : Today) where
  -- The loop of `GetView`: each test may change the cache.
  unfoldable pub view_each : Text → List (Text × BlobInfo) → Service c → List BlobInfo × Service c
  unfolding can_access new_request
  view_each user [] s = ([], s)
  view_each user ((_, info) ∷ more) s =
      let out = can_access c env now (new_request info.key user access_read) s in
      let (view, s') = view_each user more out.service in
      (if is_some out.denial then view else info ∷ view, s')

  -- `GetView`
  unfoldable pub get_view : Text → BlobService b → Service c → List BlobInfo × Service c
  unfolding view_each
  get_view user blob s = view_each user blob.index s
