-- ===== src/Acl/Level.antt =====
-- internal/server/acl/level.go and types.go: access levels (a uint8) and requests.
use Prim.Native.Nat.{bit_and}
use syftbox.Base.{
  ℕ, Bool, List, [], ◌∷◌, ◌++◌, Option, none, some, Text, codes, ◌==◌, if◌then◌else◌,
}
use syftbox.Base.Int.{ℤ}
use syftbox.Acl.Paths.{norm_path}

abbrev pub Level : Type 0
Level = ℕ

abbrev pub access_read : Level
access_read = 1

abbrev pub access_create : Level
access_create = 2

abbrev pub access_write : Level
access_write = 4

abbrev pub access_admin : Level
access_admin = 8

named : Level → Level → Text → List Text
named a bit name = if bit_and a bit == bit then name ∷ [] else []

-- The names of the bits that are set, in the order of the source.
level_parts : Level → List Text
unfolding named
level_parts a =
    named a access_read (codes "Read")
    ++ (named a access_create (codes "Create")
        ++ (named a access_write (codes "Write") ++ named a access_admin (codes "Admin")))

-- The loop that joins the further names by a plus sign.
add_parts : Text → List Text → Text
add_parts acc [] = acc
add_parts acc (p ∷ ps) = add_parts (acc ++ (b'+' ∷ p)) ps

level_name : List Text → Text
unfolding add_parts
level_name [] = codes "Unknown"
level_name (p ∷ ps) = add_parts p ps

-- `AccessLevel.String`
unfoldable pub level_string : Level → Text
unfolding level_parts level_name
level_string a = if a == 0 then codes "None" else level_name (level_parts a)

pub record File : Type 0 where
  pub is_dir : Bool
  pub is_symlink : Bool
  pub size : ℤ  -- int64

-- `ACLRequest`; `user` is the field `ID` of the user.
pub record AclRequest : Type 0 where
  pub path : Text
  pub level : Level
  pub user : Text
  pub file : Option File

-- `NewRequest`
unfoldable pub new_request : Text → Text → Level → AclRequest
unfolding norm_path
new_request path user level = record {
  path = norm_path path;
  level = level;
  user = user;
  file = none;
}

-- `NewRequestWithFile`
unfoldable pub new_request_with_file : Text → Text → Level → File → AclRequest
unfolding new_request
new_request_with_file path user level file =
    let req = new_request path user level in record req { file = some file }
