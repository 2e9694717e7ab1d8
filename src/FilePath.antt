-- ===== src/FilePath.antt =====
-- Go's `path/filepath` on a system whose separator is the slash, as the program calls it.
-- `filepath.ToSlash` is the identity there. The byte loop of `Clean` is read as a loop over the
-- segments between the slashes, with the written segments on a stack, the last one on top.
pub mod Laws
use mathlib.Core.List.{foldl, reverse}
use syftbox.Base.{
  ℕ, Bool, true, false, not, ◌&&◌, ◌||◌, List, [], ◌∷◌, ◌==◌, if◌then◌else◌, Text, codes, text_eq,
  has_prefix, split, join, trim_left, onto_first,
}

abbrev pub slash : ℕ
slash = b'/'

abbrev pub dot : Text
dot = codes "."

abbrev pub dotdot : Text
dotdot = codes ".."

unfoldable pub is_empty : Text → Bool
is_empty [] = true
is_empty (_ ∷ _) = false

-- A `..` takes the last segment away. At the root it is dropped, and above the start it is kept.
go_up : Bool → List Text → List Text
go_up rooted [] = if rooted then [] else dotdot ∷ []
go_up rooted (s ∷ st) = if text_eq s dotdot then dotdot ∷ s ∷ st else st

unfoldable pub push : Bool → List Text → Text → List Text
unfolding go_up text_eq is_empty
push rooted st s =
    if is_empty s || text_eq s dot then st else if text_eq s dotdot then go_up rooted st else s ∷ st

abbrev pub is_rooted : Text → Bool
is_rooted [] = false
is_rooted (c ∷ _) = c == slash

-- The segments that `filepath.Clean` keeps.
unfoldable pub clean_segs : Text → List Text
unfolding push split
clean_segs p = reverse (foldl (push (is_rooted p)) [] (split slash p))

abbrev pub or_dot : Text → Text
or_dot [] = dot
or_dot (c ∷ s) = c ∷ s

-- `filepath.Clean(p)`
unfoldable pub clean : Text → Text
unfolding clean_segs join
clean p = let body = join slash (clean_segs p) in if is_rooted p then slash ∷ body else or_dot body

-- `strings.TrimRight(s, "/")`
trim_right : Text → Text
unfolding is_empty
trim_right [] = []
trim_right (c ∷ s) = let r = trim_right s in if c == slash && is_empty r then [] else c ∷ r

unfoldable pub last_of : List Text → Text
last_of [] = []
last_of (p ∷ []) = p
last_of (p ∷ q ∷ ps) = last_of (q ∷ ps)

abbrev pub or_slash : Text → Text
or_slash [] = slash ∷ []
or_slash (c ∷ s) = c ∷ s

-- `filepath.Base(p)`: the part behind the last slash, trailing slashes aside.
unfoldable pub base : Text → Text
unfolding trim_right last_of split is_empty
base p = if is_empty p then dot else or_slash (last_of (split slash (trim_right p)))

-- `filepath.Join(p, q)`: empty elements are left out, and the result is cleaned.
unfoldable pub join_path : Text → Text → Text
unfolding clean is_empty
join_path p q =
    if is_empty p
    then (if is_empty q then [] else clean q)
    else if is_empty q
    then clean p
    else clean (join slash (p ∷ q ∷ []))
