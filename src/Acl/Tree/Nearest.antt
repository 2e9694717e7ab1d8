-- ===== src/Acl/Tree/Nearest.antt =====
-- `GetNearestNode` as a function of the map that the tree stands for.
use mathlib.Core.Option
use mathlib.Core.Path.{fun_ext}
use syftbox.Base.{
  ◌≡◌, refl, sym, ◌∙◌, ap, Bool, true, false, List, [], ◌∷◌, ◌++◌, Option, none, some, Text,
  text_eq_refl, if◌then◌else◌, is_some,
}
use syftbox.Acl.Node.{Node, node, get_child}
use syftbox.Acl.Tree.{nearest_below, better}
use syftbox.Acl.Tree.View.{View, view, view_at, view_at-cons, view_of_child, begins}

-- What the tree stands for.
abbrev pub Layout : Type 0
Layout = List Text → Option View

abbrev pub layout : Node → Layout
layout n parts = view_at parts n

abbrev pub is_stop : Option View → Bool
is_stop none = false
is_stop (some v) = v.terminal

-- An entry with rules takes the place of the candidate.
abbrev pub better_view : Option View → Option View → Option View
better_view none candidate = candidate
better_view (some v) candidate = if is_some v.rules then some v else candidate

-- The entry that governs a path: the longest beginning of the path that has rules, no further
-- than the first terminal entry. An absent entry is no obstacle.
unfoldable pub governing : Layout → List Text → Option View → Option View
governing L [] candidate = candidate
governing L (p ∷ ps) candidate =
    if is_stop (L [])
    then candidate
    else governing (λ q. L (p ∷ q)) ps (better_view (L (p ∷ [])) candidate)

abbrev blank : Layout
blank _ = none

governing-blank : (ps : List Text) (c : Option View) → governing blank ps c ≡ c
unfolding governing
governing-blank [] c = refl
governing-blank (p ∷ ps) c = governing-blank ps c

abbrev child_layout : Option Node → Layout
child_layout o q = view_of_child q o

layout_below :
    (p : Text) (n : Node) → (λ (q : List Text). view_at (p ∷ q) n) ≡ child_layout (get_child p n)
layout_below p n = fun_ext (λ q. view_at-cons p q n)

pub view-better :
    (n : Node) (c : Option Node)
    → Option.map view (better n c) ≡ better_view (some (view n)) (Option.map view c)
view-better (node none cs i) c = refl
view-better (node (some rs) cs i) c = refl

-- One step of the walk over what the child shows.
governing_child :
    (o : Option Node) (ps : List Text) (c : Option View)
    → governing (child_layout o) ps (better_view (view_of_child [] o) c)
      ≡ elim o [ none ↦ c | some n ↦ governing (layout n) ps (better_view (some (view n)) c) ]
unfolding view_at
governing_child none ps c = governing-blank ps c
governing_child (some n) ps c = refl

governing_below :
    (p : Text) (n : Node) (ps : List Text) (c : Option View)
    → governing (λ q. view_at (p ∷ q) n) ps (better_view (view_at (p ∷ []) n) c)
      ≡ elim (get_child p n) [
        | none ↦ c
        | some m ↦ governing (layout m) ps (better_view (some (view m)) c)
      ]
governing_below p n ps c =
    ap (λ L. governing L ps (better_view (L []) c)) (layout_below p n)
    ∙ governing_child (get_child p n) ps c

-- The node that the loop finds, given that its rest finds the entry that governs.
view_step :
    (ps : List Text) (c : Option Node) (o : Option Node)
    → ((m : Node) (d : Option Node)
        → Option.map view (nearest_below ps m d) ≡ governing (layout m) ps (Option.map view d))
    → Option.map view (elim o [ none ↦ c | some m ↦ nearest_below ps m (better m c) ]) ≡ elim o [
      | none ↦ Option.map view c
      | some m ↦ governing (layout m) ps (better_view (some (view m)) (Option.map view c))
    ]
view_step ps c none ih = refl
view_step ps c (some m) ih =
    ih m (better m c) ∙ ap (λ d. governing (layout m) ps d) (view-better m c)

map-view-if :
    (b : Bool) (c d : Option Node)
    → Option.map view (if b then c else d) ≡ (if b then Option.map view c else Option.map view d)
map-view-if true c d = refl
map-view-if false c d = refl

pub view-nearest_below :
    (ps : List Text) (n : Node) (c : Option Node)
    → Option.map view (nearest_below ps n c) ≡ governing (layout n) ps (Option.map view c)
unfolding nearest_below governing view_at
view-nearest_below [] n c = refl
view-nearest_below (p ∷ ps) (node rs cs i) c =
    let n = node rs cs i in
    map-view-if i.terminal c _
    ∙ ap (λ d. if i.terminal then Option.map view c else d)
        (view_step ps c (get_child p n) (view-nearest_below ps)
          ∙ sym (governing_below p n ps (Option.map view c)))

-- Two layouts with the same marks on the way to a path have the same entry govern it.
pub governing_congr :
    (L M : Layout) (ps : List Text) (c : Option View)
    → ((q : List Text)
        → begins q ps ≡ true
        → (is_stop (L q) ≡ is_stop (M q))
          × ((d : Option View) → better_view (L q) d ≡ better_view (M q) d))
    → governing L ps c ≡ governing M ps c
unfolding governing begins
governing_congr L M [] c h = refl
governing_congr L M (p ∷ ps) c h =
    rw ((h [] refl).0, (h (p ∷ []) (rw (text_eq_refl p))).1 c)
      (ap (λ e. if is_stop (M []) then c else e)
        (governing_congr (λ q. L (p ∷ q)) (λ q. M (p ∷ q)) ps (better_view (M (p ∷ [])) c)
          (λ q b. h (p ∷ q) (rw (text_eq_refl p) b))))

-- Nothing governs from beyond a terminal entry.
pub governing_beyond_stop :
    (L : Layout) (ps qs : List Text) (c : Option View)
    → is_stop (L ps) ≡ true
    → governing L (ps ++ qs) c ≡ governing L ps c
unfolding governing
governing_beyond_stop L [] [] c h = refl
governing_beyond_stop L [] (q ∷ qs) c h = rw h
governing_beyond_stop L (p ∷ ps) qs c h =
    ap (λ e. if is_stop (L []) then c else e)
      (governing_beyond_stop (λ q. L (p ∷ q)) ps qs (better_view (L (p ∷ [])) c) h)
