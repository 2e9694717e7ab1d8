-- ===== src/Acl/Tree/View.antt =====
-- The tree seen as a map from the parts of a path to what stands in the node there: all of its
-- fields but the version counter and the children.
use syftbox.Base.{
  ℕ, ◌≡◌, refl, Bool, true, false, ◌&&◌, List, [], ◌∷◌, Option, none, some, Text, text_eq, ◌==◌,
  arith, if◌then◌else◌,
}
use syftbox.Acl.Rule.{AclRule}
use syftbox.Acl.Node.{
  Node, node, leaf, child, get_child, find_child, set_child, put_child, delete_child,
  count_children, child_count,
}
use syftbox.Acl.Node.Lookup.{find_child-store_child, find_child-drop_child}

pub record View : Type 0 where
  pub rules : Option (List AclRule)
  pub terminal : Bool
  pub owner : Text
  pub path : Text
  pub depth : ℕ

abbrev pub view : Node → View
view (node rs cs i) = record {
  rules = rs;
  terminal = i.terminal;
  owner = i.owner;
  path = i.path;
  depth = i.depth;
}

-- What stands at the parts, below a node.
unfoldable pub view_at : List Text → Node → Option View
view_at [] n = some (view n)
view_at (p ∷ ps) n = elim (get_child p n) [ none ↦ none | some c ↦ view_at ps c ]

abbrev pub view_of_child : List Text → Option Node → Option View
view_of_child ps none = none
view_of_child ps (some c) = view_at ps c

pub view_at-cons :
    (p : Text) (ps : List Text) (n : Node) → view_at (p ∷ ps) n ≡ view_of_child ps (get_child p n)
unfolding view_at
view_at-cons p ps n = go (get_child p n)
  where
    go : (o : Option Node) → elim o [ none ↦ none | some c ↦ view_at ps c ] ≡ view_of_child ps o
    go none = refl
    go (some c) = refl

-- Equality of two lists of parts, and whether the first begins the second.
unfoldable pub same_parts : List Text → List Text → Bool
same_parts [] [] = true
same_parts (p ∷ ps) (q ∷ qs) = text_eq p q && same_parts ps qs
same_parts _ _ = false

unfoldable pub begins : List Text → List Text → Bool
begins [] qs = true
begins (p ∷ ps) [] = false
begins (p ∷ ps) (q ∷ qs) = text_eq p q && begins ps qs

view_of_if :
    (b : Bool) (qs : List Text) (c : Node) (o : Option Node)
    → view_of_child qs (if b then some c else o) ≡ (if b then view_at qs c else view_of_child qs o)
view_of_if true qs c o = refl
view_of_if false qs c o = refl

view_of_if_none :
    (b : Bool) (qs : List Text) (o : Option Node)
    → view_of_child qs (if b then none else o) ≡ (if b then none else view_of_child qs o)
view_of_if_none true qs o = refl
view_of_if_none false qs o = refl

-- A child that is stored is seen below its name.
pub view_at-put_child :
    (p q : Text) (qs : List Text) (c n : Node)
    → view_at (q ∷ qs) (put_child p c n)
      ≡ (if text_eq p q then view_at qs c else view_at (q ∷ qs) n)
unfolding put_child
view_at-put_child p q qs c (node rs cs i) =
    rw (view_at-cons q qs _, find_child-store_child p q c cs, view_at-cons q qs (node rs cs i))
      (view_of_if (text_eq p q) qs c (find_child q cs))

pub view_at-set_child :
    (p q : Text) (qs : List Text) (c n : Node)
    → view_at (q ∷ qs) (set_child p c n)
      ≡ (if text_eq p q then view_at qs c else view_at (q ∷ qs) n)
unfolding set_child
view_at-set_child p q qs c (node rs cs i) =
    rw (view_at-cons q qs _, find_child-store_child p q c cs, view_at-cons q qs (node rs cs i))
      (view_of_if (text_eq p q) qs c (find_child q cs))

pub view_at-delete_child :
    (p q : Text) (qs : List Text) (n : Node)
    → view_at (q ∷ qs) (delete_child p n) ≡ (if text_eq p q then none else view_at (q ∷ qs) n)
unfolding delete_child
view_at-delete_child p q qs (node rs cs i) =
    rw (view_at-cons q qs _, find_child-drop_child p q cs, view_at-cons q qs (node rs cs i))
      (view_of_if_none (text_eq p q) qs (find_child q cs))

pub view-set_child : (p : Text) (c n : Node) → view (set_child p c n) ≡ view n
unfolding set_child
view-set_child p c (node rs cs i) = refl

pub view-put_child : (p : Text) (c n : Node) → view (put_child p c n) ≡ view n
unfolding put_child
view-put_child p c (node rs cs i) = refl

-- Nothing stands below a node that has no children.
pub view_at_of_no_children :
    (q : Text) (qs : List Text) (n : Node) → (child_count n == 0) ≡ true → view_at (q ∷ qs) n ≡ none
unfolding find_child count_children
view_at_of_no_children q qs (node rs leaf i) h = view_at-cons q qs _
view_at_of_no_children q qs (node rs (child j m cs) i) h = ground arith
