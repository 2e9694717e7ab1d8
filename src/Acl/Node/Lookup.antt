-- ===== src/Acl/Node/Lookup.antt =====
-- The laws of the map of a node's children.
use syftbox.Base.{◌≡◌, refl, none, some, Text, text_eq, text_eq_iff, arith, if◌then◌else◌}
use syftbox.Acl.Node.{Node, Children, leaf, child, find_child, store_child, drop_child}

pub find_child-store_child :
    (k j : Text) (n : Node) (cs : Children)
    → find_child j (store_child k n cs) ≡ (if text_eq k j then some n else find_child j cs)
unfolding find_child store_child
find_child-store_child k j n leaf = refl
find_child-store_child k j n (child i m cs) =
    ground
      (arith, text_eq_iff k j, text_eq_iff i k, text_eq_iff i j, find_child-store_child k j n cs)

pub find_child-drop_child :
    (k j : Text) (cs : Children)
    → find_child j (drop_child k cs) ≡ (if text_eq k j then none else find_child j cs)
unfolding find_child drop_child
find_child-drop_child k j leaf = ground arith
find_child-drop_child k j (child i m cs) =
    ground (arith, text_eq_iff k j, text_eq_iff i k, text_eq_iff i j, find_child-drop_child k j cs)
