-- ===== src/Acl/Node.antt =====
-- internal/server/acl/node.go: a node of the tree. A pointer to a child is the child itself: no
-- node has two parents. The locks guard single operations, which are atomic here.
pub mod Lookup
use syftbox.Base.{
  ℕ, suc, ◌+◌, ◌%◌, Bool, true, false, ◌&&◌, List, [], ◌∷◌, Option, none, some, Text, text_eq, ◌==◌,
  is_some, if◌then◌else◌,
}
use syftbox.AclSpec.{Rule}
use syftbox.Acl.Matcher.{Env}
use syftbox.Acl.Rule.{AclRule, new_acl_rule}
use syftbox.Acl.Specificity.{sort_rules}

-- The version is a uint16 and wraps.
abbrev pub u16 : ℕ → ℕ
u16 n = n % 65536

-- The depth is a uint8.
abbrev pub u8 : ℕ → ℕ
u8 n = n % 256

abbrev pub acl_max_depth : ℕ
acl_max_depth = 255

-- The fields of a node that are no collections.
pub record Info : Type 0 where
  pub owner : Text
  pub path : Text
  pub terminal : Bool
  pub depth : ℕ
  pub version : ℕ

-- `ACLNode`: its rules, where `none` is the nil slice, its children by name, and the rest.
mutual
  pub data Node : Type 0 where
    node : Option (List AclRule) → Children → Info → Node

  pub data Children : Type 0 where
    leaf : Children
    child : Text → Node → Children → Children

abbrev pub rules_of : Node → Option (List AclRule)
rules_of (node rs cs i) = rs

abbrev pub children_of : Node → Children
children_of (node rs cs i) = cs

abbrev pub info_of : Node → Info
info_of (node rs cs i) = i

abbrev pub is_terminal : Node → Bool
is_terminal n = (info_of n).terminal

-- The map of the children.
unfoldable pub find_child : Text → Children → Option Node
unfolding text_eq
find_child k leaf = none
find_child k (child j n cs) = if text_eq j k then some n else find_child k cs

unfoldable pub store_child : Text → Node → Children → Children
unfolding text_eq
store_child k n leaf = child k n leaf
store_child k n (child j m cs) =
    if text_eq j k then child k n cs else child j m (store_child k n cs)

unfoldable pub drop_child : Text → Children → Children
unfolding text_eq
drop_child k leaf = leaf
drop_child k (child j m cs) =
    let rest = drop_child k cs in if text_eq j k then rest else child j m rest

unfoldable pub count_children : Children → ℕ
count_children leaf = 0
count_children (child j m cs) = suc (count_children cs)

-- `NewACLNode`
unfoldable pub new_node : Text → Text → Bool → ℕ → Node
new_node path owner terminal depth =
    node none leaf
      (record { owner = owner; path = path; terminal = terminal; depth = depth; version = 0 })

abbrev pub bump : Info → Info
bump i = record i { version = u16 (i.version + 1) }

-- `GetChild`
abbrev pub get_child : Text → Node → Option Node
get_child k (node rs cs i) = find_child k cs

-- `SetChild` with a child that is not nil
unfoldable pub set_child : Text → Node → Node → Node
unfolding store_child
set_child k c (node rs cs i) = node rs (store_child k c cs) (bump i)

-- A child that was changed through its pointer: the parent itself is not touched.
unfoldable pub put_child : Text → Node → Node → Node
unfolding store_child
put_child k c (node rs cs i) = node rs (store_child k c cs) i

-- `GetChildCount`
abbrev pub child_count : Node → ℕ
child_count (node rs cs i) = count_children cs

-- `DeleteChild`
unfoldable pub delete_child : Text → Node → Node
unfolding drop_child
delete_child k (node rs cs i) = node rs (drop_child k cs) (bump i)

-- The loop of `SetRules`: a rule that cannot be built is left out.
build_rules : Env → Text → Text → List Rule → List AclRule
unfolding new_acl_rule
build_rules env path owner [] = []
build_rules env path owner (r ∷ rs) =
    let rest = build_rules env path owner rs in
    elim (new_acl_rule env path owner r) [ none ↦ rest | some built ↦ built ∷ rest ]

-- The rules that `SetRules` stores in a node of this path and owner.
unfoldable pub rules_for : Env → Text → Text → List Rule → Option (List AclRule)
unfolding build_rules sort_rules
rules_for env path owner [] = none
rules_for env path owner (r ∷ rs) = some (build_rules env path owner (sort_rules (r ∷ rs)))

-- `SetRules`
unfoldable pub set_rules : Env → List Rule → Bool → Node → Node
set_rules env rs terminal (node old cs i) =
    node (rules_for env i.path i.owner rs) cs (bump (record i { terminal = terminal }))

-- `ClearRules`: the terminal flag stays.
unfoldable pub clear_rules : Node → Node
clear_rules (node rs cs i) = node none cs (bump i)
