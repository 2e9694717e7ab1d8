-- ===== src/Acl/Tree.antt =====
-- internal/server/acl/tree.go: the tree of rulesets. The tree is its root.
pub mod View
pub mod Add
pub mod Remove
pub mod Nearest
pub mod Rulesets
pub mod Leftover
use syftbox.Base.{
  ℕ, suc, ◌+◌, Bool, true, false, not, List, [], ◌∷◌, ◌++◌, Option, none, some, Text, codes,
  text_eq, ltb, ◌==◌, is_some, length, count_byte, split, if◌then◌else◌,
}
use syftbox.FilePath.{slash, is_empty}
use syftbox.AclSpec.{Rule, RuleSet}
use syftbox.Acl.Paths.{norm_path, path_segments, join_segments}
use syftbox.Acl.Level.{AclRequest}
use syftbox.Acl.Specificity.{first_part}
use syftbox.Acl.Matcher.{Env, Today}
use syftbox.Acl.Rule.{AclRule, rule_matches, is_true, compile}
use syftbox.Acl.Node.{
  Node, Children, u8, acl_max_depth, rules_of, is_terminal, get_child, find_child, count_children,
  child_count, new_node, set_child, put_child, delete_child, set_rules, clear_rules,
}

pub data TreeError : Type 0 where
  invalid_ruleset max_depth_exceeded no_rule : TreeError

-- `NewACLTree`
unfoldable pub new_tree : Node
new_tree = new_node (codes "/") [] false 0

module _ (env : Env) where
  -- The loop of `AddRuleSet` below a node: the parts walked so far and those to come. Children
  -- that are missing are made, with the depth cut to a uint8.
  unfoldable pub add_below : Text → List Rule → Bool → List Text → List Text → Node → Node
  add_below owner rules terminal done [] n = set_rules env rules terminal n
  add_below owner rules terminal done (p ∷ ps) n =
      let walked = done ++ (p ∷ []) in
      elim (get_child p n) [
        | some c ↦ put_child p (add_below owner rules terminal walked ps c) n
        | none ↦
            set_child p
              (add_below owner rules terminal walked ps
                (new_node (join_segments walked) owner false (u8 (length walked))))
              n
      ]

-- The new tree, or an error that leaves the tree as it was.
pub data Added : Type 0 where
  failed : TreeError → Added
  added : Node → Added

abbrev pub all_rules : Option RuleSet → List Rule
all_rules none = []
all_rules (some s) = elim s.rules [ none ↦ [] | some rs ↦ rs ]

-- `AddRuleSet` on a ruleset whose path is cleaned, from the test of the owner on.
unfoldable pub add_cleaned : Env → Text → List Rule → Bool → Node → Added
add_cleaned env clean_path rules terminal root =
    let parts = split slash clean_path in
    if is_empty (first_part parts)
    then failed invalid_ruleset
    else if ltb acl_max_depth (count_byte slash clean_path)
    then failed max_depth_exceeded
    else added (add_below env (first_part parts) rules terminal [] parts root)

-- `AddRuleSet`
unfoldable pub add_rule_set : Env → Option RuleSet → Node → Added
add_rule_set env none root = failed invalid_ruleset
add_rule_set env (some s) root = elim (all_rules (some s)) [
  | [] ↦ failed invalid_ruleset
  | r ∷ rs ↦ add_cleaned env (norm_path s.path) (r ∷ rs) s.terminal root
]

-- The end of `RemoveRuleSet` at a node that was found: it is cut off if it has no children.
unfoldable pub remove_child : Text → Node → Node → Node
remove_child p c n = if child_count c == 0 then delete_child p n else put_child p (clear_rules c) n

-- The loop of `RemoveRuleSet` below a node, from a first part on (there always is one); `none` is
-- a part with no child.
unfoldable pub remove_below : Text → List Text → Node → Option Node
remove_below p [] n = elim (get_child p n) [ none ↦ none | some c ↦ some (remove_child p c n) ]
remove_below p (q ∷ ps) n = elim (get_child p n) [
  | none ↦ none
  | some c ↦ elim (remove_below q ps c) [ none ↦ none | some c' ↦ some (put_child p c' n) ]
]

unfoldable pub remove_parts : List Text → Node → Option Node
remove_parts [] root = none
remove_parts (p ∷ ps) root = remove_below p ps root

-- `RemoveRuleSet`; `none` is `false`, with the tree unchanged.
unfoldable pub remove_rule_set : Text → Node → Option Node
remove_rule_set path root = remove_parts (path_segments (norm_path path)) root

-- A node with rules becomes the candidate.
abbrev pub better : Node → Option Node → Option Node
better n candidate = if is_some (rules_of n) then some n else candidate

-- The loop of `GetNearestNode`.
unfoldable pub nearest_below : List Text → Node → Option Node → Option Node
nearest_below [] current candidate = candidate
nearest_below (p ∷ ps) current candidate =
    if is_terminal current then candidate else elim (get_child p current) [
      | none ↦ candidate
      | some c ↦ nearest_below ps c (better c candidate)
    ]

-- `GetNearestNode`
unfoldable pub nearest_node : Text → Node → Option Node
nearest_node path root = nearest_below (path_segments (norm_path path)) root (better root none)

-- The loop of `GetNode`.
unfoldable pub node_below : List Text → Node → Node
node_below [] current = current
node_below (p ∷ ps) current =
    if is_terminal current
    then current
    else elim (get_child p current) [ none ↦ current | some c ↦ node_below ps c ]

-- `GetNode`
unfoldable pub get_node : Text → Node → Node
get_node path root = node_below (path_segments (norm_path path)) root

-- The loop of `GetCompiledRule` over the rules of the node. A rule whose match fails is passed over.
unfoldable pub first_match : Env → Today → Text → Text → List AclRule → Option AclRule
first_match env now path user [] = none
first_match env now path user (r ∷ rs) =
    let rest = first_match env now path user rs in
    if is_true (rule_matches env now r path user) then some (compile r user) else rest

abbrev or_none : Option (List AclRule) → List AclRule
or_none none = []
or_none (some rs) = rs

-- The rules of a node that may be nil.
abbrev pub node_rules : Option Node → List AclRule
node_rules none = []
node_rules (some n) = or_none (rules_of n)

-- `GetCompiledRule`; its one error is `ErrNoRule`, with no node or with no rule that matches.
unfoldable pub get_compiled_rule : Env → Today → AclRequest → Node → Option AclRule
get_compiled_rule env now req root =
    first_match env now req.path req.user (node_rules (nearest_node req.path root))
