-- ===== src/Tests/Acl.antt =====
-- Runs of the access control, and its theorems at concrete data.
use mathlib.Core.Option
use syftbox.Base.{
  ◌≡◌, ◌≢◌, refl, true, false, [], ◌∷◌, none, some, Text, codes, text_eq, has_prefix, contains,
  contains_any, count_byte, trim_left, trim_suffix, onto_first, split, join, arith, is_some, ◌⊎◌,
}
use syftbox.Base.Dict
use syftbox.Base.Int.{◌-ℤ◌, pos}
use syftbox.FilePath.{is_empty, push, clean_segs, clean, last_of, base}
use syftbox.AclSpec.{is_acl_file, without_acl_path, has_member, RuleSet, Access}
use syftbox.Acl.Paths.{norm_path, path_segments, join_segments}
use syftbox.Acl.Level.{AclRequest, access_read, access_write, access_admin, level_string, File}
use syftbox.Acl.Matcher.{
  has_glob_pattern, has_template_pattern, matcher_from_resolved, matcher_from_pattern,
  new_template_data, match_resolved, match, glob,
}
use syftbox.Acl.Rule.{
  AclRule, resolve_access_list, new_acl_rule, rule_matches, member_matches, has_access, is_admin,
  is_writer, is_reader, check_level, check_access, check_file, check_limits, has_user_token,
  compile,
}
use syftbox.Acl.Specificity.{specificity, sort_rules, first_part, is_owner}
use syftbox.Acl.Node.{
  Node, find_child, store_child, drop_child, count_children, new_node, set_child, put_child,
  delete_child, rules_for, set_rules, clear_rules,
}
use syftbox.Acl.Tree.{
  added, all_rules, new_tree, add_below, add_cleaned, add_rule_set, remove_child, remove_below,
  remove_parts, remove_rule_set, nearest_below, nearest_node, node_below, get_node, first_match,
  get_compiled_rule,
}
use syftbox.Acl.Rule.Hierarchy.{check_access_hierarchy}
use syftbox.Acl.Tree.View.{view, view_at, begins, same_parts}
use syftbox.Acl.Tree.Add.{entry_after}
use syftbox.Acl.Tree.Rulesets.{
  governed, stored, added_of_accepted, view-nearest_node, view_at-add_rule_set,
}
use syftbox.Acl.Tree.Remove.{node_at, IsWithout, left_of, removed_parts, remove_rule_set-IsWithout}
use syftbox.Acl.Tree.Leftover.{nearest_node-remove_rule_set_terminal}
use syftbox.Acl.Service.Decisions.{can_access_acl_file}
use syftbox.Acl.Service.Invalidation.{can_access-service_add, can_access-service_remove}
use syftbox.Acl.Cache.{cache_key, delete_key, delete_keys, delete_prefix}
use syftbox.Acl.Service.{
  Service, new_service, service_add, service_remove, decide, elevate, limit_error, rule_denial,
  evaluate, can_access,
}
use syftbox.Tests.Samples.{
  env, now, table, alice, bob, root_rules, open_rules, deep_rules, request, access, rule,
  table-IsLawful,
}

-- All that a run of the access control computes with.
unfoldable pub opened : Unit {0}
unfolding text_eq has_prefix contains contains_any count_byte trim_left trim_suffix onto_first split
    join Dict.lookup Dict.insert Dict.erase ◌-ℤ◌ is_empty push clean_segs clean last_of base
    is_acl_file without_acl_path has_member norm_path path_segments join_segments level_string
    has_glob_pattern has_template_pattern matcher_from_resolved matcher_from_pattern
    new_template_data match_resolved match resolve_access_list new_acl_rule rule_matches
    member_matches has_access is_admin is_writer is_reader check_level check_access check_file
    check_limits has_user_token compile specificity sort_rules first_part is_owner find_child
    store_child drop_child count_children new_node set_child put_child delete_child rules_for
    set_rules clear_rules new_tree add_below add_cleaned add_rule_set remove_child remove_below
    remove_parts remove_rule_set nearest_below nearest_node node_below get_node first_match
    get_compiled_rule cache_key delete_key delete_keys delete_prefix new_service service_add
    service_remove decide elevate limit_error rule_denial evaluate can_access begins same_parts
opened = tt

abbrev add : RuleSet → Service table → Service table
add rs s = (service_add table env rs s).1

abbrev pub start : Service table
start = add deep_rules (add open_rules (add root_rules (new_service table)))

abbrev pub_file : Text
pub_file = codes "alice@x.co/pub/a.txt"

clean_runs :
    (clean (codes "/a/../../b/./c//d/") ≡ codes "/b/c/d")
    × (clean (codes "a/../../b") ≡ codes "../b")
    × (clean [] ≡ codes ".")
    × (norm_path (codes "//a/b/") ≡ codes "a/b")
    × (base (codes "a/b//") ≡ codes "b")
unfolding opened
clean_runs = (refl, refl, refl, refl, refl)

level_names : level_string 5 ≡ codes "Read+Write"
unfolding opened
level_names = refl

write_granted : (can_access table env now (request pub_file bob access_write) start).denial ≡ none
unfolding opened
write_granted = refl

root_write_denied :
    is_some
      (can_access table env now (request (codes "alice@x.co/b") bob access_write) start).denial
    ≡ true
unfolding opened
root_write_denied = refl

padded_not_root : norm_path (codes "//a/b/") ≢ []
unfolding opened
padded_not_root e = cc

can_access-service_add_example :
    let before = (can_access table env now (request pub_file bob access_write) start).service in
    let after = add root_rules before in
    (add_rule_set env (some root_rules) before.tree ≡ added after.tree)
    × ((can_access table env now (request pub_file bob access_write) after).denial
        ≡ (evaluate table env now (request pub_file bob access_write) after).denial)
unfolding opened
can_access-service_add_example =
    let before = (can_access table env now (request pub_file bob access_write) start).service in
    can_access-service_add table table-IsLawful env now root_rules before (add root_rules before)
      (request pub_file bob access_write) refl refl refl

can_access-service_remove_example :
    let before = (can_access table env now (request pub_file bob access_write) start).service in
    let after = (service_remove table (codes "alice@x.co/pub/syft.pub.yaml") before).1 in
    (remove_rule_set (without_acl_path (codes "alice@x.co/pub/syft.pub.yaml")) before.tree
      ≡ some after.tree)
    × ((can_access table env now (request pub_file bob access_write) after).denial
        ≡ (evaluate table env now (request pub_file bob access_write) after).denial)
unfolding opened
can_access-service_remove_example =
    let before = (can_access table env now (request pub_file bob access_write) start).service in
    let path = codes "alice@x.co/pub/syft.pub.yaml" in
    can_access-service_remove table table-IsLawful env now path before
      (service_remove table path before).1 (request pub_file bob access_write) refl refl refl

abbrev acl_write : AclRequest
acl_write = request (codes "alice@x.co/pub/syft.pub.yaml") bob access_write

can_access_acl_file_example :
    (r : AclRule) × (get_compiled_rule env now acl_write start.tree ≡ some r)
    × ((r.owner ≡ bob) ⊎ ((a : Access) × (r.rule.access ≡ some a) × (is_admin env a bob ≡ true)))
unfolding opened
can_access_acl_file_example =
    can_access_acl_file table env now acl_write start refl refl refl refl refl

abbrev big_link : File
big_link = record { is_dir = false; is_symlink = true; size = pos 7 }

view-nearest_node_example :
    Option.map view (nearest_node pub_file start.tree)
    ≡ governed start.tree (path_segments (norm_path pub_file))
view-nearest_node_example = view-nearest_node pub_file start.tree

view_at-add_rule_set_example :
    view_at (alice ∷ codes "pub" ∷ []) (stored env open_rules start.tree)
    ≡ entry_after env alice
        (all_rules (some open_rules))
        true
        []
        (alice ∷ codes "pub" ∷ [])
        (alice ∷ codes "pub" ∷ [])
        (view_at (alice ∷ codes "pub" ∷ []) start.tree)
unfolding opened
view_at-add_rule_set_example =
    view_at-add_rule_set env open_rules start.tree (stored env open_rules start.tree)
      (alice ∷ codes "pub" ∷ []) (added_of_accepted env open_rules start.tree refl)

abbrev without_pub : Node
without_pub = (service_remove table (codes "alice@x.co/pub/") start).1.tree

abbrev pub_node : Node
pub_node = get_node (codes "alice@x.co/pub") start.tree

remove_rule_set-IsWithout_example :
    (c : Node) × (node_at (removed_parts (codes "alice@x.co/pub/")) start.tree ≡ some c)
    × IsWithout (removed_parts (codes "alice@x.co/pub/")) (left_of c) start.tree without_pub
unfolding opened
remove_rule_set-IsWithout_example =
    remove_rule_set-IsWithout (codes "alice@x.co/pub/") start.tree without_pub refl

nearest_node-remove_rule_set_terminal_example :
    Option.map view (nearest_node (codes "alice@x.co/pub/in/f") without_pub)
    ≡ Option.map view (nearest_node (codes "alice@x.co/pub/") without_pub)
unfolding opened node_at
nearest_node-remove_rule_set_terminal_example =
    nearest_node-remove_rule_set_terminal (codes "alice@x.co/pub/") (codes "alice@x.co/pub/in/f")
      start.tree without_pub pub_node (codes "in" ∷ codes "f" ∷ []) refl refl refl refl refl

abbrev admins : AclRule
admins = record {
  full_pattern = codes "alice@x.co/**";
  rule = rule (codes "**") (access (bob ∷ []) [] []);
  owner = alice;
  matcher = glob (codes "alice@x.co/**");
}

check_access_hierarchy_example : check_access env admins (request pub_file bob access_read) ≡ none
unfolding opened
check_access_hierarchy_example =
    check_access_hierarchy env admins (request pub_file bob access_admin) access_read refl
      (omega arith) (omega arith)
