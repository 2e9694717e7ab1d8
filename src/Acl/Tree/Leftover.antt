-- ===== src/Acl/Tree/Leftover.antt =====
-- What a removal means for the paths below.
use mathlib.Core.Option
use mathlib.Core.Option.{some-injective}
use syftbox.Base.{
  ◌≡◌, refl, sym, ◌∙◌, ap, true, false, List, [], ◌∷◌, ◌++◌, some, Text, text_eq_refl, ◌==◌,
}
use syftbox.Acl.Paths.{norm_path, path_segments}
use syftbox.Acl.Node.{Node, node, child_count, is_terminal}
use syftbox.Acl.Tree.{remove_rule_set, nearest_node}
use syftbox.Acl.Tree.View.{view, view_at, same_parts}
use syftbox.Acl.Tree.Nearest.{is_stop, layout, governing_beyond_stop}
use syftbox.Acl.Tree.Rulesets.{governed, view-nearest_node}
use syftbox.Acl.Tree.Remove.{node_at, removed_parts, remove_rule_set-IsWithout}

same_parts_refl : (ps : List Text) → same_parts ps ps ≡ true
unfolding same_parts
same_parts_refl [] = refl
same_parts_refl (p ∷ ps) = rw (text_eq_refl p) (same_parts_refl ps)

is_terminal-view : (n : Node) → (view n).terminal ≡ is_terminal n
is_terminal-view (node rs cs i) = refl

stop_left :
    (path : Text) (root t c : Node)
    → remove_rule_set path root ≡ some t
    → node_at (removed_parts path) root ≡ some c
    → is_terminal c ≡ true
    → (child_count c == 0) ≡ false
    → is_stop (view_at (removed_parts path) t) ≡ true
stop_left path root t c h f s m =
    let (c', found, without) = remove_rule_set-IsWithout path root t h in
    let same : c' ≡ c = some-injective c' c (sym found ∙ f) in
    rw (without (removed_parts path), same_parts_refl (removed_parts path), same, m)
      (is_terminal-view c ∙ s)

-- After a ruleset was removed from a terminal node that has children, no ruleset below governs: a
-- path below the removed one is governed like the removed path itself.
pub nearest_node-remove_rule_set_terminal :
    (path below : Text) (root t c : Node) (more : List Text)
    → remove_rule_set path root ≡ some t
    → node_at (removed_parts path) root ≡ some c
    → is_terminal c ≡ true
    → (child_count c == 0) ≡ false
    → path_segments (norm_path below) ≡ removed_parts path ++ more
    → Option.map view (nearest_node below t) ≡ Option.map view (nearest_node path t)
nearest_node-remove_rule_set_terminal path below root t c more h f s m e =
    view-nearest_node below t
    ∙ ap (λ q. governed t q) e
    ∙ governing_beyond_stop (layout t) (removed_parts path) more _ (stop_left path root t c h f s m)
    ∙ sym (view-nearest_node path t)
