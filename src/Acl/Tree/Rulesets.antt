-- ===== src/Acl/Tree/Rulesets.antt =====
-- `AddRuleSet` and `GetNearestNode` together: what a new ruleset governs and what it does not.
use mathlib.Core.Option
use syftbox.Base.{
  ◌≡◌, refl, sym, ◌∙◌, ap, Bool, true, false, ◌||◌, List, [], ◌∷◌, Option, none, some, Text,
  eq_of_text_eq, arith, Bool-cases, inl, inr, split, ltb, count_byte,
}
use syftbox.FilePath.{slash, is_empty}
use syftbox.AclSpec.{Rule, RuleSet}
use syftbox.Acl.Paths.{norm_path, path_segments}
use syftbox.Acl.Specificity.{first_part}
use syftbox.Acl.Matcher.{Env}
use syftbox.Acl.Node.{Node, acl_max_depth}
use syftbox.Acl.Tree.{added, all_rules, add_below, add_cleaned, add_rule_set, nearest_node, better}
use syftbox.Acl.Tree.View.{View, view, view_at, begins, same_parts}
use syftbox.Acl.Tree.Add.{fresh, or_fresh, entry_after, view_at-add_below}
use syftbox.Acl.Tree.Nearest.{
  layout, is_stop, better_view, governing, view-nearest_below, view-better, governing_congr,
}

-- The parts at which a ruleset is stored.
abbrev pub parts_of : RuleSet → List Text
parts_of s = split slash (norm_path s.path)

-- The entry that governs a path in a tree.
abbrev pub governed : Node → List Text → Option View
governed n parts = governing (layout n) parts (better_view (layout n []) none)

-- The tests of `AddRuleSet` that refuse a ruleset.
abbrev pub refused : RuleSet → Bool
refused s =
    elim (all_rules (some s)) [ [] ↦ true | _ ∷ _ ↦ false ]
    || is_empty (first_part (parts_of s))
    || ltb acl_max_depth (count_byte slash (norm_path s.path))

pub stored : Env → RuleSet → Node → Node
stored env s root =
    add_below env (first_part (parts_of s)) (all_rules (some s)) s.terminal [] (parts_of s) root

pub added_of_accepted :
    (env : Env) (s : RuleSet) (root : Node)
    → refused s ≡ false
    → add_rule_set env (some s) root ≡ added (stored env s root)
unfolding add_rule_set add_cleaned stored
added_of_accepted env s root h = ground arith

pub stored_of_added :
    (env : Env) (s : RuleSet) (root t : Node)
    → add_rule_set env (some s) root ≡ added t
    → (refused s ≡ false) × (t ≡ stored env s root)
unfolding add_rule_set add_cleaned stored
stored_of_added env s root t h = ground arith

same_parts-begins :
    (q ps qs : List Text) → same_parts q ps ≡ true → begins q qs ≡ true → begins ps qs ≡ true
unfolding same_parts begins
same_parts-begins [] [] qs h b = refl
same_parts-begins [] (p ∷ ps) qs h b = cc
same_parts-begins (x ∷ q) [] qs h b = cc
same_parts-begins (x ∷ q) (p ∷ ps) [] h b = cc
same_parts-begins (x ∷ q) (p ∷ ps) (y ∷ qs) h b =
    ground (arith, same_parts-begins q ps qs, eq_of_text_eq x p)

-- An entry that is only made on the way changes no mark.
or_fresh_marks :
    (b : Bool) (owner : Text) (parts : List Text) (old : Option View)
    → (is_stop (or_fresh b (fresh owner parts) old) ≡ is_stop old)
      × ((d : Option View) → better_view (or_fresh b (fresh owner parts) old) d ≡ better_view old d)
or_fresh_marks true owner parts none = (refl, λ d. refl)
or_fresh_marks false owner parts none = (refl, λ d. refl)
or_fresh_marks b owner parts (some v) = (refl, λ d. refl)

entry_after_marks :
    (env : Env) (owner : Text) (rules : List Rule) (terminal : Bool) (ps q : List Text)
    (old : Option View)
    → same_parts q ps ≡ false
    → let new = entry_after env owner rules terminal [] ps q old in
      (is_stop new ≡ is_stop old) × ((d : Option View) → better_view new d ≡ better_view old d)
entry_after_marks env owner rules terminal ps q old h =
    rw h (or_fresh_marks (begins q ps) owner q old)

-- Layouts that agree on the marks on the way have the same entry govern.
governed_congr :
    (m n : Node) (qs : List Text)
    → ((q : List Text)
        → begins q qs ≡ true
        → (is_stop (layout m q) ≡ is_stop (layout n q))
          × ((d : Option View) → better_view (layout m q) d ≡ better_view (layout n q) d))
    → governed m qs ≡ governed n qs
unfolding begins
governed_congr m n qs h =
    governing_congr (layout m) (layout n) qs (better_view (layout m []) none) h
    ∙ ap (λ c. governing (layout n) qs c) ((h [] refl).1 none)

stored_marks :
    (env : Env) (s : RuleSet) (root : Node) (q : List Text)
    → same_parts q (parts_of s) ≡ false
    → (is_stop (layout (stored env s root) q) ≡ is_stop (layout root q))
      × ((d : Option View)
          → better_view (layout (stored env s root) q) d ≡ better_view (layout root q) d)
unfolding stored
stored_marks env s root q h =
    rw
      (view_at-add_below env (first_part (parts_of s)) (all_rules (some s)) s.terminal []
        (parts_of s) q root)
      (entry_after_marks env (first_part (parts_of s)) (all_rules (some s)) s.terminal (parts_of s)
        q (view_at q root) h)

not_same_parts :
    (q ps qs : List Text) → begins ps qs ≡ false → begins q qs ≡ true → same_parts q ps ≡ false
not_same_parts q ps qs h b = elim (Bool-cases (same_parts q ps)) [
  | inl e ↦ cc (same_parts-begins q ps qs e b)
  | inr f ↦ f
]

-- A ruleset governs nothing outside the parts at which it is stored.
pub governed-stored_outside :
    (env : Env) (s : RuleSet) (root : Node) (qs : List Text)
    → begins (parts_of s) qs ≡ false
    → governed (stored env s root) qs ≡ governed root qs
governed-stored_outside env s root qs h =
    governed_congr (stored env s root) root qs
      (λ q b. stored_marks env s root q (not_same_parts q (parts_of s) qs h b))

-- `GetNearestNode` finds the entry that governs the path in the map that the tree stands for: the
-- longest beginning of its parts that has rules, no further than the first terminal entry.
pub view-nearest_node :
    (path : Text) (root : Node)
    → Option.map view (nearest_node path root) ≡ governed root (path_segments (norm_path path))
unfolding nearest_node view_at
view-nearest_node path root =
    view-nearest_below (path_segments (norm_path path)) root (better root none)
    ∙ ap (λ c. governing (layout root) (path_segments (norm_path path)) c) (view-better root none)

-- After an `AddRuleSet` that succeeds `GetNearestNode` finds what it found before, for every path
-- that the parts of the ruleset do not begin.
pub nearest_node-add_rule_set :
    (env : Env) (s : RuleSet) (root t : Node) (path : Text)
    → add_rule_set env (some s) root ≡ added t
    → begins (parts_of s) (path_segments (norm_path path)) ≡ false
    → Option.map view (nearest_node path t) ≡ Option.map view (nearest_node path root)
nearest_node-add_rule_set env s root t path h b =
    view-nearest_node path t
    ∙ ap (λ n. governed n (path_segments (norm_path path))) (stored_of_added env s root t h).1
    ∙ governed-stored_outside env s root _ b
    ∙ sym (view-nearest_node path root)

-- After an `AddRuleSet` that succeeds, the entry of the map at the parts of the ruleset has its
-- rules, built from the sorted list, and its terminal flag. Every entry that the parts have on
-- their way and that was missing is made, without rules and not terminal, with the first part for
-- its owner, its joined parts for its path and their number, cut to a byte, for its depth. All
-- other entries stay as they were.
pub view_at-add_rule_set :
    (env : Env) (s : RuleSet) (root t : Node) (q : List Text)
    → add_rule_set env (some s) root ≡ added t
    → view_at q t
      ≡ entry_after env
          (first_part (parts_of s))
          (all_rules (some s))
          s.terminal
          []
          (parts_of s)
          q
          (view_at q root)
unfolding stored
view_at-add_rule_set env s root t q h =
    ap (λ n. view_at q n) (stored_of_added env s root t h).1
    ∙ view_at-add_below env (first_part (parts_of s)) (all_rules (some s)) s.terminal []
        (parts_of s) q root
