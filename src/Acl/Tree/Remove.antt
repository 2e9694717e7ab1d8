-- ===== src/Acl/Tree/Remove.antt =====
-- internal/server/acl/tree.go, RemoveRuleSet: the tree afterwards, seen as a map.
use syftbox.Base.{
  ◌≡◌, refl, sym, ◌∙◌, ap, true, false, ◌&&◌, List, [], ◌∷◌, Option, none, some, Text, text_eq,
  text_eq_refl, text_eq_symm, eq_of_text_eq, if◌then◌else◌, Bool-cases, inl, inr, Option-cases,
  ◌==◌, ◌⊎◌, ◌≢◌, is_some, split-ne-nil,
}
use mathlib.Core.Path.{subst}
use mathlib.Core.Option.{some-injective}
use syftbox.FilePath.{slash}
use syftbox.Acl.Paths.{norm_path, path_segments}
use syftbox.Acl.Node.{Node, node, get_child, child_count, put_child, delete_child, clear_rules}
use syftbox.Acl.Tree.{remove_child, remove_below, remove_parts, remove_rule_set}
use syftbox.Acl.Tree.View.{
  View, view, view_at, view_at-cons, view_of_child, same_parts, view_at-put_child,
  view_at-delete_child, view-put_child, view_at_of_no_children,
}

-- The node at the end of the parts.
unfoldable pub node_at : List Text → Node → Option Node
node_at [] n = some n
node_at (p ∷ ps) n = elim (get_child p n) [ none ↦ none | some c ↦ node_at ps c ]

-- What is left of the entry of a node when its ruleset is removed.
abbrev pub left_of : Node → Option View
left_of c = if child_count c == 0 then none else some (let v = view c in record v { rules = none })

view-delete_child : (p : Text) (n : Node) → view (delete_child p n) ≡ view n
unfolding delete_child
view-delete_child p (node rs cs i) = refl

-- The step of the walk at a child of which `x` is left.
entry_below :
    (ps qs : List Text) (p q : Text) (n : Node) (k x : Option View)
    → x ≡ (if same_parts qs ps then k else view_of_child qs (get_child p n))
    → (if text_eq p q then x else view_at (q ∷ qs) n)
      ≡ (if same_parts (q ∷ qs) (p ∷ ps) then k else view_at (q ∷ qs) n)
unfolding same_parts
entry_below ps qs p q n k x h = elim (Bool-cases (text_eq p q)) [
  | inl e ↦ hit q (eq_of_text_eq p q e)
  | inr f ↦ rw (f, text_eq_symm p q false f)
]
  where
    hit :
        (q : Text)
        → p ≡ q
        → (if text_eq p q then x else view_at (q ∷ qs) n)
          ≡ (if text_eq q p && same_parts qs ps then k else view_at (q ∷ qs) n)
    hit q e = rw (← e, text_eq_refl p, view_at-cons p qs n) h

cleared_entry :
    (qs : List Text) (c : Node)
    → (child_count c == 0) ≡ false
    → view_at qs (clear_rules c) ≡ (if same_parts qs [] then left_of c else view_at qs c)
unfolding view_at clear_rules same_parts
cleared_entry [] (node rs cs i) h = rw h
cleared_entry (q ∷ qs) (node rs cs i) h = refl

dropped_entry :
    (qs : List Text) (c : Node)
    → (child_count c == 0) ≡ true
    → ◌≡◌ {A = Option View} none (if same_parts qs [] then left_of c else view_at qs c)
unfolding view_at same_parts
dropped_entry [] c h = rw h
dropped_entry (q ∷ qs) c h = sym (view_at_of_no_children q qs c h)

-- The map after the entry at the parts was taken away, with `k` left of it.
abbrev pub IsWithout : List Text → Option View → Node → Node → Type 0
IsWithout ps k n n' = (q : List Text) → view_at q n' ≡ (if same_parts q ps then k else view_at q n)

remove_childless :
    (p : Text) (c n : Node) → (child_count c == 0) ≡ true → remove_child p c n ≡ delete_child p n
unfolding remove_child
remove_childless p c n h = rw h

remove_parent :
    (p : Text) (c n : Node)
    → (child_count c == 0) ≡ false
    → remove_child p c n ≡ put_child p (clear_rules c) n
unfolding remove_child
remove_parent p c n h = rw h

remove_child-IsWithout :
    (p : Text) (n c : Node)
    → get_child p n ≡ some c
    → IsWithout (p ∷ []) (left_of c) n (remove_child p c n)
unfolding view_at same_parts
remove_child-IsWithout p n c e [] = elim (Bool-cases (child_count c == 0)) [
  | inl z ↦ rw (remove_childless p c n z) (ap some (view-delete_child p n))
  | inr m ↦ rw (remove_parent p c n m) (ap some (view-put_child p (clear_rules c) n))
]
remove_child-IsWithout p n c e (q ∷ qs) = elim (Bool-cases (child_count c == 0)) [
  | inl z ↦
      rw (remove_childless p c n z, view_at-delete_child p q qs n)
        (entry_below [] qs p q n (left_of c) none (rw e (dropped_entry qs c z)))
  | inr m ↦
      rw (remove_parent p c n m, view_at-put_child p q qs (clear_rules c) n)
        (entry_below [] qs p q n (left_of c) _ (rw e (cleared_entry qs c m)))
]

put_child-IsWithout :
    (q : Text) (ps : List Text) (p : Text) (n m m' : Node) (k : Option View)
    → get_child p n ≡ some m
    → IsWithout (q ∷ ps) k m m'
    → IsWithout (p ∷ q ∷ ps) k n (put_child p m' n)
unfolding view_at same_parts
put_child-IsWithout q ps p n m m' k e h [] = ap some (view-put_child p m' n)
put_child-IsWithout q ps p n m m' k e h (r ∷ rs) =
    rw (view_at-put_child p r rs m' n)
      (entry_below (q ∷ ps) rs p r n k (view_at rs m') (rw e (h rs)))

-- The outcome of a removal below a node.
abbrev pub Removal : Text → List Text → Node → Type 0
Removal p ps n =
    ((node_at (p ∷ ps) n ≡ none) × (remove_below p ps n ≡ none))
    ⊎ ((c n' : Node) × (node_at (p ∷ ps) n ≡ some c)
        × (remove_below p ps n ≡ some n')
        × IsWithout (p ∷ ps) (left_of c) n n')

after_child : Text → Node → Option Node → Option Node
after_child p n o = elim o [ none ↦ none | some c' ↦ some (put_child p c' n) ]

remove_below-cons :
    (q : Text) (ps : List Text) (p : Text) (n m : Node)
    → get_child p n ≡ some m
    → remove_below p (q ∷ ps) n ≡ after_child p n (remove_below q ps m)
unfolding remove_below after_child
remove_below-cons q ps p n m e = rw (e, remove_below)

step_below :
    (q : Text) (ps : List Text) (p : Text) (n m : Node)
    → get_child p n ≡ some m
    → Removal q ps m
    → Removal p (q ∷ ps) n
unfolding node_at after_child
step_below q ps p n m e (inl (gone, kept)) =
    inl (rw (e, node_at) gone, rw (remove_below-cons q ps p n m e, kept) refl)
step_below q ps p n m e (inr (c, m', found, done, without)) = inr (
  c,
  put_child p m' n,
  rw (e, node_at) found,
  rw (remove_below-cons q ps p n m e, done) refl,
  put_child-IsWithout q ps p n m m' (left_of c) e without,
)

-- A removal finds the node and leaves a tree that shows all but its entry, or finds none.
pub remove_below_lem : (ps : List Text) (p : Text) (n : Node) → Removal p ps n
unfolding node_at remove_below
remove_below_lem [] p n = elim (Option-cases (get_child p n)) [
  | inl e ↦ inl (rw (e, node_at), rw (e, remove_below))
  | inr (c, e) ↦
      inr (
        c,
        remove_child p c n,
        rw (e, node_at),
        rw (e, remove_below),
        remove_child-IsWithout p n c e,
      )
]
remove_below_lem (q ∷ ps) p n = elim (Option-cases (get_child p n)) [
  | inl e ↦ inl (rw (e, node_at), rw (e, remove_below))
  | inr (m, e) ↦ step_below q ps p n m e (remove_below_lem ps q m)
]

-- The parts that `RemoveRuleSet` walks.
abbrev pub removed_parts : Text → List Text
removed_parts path = path_segments (norm_path path)

removed_at :
    (parts : List Text) (root t : Node)
    → remove_parts parts root ≡ some t
    → (c : Node) × (node_at parts root ≡ some c) × IsWithout parts (left_of c) root t
unfolding remove_parts
removed_at [] root t h = cc
removed_at (p ∷ ps) root t h = elim (remove_below_lem ps p root) [
  | inl (gone, kept) ↦ cc
  | inr (c, n', found, done, without) ↦ (
    c,
    found,
    subst (λ x. IsWithout (p ∷ ps) (left_of c) root x) (some-injective n' t (sym done ∙ h)) without,
  )
]

answer :
    (parts : List Text)
    → parts ≢ []
    → (root : Node) → is_some (remove_parts parts root) ≡ is_some (node_at parts root)
unfolding remove_parts
answer [] h root = absurd (h refl)
answer (p ∷ ps) h root = elim (remove_below_lem ps p root) [
  | inl (gone, kept) ↦ rw (gone, kept)
  | inr (c, n', found, done, without) ↦ rw (found, done)
]

-- If `RemoveRuleSet` answers true, there was a node at the parts of the path. In the new map the
-- entry there is gone if the node had no children, and otherwise has no rules and all else as it
-- was, the terminal flag too. Every other entry stays as it was.
pub remove_rule_set-IsWithout :
    (path : Text) (root t : Node)
    → remove_rule_set path root ≡ some t
    → (c : Node) × (node_at (removed_parts path) root ≡ some c)
      × IsWithout (removed_parts path) (left_of c) root t
unfolding remove_rule_set
remove_rule_set-IsWithout path root t h = removed_at (removed_parts path) root t h

-- `RemoveRuleSet` answers true exactly if there is a node at the parts of the path, whether or not
-- the node has rules.
pub remove_rule_set_answer :
    (path : Text) (root : Node)
    → is_some (remove_rule_set path root) ≡ is_some (node_at (removed_parts path) root)
unfolding remove_rule_set path_segments
remove_rule_set_answer path root =
    answer (removed_parts path) (split-ne-nil slash (norm_path (norm_path path))) root
