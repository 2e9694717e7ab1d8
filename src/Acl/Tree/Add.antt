-- ===== src/Acl/Tree/Add.antt =====
-- internal/server/acl/tree.go, AddRuleSet: the tree afterwards, seen as a map.
use mathlib.Core.List.{append_assoc, append-nil}
use syftbox.Base.{
  ◌≡◌, refl, sym, ◌∙◌, ap, Bool, false, List, [], ◌∷◌, ◌++◌, Option, none, some, Text, text_eq,
  text_eq_refl, text_eq_symm, eq_of_text_eq, if◌then◌else◌, Bool-cases, inl, inr, length,
  Option-cases,
}
use syftbox.AclSpec.{Rule}
use syftbox.Acl.Paths.{join_segments}
use syftbox.Acl.Matcher.{Env}
use syftbox.Acl.Node.{
  Node, node, get_child, find_child, put_child, set_child, set_rules, rules_for, new_node, u8,
}
use syftbox.Acl.Tree.{add_below}
use syftbox.Acl.Tree.View.{
  View, view_at, view_at-cons, view_of_child, begins, same_parts, view_at-put_child, view-set_child,
  view-put_child, view_at-set_child,
}

-- A node as `AddRuleSet` makes it on its way.
abbrev pub fresh : Text → List Text → View
fresh owner parts = record {
  rules = none;
  terminal = false;
  owner = owner;
  path = join_segments parts;
  depth = u8 (length parts);
}

abbrev pub or_fresh : Bool → View → Option View → Option View
or_fresh made v none = if made then some v else none
or_fresh made v (some w) = some w

abbrev pub mark : Env → List Rule → Bool → Option View → Option View
mark env rules terminal none = none
mark env rules terminal (some v) =
    some (record v { rules = rules_for env v.path v.owner rules; terminal = terminal })

or_fresh-false : (v : View) (o : Option View) → or_fresh false v o ≡ o
or_fresh-false v none = refl
or_fresh-false v (some w) = refl

module _ (env : Env) (owner : Text) (rules : List Rule) (terminal : Bool) where
  -- The entry at `qs` after a ruleset was stored at `ps`, from the entry before, for a walk that
  -- has come along `done`.
  abbrev pub entry_after : List Text → List Text → List Text → Option View → Option View
  entry_after done ps qs old =
      let made = or_fresh (begins qs ps) (fresh owner (done ++ qs)) old in
      if same_parts qs ps then mark env rules terminal made else made

  -- The entry at parts whose first is the first of the walk.
  entry_after-cons :
      (done ps qs : List Text) (p : Text) (old : Option View)
      → entry_after done (p ∷ ps) (p ∷ qs) old ≡ entry_after (done ++ (p ∷ [])) ps qs old
  unfolding begins same_parts
  entry_after-cons done ps qs p old = rw (text_eq_refl p, append_assoc done (p ∷ []) qs) refl

  entry_after_miss :
      (done ps qs : List Text) (p q : Text) (old : Option View)
      → text_eq q p ≡ false
      → entry_after done (p ∷ ps) (q ∷ qs) old ≡ old
  unfolding begins same_parts
  entry_after_miss done ps qs p q old h = rw h (or_fresh-false (fresh owner (done ++ (q ∷ qs))) old)

  add_below_nil :
      (done : List Text) (n : Node)
      → add_below env owner rules terminal done [] n ≡ set_rules env rules terminal n
  unfolding add_below
  add_below_nil done n = refl

  add_below-none :
      (done ps : List Text) (p : Text) (n : Node)
      → get_child p n ≡ none
      → add_below env owner rules terminal done (p ∷ ps) n
        ≡ set_child p
            (add_below env owner rules terminal (done ++ (p ∷ [])) ps (
              new_node
                (join_segments (done ++ (p ∷ [])))
                owner
                false
                (u8 (length (done ++ (p ∷ []))))))
            n
  unfolding add_below
  add_below-none done ps p n e = rw (e, add_below)

  add_below-some :
      (done ps : List Text) (p : Text) (n c : Node)
      → get_child p n ≡ some c
      → add_below env owner rules terminal done (p ∷ ps) n
        ≡ put_child p (add_below env owner rules terminal (done ++ (p ∷ [])) ps c) n
  unfolding add_below
  add_below-some done ps p n c e = rw (e, add_below)

  -- A node made on the way shows what an absent one shows.
  entry_after_new :
      (walked ps qs : List Text)
      → entry_after walked ps qs
          (view_at qs (new_node (join_segments walked) owner false (u8 (length walked))))
        ≡ entry_after walked ps qs none
  unfolding view_at new_node begins find_child
  entry_after_new walked ps [] = rw append-nil
  entry_after_new walked ps (q ∷ qs) = refl

  -- The step of the walk at a child, which shows `old` before.
  entry_of_child :
      (done ps qs : List Text) (p q : Text) (n x : Node)
      → view_at qs x ≡ entry_after (done ++ (p ∷ [])) ps qs (view_of_child qs (get_child p n))
      → (if text_eq p q then view_at qs x else view_at (q ∷ qs) n)
        ≡ entry_after done (p ∷ ps) (q ∷ qs) (view_at (q ∷ qs) n)
  entry_of_child done ps qs p q n x h = elim (Bool-cases (text_eq p q)) [
    | inl e ↦ hit q qs (eq_of_text_eq p q e) h
    | inr f ↦
        rw (f, entry_after_miss done ps qs p q (view_at (q ∷ qs) n) (text_eq_symm p q false f))
  ]
    where
      hit :
          (q : Text) (qs : List Text)
          → p ≡ q
          → view_at qs x ≡ entry_after (done ++ (p ∷ [])) ps qs (view_of_child qs (get_child p n))
          → (if text_eq p q then view_at qs x else view_at (q ∷ qs) n)
            ≡ entry_after done (p ∷ ps) (q ∷ qs) (view_at (q ∷ qs) n)
      hit q qs e k =
          rw (← e, text_eq_refl p, k, view_at-cons p qs n)
            (sym (entry_after-cons done ps qs p (view_of_child qs (get_child p n))))

  view_at-set_rules :
      (done qs : List Text) (n : Node)
      → view_at qs (set_rules env rules terminal n) ≡ entry_after done [] qs (view_at qs n)
  unfolding view_at set_rules begins same_parts
  view_at-set_rules done [] (node rs cs i) = refl
  view_at-set_rules done (q ∷ qs) (node rs cs i) =
      sym (or_fresh-false (fresh owner (done ++ (q ∷ qs))) _)

  pub view_at-add_below :
      (done ps qs : List Text) (n : Node)
      → view_at qs (add_below env owner rules terminal done ps n)
        ≡ entry_after done ps qs (view_at qs n)
  unfolding view_at begins same_parts
  view_at-add_below done [] qs n = rw (add_below_nil done n) (view_at-set_rules done qs n)
  view_at-add_below done (p ∷ ps) [] n = elim (Option-cases (get_child p n)) [
    | inl e ↦ rw (add_below-none done ps p n e) (ap some (view-set_child p _ n))
    | inr (c, e) ↦ rw (add_below-some done ps p n c e) (ap some (view-put_child p _ n))
  ]
  view_at-add_below done (p ∷ ps) (q ∷ qs) n =
      let walked = done ++ (p ∷ []) in
      let made = new_node (join_segments walked) owner false (u8 (length walked)) in
      let made_entry = view_at-add_below (done ++ (p ∷ [])) ps qs made in
      elim (Option-cases (get_child p n)) [
        | inl e ↦
            rw (add_below-none done ps p n e, view_at-set_child p q qs _ n)
              (entry_of_child done ps qs p q n _ (rw e (made_entry ∙ entry_after_new walked ps qs)))
        | inr (c, e) ↦
            rw (add_below-some done ps p n c e, view_at-put_child p q qs _ n)
              (entry_of_child done ps qs p q n _
                (rw e (view_at-add_below (done ++ (p ∷ [])) ps qs c)))
      ]
