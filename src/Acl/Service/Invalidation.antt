-- ===== src/Acl/Service/Invalidation.antt =====
-- The cache after a change of the tree.
use syftbox.Base.{
  ◌≡◌, refl, sym, ◌∙◌, ap, Bool, true, false, inl, inr, [], ◌∷◌, ◌++◌, Option, none, some, Text,
  has_prefix, is_some, not, arith, Option-cases,
}
use syftbox.AclSpec.{RuleSet, without_acl_path}
use syftbox.Acl.Level.{AclRequest, File}
use syftbox.Acl.Matcher.{Env, Today}
use syftbox.Acl.Specificity.{is_owner}
use syftbox.Acl.Tree.{added, add_rule_set, remove_rule_set}
use syftbox.Acl.Cache.{Lru, peek, IsLawful, cache_key, delete_prefix}
use syftbox.Acl.Cache.Prefix.{delete_prefix_exact}
use syftbox.Acl.Service.{Service, Outcome, service_add, service_remove, evaluate, can_access}
use syftbox.Acl.Service.Decisions.{can_access_miss, can_access_hit, evaluate_tree}

has_prefix_longer : (s t p : Text) → has_prefix s p ≡ true → has_prefix (s ++ t) p ≡ true
unfolding has_prefix
has_prefix_longer s t [] h = has_prefix_nil (s ++ t)
  where
    has_prefix_nil : (u : Text) → has_prefix u [] ≡ true
    has_prefix_nil [] = refl
    has_prefix_nil (x ∷ u) = refl
has_prefix_longer [] t (y ∷ p) h = cc
has_prefix_longer (x ∷ s) t (y ∷ p) h = ground (arith, has_prefix_longer s t p)

-- Whether a service has forgotten all about the paths that begin with a text, and made up nothing.
abbrev pub HasForgotten : (c : Lru) → Text → c.State → c.State → Type 0
HasForgotten c dir old new =
    (req : AclRequest)
    → (has_prefix req.path dir ≡ true → peek c new (cache_key req) ≡ none)
      × ((b : Bool) → peek c new (cache_key req) ≡ some b → peek c old (cache_key req) ≡ some b)

cache_key-has_prefix :
    (req : AclRequest) (dir : Text)
    → has_prefix req.path dir ≡ true
    → has_prefix (cache_key req) dir ≡ true
unfolding cache_key
cache_key-has_prefix req dir h = has_prefix_longer req.path _ dir h

module _ (c : Lru) (L : IsLawful c) where
  delete_prefix_forgets :
      (dir : Text) (s : c.State) → HasForgotten c dir s (delete_prefix c dir s).0
  delete_prefix_forgets dir s req = (
    λ h. elim (Option-cases (peek c (delete_prefix c dir s).0 (cache_key req))) [
      | inl e ↦ e
      | inr (b, e) ↦
          cc (sym (cache_key-has_prefix req dir h) ∙ (delete_prefix_exact c L dir s _ e).0)
    ],
    λ b k. (delete_prefix_exact c L dir s _ k).1,
  )

  service_add_added :
      (env : Env) (rs : RuleSet) (s s' : Service c)
      → service_add c env rs s ≡ (none, s')
      → (add_rule_set env (some rs) s.tree ≡ added s'.tree)
        × (s'.cache ≡ (delete_prefix c rs.path s.cache).0)
  unfolding service_add
  service_add_added env rs s s' h = ground arith

  service_remove_removed :
      (path : Text) (s s' : Service c)
      → service_remove c path s ≡ (true, s')
      → (remove_rule_set (without_acl_path path) s.tree ≡ some s'.tree)
        × (s'.cache ≡ (delete_prefix c (without_acl_path path) s.cache).0)
  unfolding service_remove
  service_remove_removed path s s' h = ground arith

  -- Where the service has forgotten, the tree decides.
  decided_by_tree :
      (env : Env) (now : Today) (dir : Text) (old : c.State) (s : Service c)
      → HasForgotten c dir old s.cache
      → (req : AclRequest) → is_owner req.path req.user ≡ false
      → has_prefix req.path dir ≡ true
      → (can_access c env now req s).denial ≡ (evaluate c env now req s).denial
  decided_by_tree env now dir old s f req o h =
      ap (λ (r : Outcome c). r.denial) (can_access_miss c env now req s o ((f req).0 h))
      ∙ evaluate_tree c env now req _ s refl

  -- An `AddRuleSet` that succeeds has put the ruleset into the tree, and a request by a user who
  -- does not own the path is then decided by the new tree, not by what was remembered, if its path
  -- begins with the path text of the ruleset.
  pub can_access-service_add :
      (env : Env) (now : Today) (rs : RuleSet) (s s' : Service c) (req : AclRequest)
      → service_add c env rs s ≡ (none, s')
      → is_owner req.path req.user ≡ false
      → has_prefix req.path rs.path ≡ true
      → (add_rule_set env (some rs) s.tree ≡ added s'.tree)
        × ((can_access c env now req s').denial ≡ (evaluate c env now req s').denial)
  can_access-service_add env now rs s s' req h o p =
      let (tree, cache) = service_add_added env rs s s' h in
      let f : HasForgotten c rs.path s.cache s'.cache =
        rw cache (delete_prefix_forgets rs.path s.cache) in
      (tree, decided_by_tree env now rs.path s.cache s' f req o p)

  -- A `RemoveRuleSet` that answers true has taken the ruleset out of the tree, and a request by a
  -- user who does not own the path is then decided by the new tree, not by what was remembered, if
  -- its path begins with the given path without the name of the ACL file.
  pub can_access-service_remove :
      (env : Env) (now : Today) (path : Text) (s s' : Service c) (req : AclRequest)
      → service_remove c path s ≡ (true, s')
      → is_owner req.path req.user ≡ false
      → has_prefix req.path (without_acl_path path) ≡ true
      → (remove_rule_set (without_acl_path path) s.tree ≡ some s'.tree)
        × ((can_access c env now req s').denial ≡ (evaluate c env now req s').denial)
  can_access-service_remove env now path s s' req h o p =
      let (tree, cache) = service_remove_removed path s s' h in
      let dir = without_acl_path path in
      let f : HasForgotten c dir s.cache s'.cache = rw cache (delete_prefix_forgets dir s.cache) in
      (tree, decided_by_tree env now dir s.cache s' f req o p)

  -- What the cache remembers of a path, a user and a level answers every request for these three,
  -- whatever its file, so that the limits on files are not looked at.
  pub can_access_any_file :
      (env : Env) (now : Today) (s : Service c) (req : AclRequest) (b : Bool)
      → is_owner req.path req.user ≡ false
      → peek c s.cache (cache_key req) ≡ some b
      → (file : Option File)
      → is_some (can_access c env now (record req { file = file }) s).denial ≡ not b
  unfolding cache_key
  can_access_any_file env now s req b o h file =
      can_access_hit c env now (record req { file = file }) s b o h
