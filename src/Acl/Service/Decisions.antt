-- ===== src/Acl/Service/Decisions.antt =====
-- internal/server/acl/acl.go, CanAccess.
use syftbox.Base.{
  ◌≡◌, refl, sym, ◌∙◌, ap, Bool, true, false, not, ◌⊎◌, inl, inr, ◌∷◌, ◌++◌, Option, none, some,
  Text, text_eq, text_eq_iff, has_prefix-append, leb, is_some, arith, if◌then◌else◌, Bool-cases,
  Option-cases,
}
use syftbox.FilePath.{slash}
use syftbox.AclSpec.{Access, is_acl_file}
use syftbox.Acl.Paths.{norm_path}
use syftbox.Acl.Level.{AclRequest, access_create, access_admin}
use syftbox.Acl.Matcher.{Env, Today}
use syftbox.Acl.Rule.{AclRule, is_admin, check_access, check_level}
use syftbox.Acl.Specificity.{is_owner}
use syftbox.Acl.Tree.{no_rule, get_compiled_rule}
use syftbox.Acl.Cache.{Lru, peek, IsLawful, cache_key}
use syftbox.Acl.Service.{
  rule_error, Service, Outcome, elevate, limit_error, rule_denial, decide, evaluate, can_access,
}

module _ (c : Lru) (env : Env) (now : Today) where
  -- A user whose ID is the beginning of the owner's name passes for the owner: every request of
  -- `user` for a path whose normal form is `user ++ more`, a slash and a rest is granted at every
  -- level, with the service unchanged.
  pub can_access_owner_prefix :
      (req : AclRequest) (s : Service c) (more rest : Text)
      → norm_path req.path ≡ (req.user ++ more) ++ (slash ∷ rest)
      → can_access c env now req s ≡ record { denial = none; service = s; request = req }
  unfolding can_access is_owner
  can_access_owner_prefix req s more rest h = rw (h, has_prefix-append _ _ _) refl

  -- The verdict on a request that the cache does not know comes from the tree.
  pub can_access_miss :
      (req : AclRequest) (s : Service c)
      → is_owner req.path req.user ≡ false
      → peek c s.cache (cache_key req) ≡ none
      → can_access c env now req s
        ≡ evaluate c env now req (record s { cache = (c.get s.cache (cache_key req)).1 })
  unfolding can_access
  can_access_miss req s h m = rw (h, m)

  pub can_access_hit :
      (req : AclRequest) (s : Service c) (b : Bool)
      → is_owner req.path req.user ≡ false
      → peek c s.cache (cache_key req) ≡ some b
      → is_some (can_access c env now req s).denial ≡ not b
  unfolding can_access
  can_access_hit req s true h m = rw (h, m)
  can_access_hit req s false h m = rw (h, m)

  pub evaluate_no_rule :
      (req : AclRequest) (s : Service c)
      → get_compiled_rule env now req s.tree ≡ none
      → (evaluate c env now req s).denial ≡ some (rule_error no_rule)
  unfolding evaluate
  evaluate_no_rule req s e = rw (e, evaluate)

  pub evaluate_rule :
      (req : AclRequest) (s : Service c) (r : AclRule)
      → get_compiled_rule env now req s.tree ≡ some r
      → (evaluate c env now req s).denial ≡ rule_denial env r (elevate req)
  unfolding evaluate decide
  evaluate_rule req s r e = rw (e, evaluate)

  rule_denial-none :
      (r : AclRule) (req : AclRequest)
      → rule_denial env r req ≡ none
      → (limit_error r req ≡ none) × (check_access env r req ≡ none)
  unfolding rule_denial
  rule_denial-none r req h = ground arith

  -- A decision of the tree grants a request if it finds a rule whose limits and access lists let
  -- the request pass, with its level as `elevate` leaves it.
  pub evaluate_granted :
      (req : AclRequest) (s : Service c)
      → (evaluate c env now req s).denial ≡ none
      → (r : AclRule) × (get_compiled_rule env now req s.tree ≡ some r)
        × (limit_error r (elevate req) ≡ none)
        × (check_access env r (elevate req) ≡ none)
  evaluate_granted req s h = elim (Option-cases (get_compiled_rule env now req s.tree)) [
    | inl e ↦ cc (sym (evaluate_no_rule req s e) ∙ h)
    | inr (r, e) ↦
        let (limits, access) =
          rule_denial-none r (elevate req) (sym (evaluate_rule req s r e) ∙ h) in
        (r, e, limits, access)
  ]

  check_access_admin :
      (r : AclRule) (req : AclRequest)
      → check_access env r (record req { level = access_admin }) ≡ none
      → (r.owner ≡ req.user)
        ⊎ ((a : Access) × (r.rule.access ≡ some a) × (is_admin env a req.user ≡ true))
  unfolding check_access check_level
  check_access_admin r req h = ground (arith, text_eq_iff r.owner req.user)

  elevate_acl_file :
      (req : AclRequest)
      → is_acl_file req.path ≡ true
      → leb access_create req.level ≡ true
      → elevate req ≡ record req { level = access_admin }
  unfolding elevate
  elevate_acl_file req f l = rw (f, l)

  -- A write, create or admin request for an ACL file by a user whose ID does not begin the path,
  -- which the cache does not know, is granted only if the rule that matches first has the user for
  -- its owner or lets the user pass as an admin.
  pub can_access_acl_file :
      (req : AclRequest) (s : Service c)
      → is_owner req.path req.user ≡ false
      → peek c s.cache (cache_key req) ≡ none
      → is_acl_file req.path ≡ true
      → leb access_create req.level ≡ true
      → (can_access c env now req s).denial ≡ none
      → (r : AclRule) × (get_compiled_rule env now req s.tree ≡ some r)
        × ((r.owner ≡ req.user)
            ⊎ ((a : Access) × (r.rule.access ≡ some a) × (is_admin env a req.user ≡ true)))
  can_access_acl_file req s o m f l h =
      let s' = record s { cache = (c.get s.cache (cache_key req)).1 } in
      let (r, found, _, passed) =
        evaluate_granted req s' (ap Outcome.denial (sym (can_access_miss req s o m)) ∙ h) in
      (r, found, check_access_admin r req (rw (elevate_acl_file req f l) at passed))

  -- The state of the cache that a decision of the tree leaves: as it was if no rule was found, or
  -- with the verdict under the key of the raised request.
  pub evaluate_cache :
      (req : AclRequest) (s : Service c)
      → ((evaluate c env now req s).service ≡ s)
        ⊎ ((evaluate c env now req s).service ≡ record s {
          cache =
              c.add s.cache
                (cache_key (elevate req))
                (not (is_some (evaluate c env now req s).denial));
        })
  unfolding decide evaluate
  evaluate_cache req s = elim (Option-cases (get_compiled_rule env now req s.tree)) [
    | inl e ↦ inl (rw (e, evaluate))
    | inr (r, e) ↦ inr (rw (e, evaluate))
  ]

  -- The verdict of the tree does not depend on the cache.
  pub evaluate_tree :
      (req : AclRequest) (s t : Service c)
      → s.tree ≡ t.tree
      → (evaluate c env now req s).denial ≡ (evaluate c env now req t).denial
  evaluate_tree req s t h = elim (Option-cases (get_compiled_rule env now req s.tree)) [
    | inl e ↦ evaluate_no_rule req s e ∙ sym (evaluate_no_rule req t (rw (← h) e))
    | inr (r, e) ↦ evaluate_rule req s r e ∙ sym (evaluate_rule req t r (rw (← h) e))
  ]

  pub evaluate_keeps_tree :
      (req : AclRequest) (s : Service c) → (evaluate c env now req s).service.tree ≡ s.tree
  evaluate_keeps_tree req s = elim (evaluate_cache req s) [
    | inl e ↦ ap (λ (t : Service c). t.tree) e
    | inr e ↦ ap (λ (t : Service c). t.tree) e
  ]

  -- Reading makes no entry.
  touched_none :
      IsLawful c
      → (req : AclRequest) (s : Service c) → peek c s.cache (cache_key req) ≡ none
      → peek c (c.get s.cache (cache_key req)).1 (cache_key req) ≡ none
  touched_none L req s m =
      elim (Option-cases (peek c (c.get s.cache (cache_key req)).1 (cache_key req))) [
        | inl e ↦ e
        | inr (b, e) ↦ cc (sym m ∙ L.get-get s.cache (cache_key req) (cache_key req) e)
      ]

  can_access_owner :
      (req : AclRequest) (s : Service c)
      → is_owner req.path req.user ≡ true
      → can_access c env now req s ≡ record { denial = none; service = s; request = req }
  unfolding can_access
  can_access_owner req s h = rw h

  -- What is remembered of a request that was unknown is its verdict.
  remembered :
      IsLawful c
      → (req : AclRequest) (s : Service c) (b : Bool) → peek c s.cache (cache_key req) ≡ none
      → peek c (evaluate c env now req s).service.cache (cache_key req) ≡ some b
      → is_some (evaluate c env now req s).denial ≡ not b
  remembered L req s b m h = elim (evaluate_cache req s) [
    | inl e ↦ cc (sym m ∙ ap (λ (t : Service c). peek c t.cache (cache_key req)) (sym e) ∙ h)
    | inr e ↦
        let v = is_some (evaluate c env now req s).denial in
        let added =
          L.get-add s.cache (cache_key (elevate req)) (cache_key req) (not v) {b = b}
            (ap (λ (t : Service c). peek c t.cache (cache_key req)) (sym e) ∙ h) in
        remembered_value v b (text_eq (cache_key (elevate req)) (cache_key req))
          (peek c s.cache (cache_key req)) m added
  ]
    where
      remembered_value :
          (v b hit : Bool) (old : Option Bool)
          → old ≡ none
          → (if hit then some (not v) else old) ≡ some b
          → v ≡ not b
      remembered_value v b hit old m h = ground arith

  again_unowned :
      IsLawful c
      → (req : AclRequest) (s : Service c) → is_owner req.path req.user ≡ false
      → peek c s.cache (cache_key req) ≡ none
      → let first = evaluate c env now req s in
        is_some (can_access c env now req first.service).denial ≡ is_some first.denial
  again_unowned L req s o m =
      let t = (evaluate c env now req s).service in
      elim (Option-cases (peek c t.cache (cache_key req))) [
        | inl gone ↦
            ap (λ (r : Outcome c). is_some r.denial) (can_access_miss req t o gone)
            ∙ ap (λ d. is_some d) (evaluate_tree req _ s (evaluate_keeps_tree req s))
        | inr (b, kept) ↦ can_access_hit req t b o kept ∙ sym (remembered L req s b m kept)
      ]

  -- A request that the cache does not know is answered alike when it is made again at once.
  pub can_access_again :
      IsLawful c
      → (req : AclRequest) (s : Service c) → peek c s.cache (cache_key req) ≡ none
      → let first = can_access c env now req s in
        is_some (can_access c env now req first.service).denial ≡ is_some first.denial
  can_access_again L req s m = elim (Bool-cases (is_owner req.path req.user)) [
    | inl own ↦ rw (can_access_owner req s own, can_access_owner req s own) refl
    | inr o ↦
        let s' = record s { cache = (c.get s.cache (cache_key req)).1 } in
        rw (can_access_miss req s o m) (again_unowned L req s' o (touched_none L req s m))
  ]
