-- ===== src/Acl/Service/Readers.antt =====
-- internal/server/acl/acl.go, CanAccess in a loop: who is let through, by the tree of the rules and
-- the cache as they were before the loop.
use syftbox.Base.{
  ◌≡◌, refl, sym, Bool, true, false, ◌⊎◌, inl, inr, none, some, Text, text_eq, eq_of_text_eq,
  is_some-none, not-true, Bool-cases, Option-cases,
}
use mathlib.Core.Option.{some-injective}
use mathlib.Core.Path.{subst}
use syftbox.Acl.Level.{AclRequest, new_request, access_read}
use syftbox.Acl.Matcher.{Env, Today}
use syftbox.Acl.Rule.{AclRule, check_access}
use syftbox.Acl.Specificity.{is_owner}
use syftbox.Acl.Tree.{get_compiled_rule}
use syftbox.Acl.Cache.{Lru, IsLawful, peek, cache_get, cache_key}
use syftbox.Acl.Service.Decisions.{evaluate_keeps_tree, evaluate_granted, evaluate_cache}
use syftbox.Acl.Service.{Service, elevate, evaluate, can_access}

module _ (c : Lru) (env : Env) (now : Today) where
  -- What lets a request pass: the ID of the user begins the path, the cache holds that it was
  -- granted, or the rule of the tree that matches the path first lets it pass.
  abbrev pub IsGranted : AclRequest → Service c → Type 0
  IsGranted req s =
      (is_owner req.path req.user ≡ true)
      ⊎ ((peek c s.cache (cache_key req) ≡ some true)
          ⊎ ((r : AclRule) × (get_compiled_rule env now req s.tree ≡ some r)
              × (check_access env r (elevate req) ≡ none)))

  abbrev pub MayRead : Text → Text → Service c → Type 0
  MayRead path user s = IsGranted (new_request path user access_read) s

  pub can_access-tree :
      (req : AclRequest) (s : Service c) → (can_access c env now req s).service.tree ≡ s.tree
  unfolding can_access
  can_access-tree req s = elim (Bool-cases (is_owner req.path req.user)) [
    | inl o ↦ rw o refl
    | inr o ↦ elim (Option-cases (cache_get c req s.cache).0) [
      | inl e ↦
          rw (o, e)
            (evaluate_keeps_tree c env now req (record s { cache = (cache_get c req s.cache).1 }))
      | inr (true, e) ↦ rw (o, e) refl
      | inr (false, e) ↦ rw (o, e) refl
    ]
  ]

  of_tree :
      (req : AclRequest) (s t : Service c)
      → t.tree ≡ s.tree
      → (evaluate c env now req t).denial ≡ none
      → IsGranted req s
  of_tree req s t same h =
      let (r, found, _, passed) = evaluate_granted c env now req t h in
      inr (inr (r, subst (λ x. get_compiled_rule env now req x ≡ some r) same found, passed))

  -- A service that came from another by decisions: the tree is the same, and what the cache grants
  -- now, of the requests in `D`, was granted by the tree and the cache then.
  abbrev pub ComesFrom : (AclRequest → Type 0) → Service c → Service c → Type 0
  ComesFrom D s t =
      (t.tree ≡ s.tree)
      × ((req : AclRequest) → D req → peek c t.cache (cache_key req) ≡ some true → IsGranted req s)

  pub ComesFrom-refl : (D : AclRequest → Type 0) (s : Service c) → ComesFrom D s s
  ComesFrom-refl D s = (refl, λ req d h. inr (inl h))

  module _ (lawful : IsLawful c) (D : AclRequest → Type 0) where
    pub can_access-IsGranted :
        (s t : Service c) (req : AclRequest)
        → D req
        → ComesFrom D s t
        → (can_access c env now req t).denial ≡ none
        → IsGranted req s
    unfolding can_access
    can_access-IsGranted s t req d (same, held) h = elim (Bool-cases (is_owner req.path req.user)) [
      | inl o ↦ inl o
      | inr o ↦ elim (Option-cases (cache_get c req t.cache).0) [
        | inl e ↦
            of_tree req s (record t { cache = (cache_get c req t.cache).1 }) same (rw (o, e) at h)
        | inr (true, e) ↦ held req d e
        | inr (false, e) ↦ cc (rw (o, e) at h)
      ]
    ]

    -- The cache after a read still holds only what comes from the service before.
    read_only :
        (s t : Service c) (k : Text)
        → ComesFrom D s t
        → ComesFrom D s (record t { cache = (c.get t.cache k).1 })
    read_only s t k (same, held) =
        (same, λ req d h. held req d (lawful.get-get t.cache k (cache_key req) h))

    -- The verdict of the tree, remembered under the key of a request.
    remembered :
        (s t : Service c) (req : AclRequest) (v : Bool)
        → ((q : AclRequest) → D q → cache_key (elevate req) ≡ cache_key q → req ≡ q)
        → (v ≡ true → IsGranted req s)
        → ComesFrom D s t
        → ComesFrom D s (record t { cache = c.add t.cache (cache_key (elevate req)) v })
    remembered s t req v own granted (same, held) = (
      same,
      λ q d h.
          let k = lawful.get-add t.cache (cache_key (elevate req)) (cache_key q) v h in
          elim (Bool-cases (text_eq (cache_key (elevate req)) (cache_key q))) [
            | inl e ↦
                subst (λ r. IsGranted r s) (own q d (eq_of_text_eq _ _ e))
                  (granted (some-injective _ _ (rw e at k)))
            | inr e ↦ held q d (rw e at k)
          ],
    )

    evaluate-ComesFrom :
        (s t : Service c) (req : AclRequest)
        → ((q : AclRequest) → D q → cache_key (elevate req) ≡ cache_key q → req ≡ q)
        → ComesFrom D s t
        → ComesFrom D s (evaluate c env now req t).service
    evaluate-ComesFrom s t req own from = elim (evaluate_cache c env now req t) [
      | inl e ↦ subst (ComesFrom D s) (sym e) from
      | inr e ↦ subst (ComesFrom D s) (sym e) (
          remembered s t req _ own (λ v. of_tree req s t from.0 (is_some-none _ (not-true _ v)))
            from)
    ]

    -- A decision on a request that has no key in common with another one of `D`.
    pub can_access-ComesFrom :
        (s t : Service c) (req : AclRequest)
        → ((q : AclRequest) → D q → cache_key (elevate req) ≡ cache_key q → req ≡ q)
        → ComesFrom D s t
        → ComesFrom D s (can_access c env now req t).service
    unfolding can_access
    can_access-ComesFrom s t req own from = elim (Bool-cases (is_owner req.path req.user)) [
      | inl o ↦ rw o from
      | inr o ↦ elim (Option-cases (cache_get c req t.cache).0) [
        | inl e ↦
            rw (o, e)
              (evaluate-ComesFrom s (record t { cache = (cache_get c req t.cache).1 }) req own
                (read_only s t (cache_key req) from))
        | inr (true, e) ↦ rw (o, e) (read_only s t (cache_key req) from)
        | inr (false, e) ↦ rw (o, e) (read_only s t (cache_key req) from)
      ]
    ]
