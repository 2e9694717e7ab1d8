-- ===== src/Acl/Service.antt =====
-- internal/server/acl/acl.go: the service, with the tree and the cache for its state. `Start` loads
-- rulesets that are fetched and parsed elsewhere.
pub mod Decisions
pub mod Invalidation
pub mod Keys
pub mod Readers
use syftbox.Base.{
  ℕ, Bool, true, false, not, ◌&&◌, List, [], ◌∷◌, Option, none, some, Text, leb, is_some,
  if◌then◌else◌,
}
use syftbox.AclSpec.{RuleSet, is_acl_file, without_acl_path}
use syftbox.Acl.Level.{AclRequest, File, access_create, access_admin}
use syftbox.Acl.Matcher.{Env, Today}
use syftbox.Acl.Rule.{AclRule, AclError, check_access, check_limits}
use syftbox.Acl.Specificity.{is_owner}
use syftbox.Acl.Node.{Node, info_of}
use syftbox.Acl.Tree.{
  TreeError, no_rule, Added, failed, added, new_tree, add_rule_set, remove_rule_set,
  get_compiled_rule,
}
use syftbox.Acl.Cache.{Lru, cache_get, cache_set, delete_prefix}

-- The errors of `CanAccess`.
pub data Denial : Type 0 where
  cached : Denial
  rule_error : TreeError → Denial
  limits_exceeded : AclError → Denial
  access_denied : AclError → Denial

-- `ACLService`
pub record Service (c : Lru) : Type 0 where
  pub tree : Node
  pub cache : c.State

-- What `CanAccess` leaves: its result, where `none` is success; the service; and the request,
-- whose level it may raise.
pub record Outcome (c : Lru) : Type 0 where
  pub denial : Option Denial
  pub service : Service c
  pub request : AclRequest

module _ (c : Lru) where
  -- `NewACLService`
  unfoldable pub new_service : Service c
  new_service = record { tree = new_tree; cache = c.empty }

  module _ (env : Env) where
    -- `AddRuleSet`; the returned error, or `none`
    unfoldable pub service_add : RuleSet → Service c → Option TreeError × Service c
    service_add rs s = elim (add_rule_set env (some rs) s.tree) [
      | failed e ↦ (some e, s)
      | added t ↦ (none, record { tree = t; cache = (delete_prefix c rs.path s.cache).0 })
    ]

    -- The loop of `Start`: a ruleset that is refused is passed over.
    unfoldable pub load_all : List RuleSet → Service c → Service c
    load_all [] s = s
    load_all (rs ∷ more) s = load_all more (service_add rs s).1

  -- `RemoveRuleSet`
  unfoldable pub service_remove : Text → Service c → Bool × Service c
  service_remove path s =
      let dir = without_acl_path path in
      elim (remove_rule_set dir s.tree) [
        | none ↦ (false, s)
        | some t ↦ (true, record { tree = t; cache = (delete_prefix c dir s.cache).0 })
      ]

  -- `onBlobChange`; the flag tells a delete event.
  unfoldable pub on_blob_change : Text → Bool → Service c → Service c
  on_blob_change key deleted s =
      if deleted && not (is_acl_file key)
      then record s { cache = (delete_prefix c key s.cache).0 }
      else s

  -- The end of `CanAccess`: the decision is remembered under the level of the request as it is now.
  unfoldable pub decide : AclRequest → Option Denial → Service c → Outcome c
  decide req denial s = record {
    denial = denial;
    service = record s { cache = cache_set c req (not (is_some denial)) s.cache };
    request = req;
  }

-- A write of an ACL file is raised to the admin level.
unfoldable pub elevate : AclRequest → AclRequest
elevate req =
    if is_acl_file req.path && leb access_create req.level
    then record req { level = access_admin }
    else req

-- The limits are looked at for a write that comes with a file.
unfoldable pub limit_error : AclRule → AclRequest → Option AclError
limit_error r req = elim req.file [
  | none ↦ none
  | some f ↦ if leb access_create req.level then check_limits r req f else none
]

-- The tests of `CanAccess` on a rule, in their order.
unfoldable pub rule_denial : Env → AclRule → AclRequest → Option Denial
rule_denial env r req = elim (limit_error r req) [
  | some e ↦ some (limits_exceeded e)
  | none ↦ elim (check_access env r req) [ some e ↦ some (access_denied e) | none ↦ none ]
]

module _ (c : Lru) (env : Env) (now : Today) where
  -- `CanAccess` behind a cache that does not know the request.
  unfoldable pub evaluate : AclRequest → Service c → Outcome c
  evaluate req s = elim (get_compiled_rule env now req s.tree) [
    | none ↦ record { denial = some (rule_error no_rule); service = s; request = req }
    | some r ↦ decide c (elevate req) (rule_denial env r (elevate req)) s
  ]

  -- `CanAccess`
  unfoldable pub can_access : AclRequest → Service c → Outcome c
  can_access req s =
      if is_owner req.path req.user
      then record { denial = none; service = s; request = req }
      else (let (hit, cache) = cache_get c req s.cache in
          let s' = record s { cache = cache } in
          elim hit [
            | some true ↦ record { denial = none; service = s'; request = req }
            | some false ↦ record { denial = some cached; service = s'; request = req }
            | none ↦ evaluate req s'
          ])
