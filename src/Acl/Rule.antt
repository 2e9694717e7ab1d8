-- ===== src/Acl/Rule.antt =====
-- internal/server/acl/rule.go: a rule of a node, its access lists and its limits.
-- A rule keeps the owner of its node: the source reads it through a pointer, and it never changes.
pub mod Hierarchy
use syftbox.Base.{
  ◌≡◌, Bool, true, false, not, ◌&&◌, ◌||◌, List, [], ◌∷◌, ◌++◌, Option, none, some, Text, codes,
  text_eq, ltb, ◌==◌, contains_any, count_byte, any, if◌then◌else◌, keep,
}
use syftbox.Base.Int.{pos, ltb_ℤ}
use syftbox.FilePath.{slash}
use syftbox.AclSpec.{Access, Limits, Rule, has_member, token_user, token_everyone}
use syftbox.Acl.Paths.{join_segments}
use syftbox.Acl.Level.{File, AclRequest, access_read, access_create, access_write, access_admin}
use syftbox.Acl.Matcher.{Env, Today, Matcher, is_template, matcher_from_pattern, match}

pub record AclRule : Type 0 where
  pub full_pattern : Text
  pub rule : Rule
  pub owner : Text
  pub matcher : Matcher

pub data AclError : Type 0 where
  no_admin_access no_write_access no_read_access : AclError
  dirs_not_allowed symlinks_not_allowed file_size_exceeded invalid_access_level : AclError
  nil_access : AclError

-- `resolveAccessList`: the set with the user in place of the token.
unfoldable pub resolve_access_list : List Text → Text → List Text
unfolding text_eq
resolve_access_list set user =
    if has_member set token_user
    then (let added = if has_member set user then set else set ++ (user ∷ []) in
        keep (λ m. not (text_eq m token_user)) added)
    else set

abbrev pub is_true : Option Bool → Bool
is_true none = false
is_true (some b) = b

abbrev pub levels_of : Access → List (List Text)
levels_of a = a.admin ∷ a.write ∷ a.read ∷ []

module _ (env : Env) where
  -- `NewACLRule`; `none` is a pattern whose template does not parse.
  unfoldable pub new_acl_rule : Text → Text → Rule → Option AclRule
  unfolding join_segments matcher_from_pattern
  new_acl_rule node_path owner rule =
      let full = join_segments (node_path ∷ rule.pattern ∷ []) in
      elim (matcher_from_pattern env full) [
        | none ↦ none
        | some m ↦ some (record { full_pattern = full; rule = rule; owner = owner; matcher = m })
      ]

  -- `ACLRule.Match`
  unfoldable pub rule_matches : Today → AclRule → Text → Text → Option Bool
  rule_matches now r path user = match env now r.matcher path user

  -- One member of a set against the user: a glob pattern is matched, and an error is no match.
  unfoldable pub member_matches : Text → Text → Bool
  unfolding contains_any
  member_matches user member =
      contains_any member (codes "*?[]") && is_true (env.glob_match member user)

  -- `hasAccess`
  unfoldable pub has_access : List Text → Text → Bool
  unfolding member_matches
  has_access set user =
      has_member set token_everyone || has_member set user || any (member_matches user) set

  -- The three tests of `CheckAccess`, each with the stronger ones in front.
  unfoldable pub is_admin : Access → Text → Bool
  is_admin a user = has_access (resolve_access_list a.admin user) user

  unfoldable pub is_writer : Access → Text → Bool
  is_writer a user = is_admin a user || has_access (resolve_access_list a.write user) user

  unfoldable pub is_reader : Access → Text → Bool
  is_reader a user = is_writer a user || has_access (resolve_access_list a.read user) user

  -- The `switch` of `CheckAccess` on the level.
  unfoldable pub check_level : Access → AclRequest → Option AclError
  check_level a req =
      if req.level == access_admin
      then (if is_admin a req.user then none else some no_admin_access)
      else if req.level == access_write || req.level == access_create
      then (if is_writer a req.user then none else some no_write_access)
      else if req.level == access_read
      then (if is_reader a req.user then none else some no_read_access)
      else some invalid_access_level

  -- `CheckAccess`; `none` is success. Reading a nil access list would panic.
  unfoldable pub check_access : AclRule → AclRequest → Option AclError
  unfolding check_level
  check_access r req =
      if text_eq r.owner req.user
      then none
      else elim r.rule.access [ none ↦ some nil_access | some a ↦ check_level a req ]

-- The three tests of `CheckLimits` on limits that are there.
unfoldable pub check_file : Limits → Text → File → Option AclError
unfolding count_byte
check_file limits path file =
    if ltb_ℤ (pos 0) limits.max_file_size && ltb_ℤ limits.max_file_size file.size
    then some file_size_exceeded
    else if not limits.allow_dirs && (file.is_dir || ltb 0 (count_byte slash path))
    then some dirs_not_allowed
    else if not limits.allow_symlinks && file.is_symlink
    then some symlinks_not_allowed
    else none

-- `CheckLimits`, which is called for a request with a file
unfoldable pub check_limits : AclRule → AclRequest → File → Option AclError
unfolding check_file
check_limits r req file = elim r.rule.limits [ none ↦ none | some l ↦ check_file l req.path file ]

-- `hasUserToken`
unfoldable pub has_user_token : Access → Bool
unfolding has_member
has_user_token a =
    has_member a.admin token_user || has_member a.write token_user || has_member a.read token_user

abbrev resolved_access : Access → Text → Access
resolved_access a user = record {
  admin = resolve_access_list a.admin user;
  read = resolve_access_list a.read user;
  write = resolve_access_list a.write user;
}

with_access : AclRule → Option Access → AclRule
with_access r a = let rule = r.rule in record r { rule = record rule { access = a } }

-- `Compile`; the token is looked for only in the rules of a template.
unfoldable pub compile : AclRule → Text → AclRule
unfolding has_user_token with_access
compile r user = if not (is_template r.matcher) then r else elim r.rule.access [
  | none ↦ r
  | some a ↦ if not (has_user_token a) then r else with_access r (some (resolved_access a user))
]
