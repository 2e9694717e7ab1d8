-- ===== src/AclSpec.antt =====
-- internal/aclspec: what a `syft.pub.yaml` file says. A set of users (`mapset.Set`) is the list of
-- its elements. A nil pointer is `none`. The YAML decoding itself is not modelled.
pub mod Defaults
use syftbox.Base.{
  ℕ, Bool, true, false, ◌||◌, List, [], ◌∷◌, ◌++◌, Option, none, some, Text, codes, text_eq,
  trim_suffix, any, if◌then◌else◌,
}
use syftbox.Base.Int.{ℤ, pos}
use syftbox.FilePath.{base, join_path, is_empty}

abbrev pub file_name : Text
file_name = codes "syft.pub.yaml"

abbrev pub token_user : Text
token_user = codes "USER"

abbrev pub token_everyone : Text
token_everyone = codes "*"

abbrev pub all_files : Text
all_files = codes "**"

-- `IsACLFile`
unfoldable pub is_acl_file : Text → Bool
unfolding base text_eq
is_acl_file path = text_eq (base path) file_name

-- `AsACLPath`
unfoldable pub as_acl_path : Text → Text
unfolding is_acl_file join_path
as_acl_path path = if is_acl_file path then path else join_path path file_name

-- `WithoutACLPath`
unfoldable pub without_acl_path : Text → Text
unfolding trim_suffix
without_acl_path path = trim_suffix path file_name

pub record Access : Type 0 where
  pub admin : List Text
  pub read : List Text
  pub write : List Text

-- `Contains` of a set of users.
unfoldable pub has_member : List Text → Text → Bool
has_member set u = any (λ m. text_eq m u) set

-- `NewAccess`, which takes the lists in the order admin, write, read.
unfoldable pub new_access : List Text → List Text → List Text → Access
new_access admin write read = record { admin = admin; read = read; write = write }

-- `PrivateAccess`
unfoldable pub private_access : Access
unfolding new_access
private_access = new_access [] [] []

-- `PublicReadAccess`
unfoldable pub public_read_access : Access
unfolding new_access
public_read_access = new_access [] [] (token_everyone ∷ [])

-- `PublicReadWriteAccess`
unfoldable pub public_read_write_access : Access
unfolding new_access
public_read_write_access = new_access [] (token_everyone ∷ []) []

-- `SharedReadAccess`
unfoldable pub shared_read_access : List Text → Access
unfolding new_access
shared_read_access users = new_access [] [] users

-- `SharedReadWriteAccess`
unfoldable pub shared_read_write_access : List Text → Access
unfolding new_access
shared_read_write_access users = new_access [] users []

pub record Limits : Type 0 where
  pub max_file_size : ℤ  -- int64
  pub max_files : ℕ  -- uint32
  pub allow_dirs : Bool
  pub allow_symlinks : Bool

-- `DefaultLimits`
abbrev pub default_limits : Limits
default_limits = record {
  max_file_size = pos 0;
  max_files = 0;
  allow_dirs = true;
  allow_symlinks = false;
}

-- `Rule`; a rule read from a file may lack its access list, and always lacks limits.
pub record Rule : Type 0 where
  pub pattern : Text
  pub access : Option Access
  pub limits : Option Limits

-- `NewDefaultRule`
unfoldable pub new_default_rule : Access → Limits → Rule
new_default_rule a l = record { pattern = all_files; access = some a; limits = some l }

pub record RuleSet : Type 0 where
  pub rules : Option (List Rule)
  pub terminal : Bool
  pub path : Text

-- `NewRuleSet`
unfoldable pub new_rule_set : Text → Bool → List Rule → RuleSet
unfolding without_acl_path
new_rule_set path terminal rules = record {
  rules = some rules;
  terminal = terminal;
  path = without_acl_path path;
}

pub data SpecError : Type 0 where
  empty_pattern nil_access : SpecError

pub data Checked : Type 0 where
  rejected : SpecError → Checked
  checked : List Rule → Bool → Checked

-- What one round of the loop of `setDefaults` does with a rule: an error, or the rule with limits.
check_rule : Rule → Option SpecError
unfolding is_empty
check_rule r =
    if is_empty r.pattern
    then some empty_pattern
    else elim r.access [ none ↦ some nil_access | some _ ↦ none ]

with_limits : Rule → Rule
with_limits r = elim r.limits [ none ↦ record r { limits = some default_limits } | some _ ↦ r ]

-- The loop of `setDefaults`, with the flag `hasDefault`.
check_rules : List Rule → Bool → Checked
unfolding check_rule with_limits text_eq
check_rules [] found = checked [] found
check_rules (r ∷ rs) found =
    let rest = check_rules rs (found || text_eq r.pattern all_files) in
    elim (check_rule r) [
      | some e ↦ rejected e
      | none ↦ elim rest [ rejected e ↦ rejected e | checked l f ↦ checked (with_limits r ∷ l) f ]
    ]

pub data Loaded : Type 0 where
  bad : SpecError → Loaded
  loaded : RuleSet → Loaded

default_rule : Rule
unfolding new_default_rule private_access
default_rule = new_default_rule private_access default_limits

-- `setDefaults`
unfoldable pub set_defaults : RuleSet → Loaded
unfolding check_rules default_rule
set_defaults s = elim s.rules [
  | none ↦ loaded (record s { rules = some (default_rule ∷ []) })
  | some rs ↦ elim (check_rules rs false) [
    | rejected e ↦ bad e
    | checked l found ↦
        loaded (record s { rules = some (if found then l else l ++ (default_rule ∷ [])) })
  ]
]
