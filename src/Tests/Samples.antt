-- ===== src/Tests/Samples.antt =====
-- Concrete data for the tests of the access control: a library behind each interface, three
-- rulesets and the services that hold them.
use syftbox.Base.{
  ◌≡◌, refl, Bool, true, false, List, [], ◌∷◌, none, some, Text, codes, text_eq, has_prefix,
  trim_suffix, any, arith, length,
}
use syftbox.Base.Dict
use syftbox.Base.Dict.{Dict}
use syftbox.AclSpec.{Access, Rule, RuleSet, default_limits}
use syftbox.Acl.Level.{AclRequest, Level}
use syftbox.Acl.Matcher.{Env, Today}
use syftbox.Acl.Cache.{Lru, IsLawful}

-- Patterns that end in two stars match what begins like them.
abbrev pub env : Env
unfolding has_prefix trim_suffix text_eq
env = record {
  glob_match = λ p s. some (has_prefix s (trim_suffix p (codes "**")));
  template_parses = λ t. true;
  template_execute = λ t d. some t;
  hash_16 = λ u. u;
}

abbrev pub now : Today
now = record { year = codes "2025"; month = codes "07"; day = codes "12" }

-- A cache that never forgets.
abbrev pub table : Lru
table = record {
  State = Dict Bool;
  empty = [];
  get = λ s k. (Dict.lookup k s, s);
  add = λ s k v. Dict.insert k v s;
  remove = λ s k. Dict.erase k s;
  keys = λ s. Dict.keys s;
  size = λ s. length s;
}

keys_of_lookup :
    (d : Dict Bool) (k : Text) (b : Bool)
    → Dict.lookup k d ≡ some b
    → any (λ j. text_eq j k) (Dict.keys d) ≡ true
unfolding Dict.lookup
keys_of_lookup [] k b h = cc
keys_of_lookup ((j, v) ∷ d) k b h = ground (arith, keys_of_lookup d k b)

lookup_nil : (k : Text) → Dict.lookup {V = Bool} k [] ≡ none
unfolding Dict.lookup
lookup_nil k = refl

pub table-IsLawful : IsLawful table
table-IsLawful = record {
  get-empty = λ k. lookup_nil k;
  get-get = λ s j k h. h;
  get-add = λ s j k v h. rw (Dict.lookup-insert j k v s) at h;
  get-remove = λ s j k h. rw (Dict.lookup-erase j k s) at h;
  keys_complete = λ s k {b} h. keys_of_lookup s k b h;
}

abbrev pub access : List Text → List Text → List Text → Access
access admin write read = record { admin = admin; read = read; write = write }

abbrev pub rule : Text → Access → Rule
rule pattern a = record { pattern = pattern; access = some a; limits = some default_limits }

abbrev pub alice : Text
alice = codes "alice@x.co"

abbrev pub bob : Text
bob = codes "bob@y.co"

-- The root of Alice's datasite: Bob may read.
abbrev pub root_rules : RuleSet
root_rules = record {
  rules = some (rule (codes "**") (access [] [] (bob ∷ [])) ∷ []);
  terminal = false;
  path = codes "alice@x.co/";
}

-- A folder below: Bob is an admin, and everyone may write.
abbrev pub open_rules : RuleSet
open_rules = record {
  rules = some (rule (codes "**") (access (bob ∷ []) (codes "*" ∷ []) []) ∷ []);
  terminal = true;
  path = codes "alice@x.co/pub/";
}

-- A folder below that.
abbrev pub deep_rules : RuleSet
deep_rules = record {
  rules = some (rule (codes "**") (access [] [] []) ∷ []);
  terminal = false;
  path = codes "alice@x.co/pub/in/";
}

abbrev pub request : Text → Text → Level → AclRequest
request path user level = record { path = path; level = level; user = user; file = none }
