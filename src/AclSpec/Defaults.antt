-- ===== src/AclSpec/Defaults.antt =====
-- internal/aclspec/ruleset.go, setDefaults.
use syftbox.Base.{
  ◌≡◌, refl, Bool, true, false, not, ◌&&◌, ◌||◌, List, [], ◌∷◌, ◌++◌, Option, none, some, text_eq,
  any, all, arith, is_some, if◌then◌else◌, Option-cases, sym, ◌∙◌, inl, inr,
}
use syftbox.FilePath.{is_empty}
use syftbox.AclSpec.{
  Rule, RuleSet, SpecError, Loaded, bad, loaded, Checked, checked, rejected, check_rule,
  check_rules, with_limits, set_defaults, default_rule, all_files, new_default_rule,
}

-- A rule as the tree uses it.
abbrev pub is_complete : Rule → Bool
is_complete r = not (is_empty r.pattern) && is_some r.access && is_some r.limits

-- A rule that `setDefaults` refuses.
abbrev pub is_faulty : Rule → Bool
is_faulty r = is_empty r.pattern || not (is_some r.access)

abbrev pub is_default : Rule → Bool
is_default r = text_eq r.pattern all_files

abbrev rules_of : RuleSet → List Rule
rules_of s = elim s.rules [ none ↦ [] | some rs ↦ rs ]

-- What `setDefaults` promises: an error only for a ruleset with a faulty rule, and otherwise
-- complete rules, of which one is for all files.
abbrev pub Promised : RuleSet → Loaded → Type 0
Promised s (bad e) = any is_faulty (rules_of s) ≡ true
Promised s (loaded t) =
    (any is_faulty (rules_of s) ≡ false)
    × ((all is_complete (rules_of t) ≡ true) × (any is_default (rules_of t) ≡ true))

abbrev Checks : List Rule → Bool → Checked → Type 0
Checks rs found (rejected e) = any is_faulty rs ≡ true
Checks rs found (checked l f) =
    (any is_faulty rs ≡ false)
    × ((all is_complete l ≡ true)
        × ((f ≡ (found || any is_default rs)) × (any is_default l ≡ any is_default rs)))

-- The head of `check_rules`, over what its rest gives.
abbrev join_checked : Rule → Option SpecError → Checked → Checked
join_checked r o c = elim o [
  | some e ↦ rejected e
  | none ↦ elim c [ rejected e ↦ rejected e | checked l f ↦ checked (with_limits r ∷ l) f ]
]

check_rule_lem : (r : Rule) → (is_some (check_rule r) ≡ is_faulty r)
unfolding check_rule
check_rule_lem r = ground arith

with_limits_lem :
    (r : Rule)
    → is_faulty r ≡ false
    → (is_complete (with_limits r) ≡ true) × (is_default (with_limits r) ≡ is_default r)
unfolding with_limits
with_limits_lem r h = elim (Option-cases r.limits) [
  | inl e ↦ rw (e) (ground arith, refl)
  | inr (l, e) ↦ rw (e) (ground arith, refl)
]

join_checked_lem :
    (r : Rule) (rs : List Rule) (found : Bool) (o : Option SpecError) (c : Checked)
    → is_some o ≡ is_faulty r
    → Checks rs (found || is_default r) c
    → Checks (r ∷ rs) found (join_checked r o c)
join_checked_lem r rs found (some e) c h k = ground arith
join_checked_lem r rs found none (rejected e) h k = ground arith
join_checked_lem r rs found none (checked l f) h (a, (b, (c, d))) =
    let w = with_limits_lem r (sym h) in
    (ground arith, (ground (arith, w.0), (ground arith, ground (arith, w.1))))

check_rules_lem : (rs : List Rule) (found : Bool) → Checks rs found (check_rules rs found)
unfolding check_rules
check_rules_lem [] found = (refl, (refl, (ground arith, refl)))
check_rules_lem (r ∷ rs) found =
    join_checked_lem r rs found (check_rule r) _ (check_rule_lem r)
      (check_rules_lem rs (found || is_default r))

abbrev finish : RuleSet → Checked → Loaded
finish s c = elim c [
  | rejected e ↦ bad e
  | checked l found ↦
      loaded (record s { rules = some (if found then l else l ++ (default_rule ∷ [])) })
]

default_complete : (is_complete default_rule ≡ true) × (is_default default_rule ≡ true)
unfolding default_rule new_default_rule is_empty text_eq
default_complete = (refl, refl)

all_append : (l m : List Rule) → all is_complete (l ++ m) ≡ (all is_complete l && all is_complete m)
all_append [] m = refl
all_append (r ∷ l) m = ground (arith, all_append l m)

any_append : (l m : List Rule) → any is_default (l ++ m) ≡ (any is_default l || any is_default m)
any_append [] m = refl
any_append (r ∷ l) m = ground (arith, any_append l m)

finish_lem :
    (s : RuleSet) (rs : List Rule) (c : Checked)
    → rules_of s ≡ rs
    → Checks rs false c
    → Promised s (finish s c)
finish_lem s rs (rejected e) h k = rw (h) k
finish_lem s rs (checked l true) h (a, (b, (c, d))) = (rw (h) a, (b, d ∙ sym c))
finish_lem s rs (checked l false) h (a, (b, (c, d))) = (
  rw (h) a,
  (
    ground (arith, all_append l (default_rule ∷ []), default_complete),
    ground (arith, any_append l (default_rule ∷ []), default_complete),
  ),
)

-- `setDefaults` refuses exactly the rulesets with a rule that has no pattern or no access, and of
-- all others it leaves rules that have a pattern, access and limits, one of them for all files.
pub set_defaults-Promised : (s : RuleSet) → Promised s (set_defaults s)
unfolding set_defaults
set_defaults-Promised s = elim (Option-cases s.rules) [
  | inl h ↦ rw (h) (refl, (ground (arith, default_complete), ground (arith, default_complete)))
  | inr (rs, h) ↦ rw (h) (
      finish_lem (record s { rules = some rs }) rs (check_rules rs false) refl
        (check_rules_lem rs false))
]
