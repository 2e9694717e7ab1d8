-- ===== src/Tests/Rules.antt =====
-- The defaults and the order of rules, at concrete data.
use syftbox.Base.{List, ◌≡◌, refl, [], ◌∷◌, codes, text_eq, contains, count_byte}
use syftbox.Base.Int.{◌-ℤ◌}
use mathlib.Core.List.{map}
use syftbox.AclSpec.{Rule}
use syftbox.Acl.Matcher.{has_template_pattern}
use syftbox.Acl.Specificity.{specificity, sort_rules}
use syftbox.Tests.Samples.{access, rule}

opened : Unit {0}
unfolding text_eq count_byte has_template_pattern contains ◌-ℤ◌ specificity sort_rules
opened = tt

abbrev mixed : List Rule
mixed =
    rule (codes "**") (access [] [] [])
    ∷ rule (codes "a/*.txt") (access [] [] [])
    ∷ rule (codes "*") (access [] [] [])
    ∷ []

sorted_runs :
    map (λ (r : Rule). r.pattern) (sort_rules mixed) ≡ codes "a/*.txt" ∷ codes "*" ∷ codes "**" ∷ []
unfolding opened
sorted_runs = refl
