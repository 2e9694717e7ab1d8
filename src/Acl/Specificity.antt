-- ===== src/Acl/Specificity.antt =====
-- internal/server/acl/utils.go: the order in which the rules of a node are tried, and owners.
-- `sort.Slice` is an insertion sort up to twelve rules and is read as one. Beyond, Go may order
-- rules of equal score in another way.
pub mod Sorted
use mathlib.Core.List.{foldl}
use syftbox.Base.{
  ℕ, ◌+◌, ◌*◌, Bool, true, false, ◌||◌, List, [], ◌∷◌, Text, codes, text_eq, length, count_byte,
  ◌==◌, has_prefix, split, if◌then◌else◌,
}
use syftbox.Base.Int.{ℤ, pos, negsuc, ◌-ℤ◌, ltb_ℤ}
use syftbox.FilePath.{slash}
use syftbox.AclSpec.{Rule, all_files}
use syftbox.Acl.Paths.{norm_path}
use syftbox.Acl.Matcher.{has_template_pattern}

-- What one character takes off the score; the flag tells the first character. The loop of the
-- source goes over code points, and the tested ones are single bytes.
penalty : Bool → ℕ → ℕ
penalty first c =
    if c == b'*'
    then (if first then 20 else 10)
    else if c == b'?' || c == b'!' || c == b'[' || c == b'{'
    then 2
    else 0

penalties : Bool → Text → ℕ
unfolding penalty
penalties first [] = 0
penalties first (c ∷ s) = penalty first c + penalties false s

-- `calculateGlobSpecificity`
unfoldable pub specificity : Text → ℤ
unfolding penalties text_eq count_byte has_template_pattern
specificity glob =
    if text_eq glob all_files
    then negsuc 99
    else if text_eq glob (codes "**/*")
    then negsuc 98
    else pos (
        length glob * 2
        + count_byte slash glob * 10
        + (if has_template_pattern glob then 50 else 0))
      -ℤ pos (penalties true glob)

abbrev pub score : Rule → ℤ
score r = specificity r.pattern

-- A rule moves in front of the rules of a lower score, and stays behind its equals.
place : Rule → List Rule → List Rule
place x [] = x ∷ []
place x (y ∷ ys) = if ltb_ℤ (score y) (score x) then x ∷ y ∷ ys else y ∷ place x ys

-- `sortRulesBySpecificity`
unfoldable pub sort_rules : List Rule → List Rule
unfolding place
sort_rules = foldl (λ sorted x. place x sorted) []

unfoldable pub first_part : List Text → Text
first_part [] = []
first_part (p ∷ _) = p

-- `getOwner`
unfoldable pub get_owner : Text → Text
unfolding split first_part
get_owner path = first_part (split slash path)

-- `isOwner`: a test for a prefix of the text, not for the first segment.
unfoldable pub is_owner : Text → Text → Bool
unfolding norm_path has_prefix
is_owner path user = has_prefix (norm_path path) user
