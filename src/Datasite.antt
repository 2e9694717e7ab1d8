-- ===== src/Datasite.antt =====
-- internal/server/datasite/utils.go and internal/utils/email.go: the owner of a path and the paths
-- and emails that the server takes. `parses` is mail.ParseAddress, which accepts or refuses a text.
pub mod Domains
pub mod View
use syftbox.Base.{
  ℕ, Bool, true, false, not, ◌&&◌, ◌||◌, List, [], ◌∷◌, Text, codes, ◌==◌, leb, all, any, text_eq,
  has_prefix, contains, split, if◌then◌else◌,
}
use syftbox.FilePath.{slash}
use syftbox.Acl.Paths.{norm_path}
use syftbox.Acl.Specificity.{first_part}

-- `\s` of Go's regular expressions.
abbrev pub is_blank : ℕ → Bool
is_blank c = (c == 32) || (c == 9) || (c == 10) || (c == 12) || (c == 13)

-- A character of `[^\s@]`.
abbrev pub is_word : ℕ → Bool
is_word c = not (is_blank c) && not (c == b'@')

-- `[^\s@]*/`: a slash before the first character that is no word.
unfoldable pub to_slash : Text → Bool
to_slash [] = false
to_slash (c ∷ s) = is_word c && ((c == slash) || to_slash s)

-- `[^\s@]+/`
unfoldable pub top_then_slash : Text → Bool
unfolding to_slash
top_then_slash [] = false
top_then_slash (c ∷ s) = is_word c && to_slash s

-- `[^\s@]+$`
unfoldable pub top_then_end : Text → Bool
top_then_end [] = false
top_then_end (c ∷ s) = is_word c && all is_word s

-- `[^\s@]*\.` and the rest of the expression.
unfoldable pub to_dot : (Text → Bool) → Text → Bool
to_dot rest [] = false
to_dot rest (c ∷ s) = is_word c && (((c == b'.') && rest s) || to_dot rest s)

-- `[^\s@]+\.` and the rest.
unfoldable pub domain_then : (Text → Bool) → Text → Bool
unfolding to_dot
domain_then rest [] = false
domain_then rest (c ∷ s) = is_word c && to_dot rest s

-- `[^\s@]*@` and the rest: only one `@` can follow words.
unfoldable pub to_at : (Text → Bool) → Text → Bool
to_at rest [] = false
to_at rest (c ∷ s) = if c == b'@' then rest s else is_word c && to_at rest s

-- `^[^\s@]+@[^\s@]+\.` and the rest.
unfoldable pub address_then : (Text → Bool) → Text → Bool
unfolding to_at domain_then
address_then rest [] = false
address_then rest (c ∷ s) = is_word c && to_at (domain_then rest) s

-- `IsValidPath`
unfoldable pub is_valid_path : Text → Bool
unfolding address_then top_then_slash
is_valid_path = address_then top_then_slash

-- `IsValidEmail`
unfoldable pub is_valid_email : (Text → Bool) → Text → Bool
unfolding address_then top_then_end
is_valid_email parses email = parses email && address_then top_then_end email

-- `CleanPath`, which is `ACLNormPath` where the separator is the slash.
abbrev pub clean_path : Text → Text
clean_path = norm_path

-- `GetOwner`; the empty text stands for none.
unfoldable pub get_datasite : (Text → Bool) → Text → Text
unfolding split first_part
get_datasite parses path =
    let email = first_part (split slash (clean_path path)) in
    if is_valid_email parses email then email else []

-- `IsOwner`: a test for a prefix of the text, not for the first segment.
unfoldable pub owns : Text → Text → Bool
unfolding has_prefix
owns path user = has_prefix (clean_path path) user

abbrev pub begins_with_tilde : Text → Bool
begins_with_tilde [] = false
begins_with_tilde (c ∷ _) = c == b'~'

-- `IsValidRelPath` and `isValidVanityDomainPath`
unfoldable pub is_valid_rel_path : Text → Bool
unfolding contains
is_valid_rel_path path =
    not (contains path (codes "..") || begins_with_tilde path || any (λ c. c == 92) path)

-- `isHexString`
unfoldable pub is_hex_string : Text → Bool
is_hex_string =
    all
      (λ c. (leb b'0' c && leb c b'9') || (leb b'a' c && leb c b'f') || (leb b'A' c && leb c b'F'))
