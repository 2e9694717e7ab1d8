-- ===== src/Subdomain.antt =====
-- internal/server/datasite/subdomain_mapping.go and subdomain_utils.go: which subdomain belongs to
-- which datasite. `sha` stands for the hexadecimal SHA-256 of crypto/sha256.
pub mod Consistent
pub mod Removal
use syftbox.Base.{
  ℕ, ◌+◌, ◌-◌, suc, zero, Bool, true, false, not, ◌&&◌, ◌||◌, List, [], ◌∷◌, ◌++◌, Option, none,
  some, Text, ltb, leb, text_eq, is_some, ◌==◌, if◌then◌else◌,
}
use syftbox.Base.Dict.{Dict, lookup, insert, erase, filter}
use mathlib.Core.List.{map}

-- The ASCII part of `strings.ToLower`.
abbrev lower : ℕ → ℕ
lower c = if leb b'A' c && leb c b'Z' then c + 32 else c

-- The ASCII characters that `strings.TrimSpace` takes away.
abbrev is_space : ℕ → Bool
is_space c = (c == 32) || (leb 9 c && leb c 13)

unfoldable pub drop_spaces : Text → Text
drop_spaces [] = []
drop_spaces (c ∷ cs) = let rest = drop_spaces cs in if is_space c then rest else c ∷ cs

unfoldable pub reverse_onto : Text → Text → Text
reverse_onto [] acc = acc
reverse_onto (c ∷ cs) acc = reverse_onto cs (c ∷ acc)

-- `strings.TrimSpace`
unfoldable pub trim_space : Text → Text
trim_space t = reverse_onto (drop_spaces (reverse_onto (drop_spaces t) [])) []

-- The first bytes of a text.
unfoldable pub take : ℕ → Text → Text
take zero t = []
take (suc n) [] = []
take (suc n) (c ∷ cs) = c ∷ take n cs

-- `VanityDomainConfig`
pub record VanityDomainConfig : Type 0 where
  pub email : Text
  pub path : Text

-- `SubdomainMapping`
pub record SubdomainMapping : Type 0 where
  pub hash_to_email : Dict Text
  pub email_to_hash : Dict Text
  pub vanity_domains : Dict VanityDomainConfig

-- `NewSubdomainMapping`
unfoldable pub new_subdomain_mapping : SubdomainMapping
new_subdomain_mapping = record { hash_to_email = []; email_to_hash = []; vanity_domains = [] }

module _ (sha : Text → Text) where
  -- `EmailToSubdomainHash`
  unfoldable pub email_to_subdomain_hash : Text → Text
  email_to_subdomain_hash email = take 16 (sha (map lower (trim_space email)))

  -- The two assignments of a new mapping.
  unfoldable pub put_mapping : Text → SubdomainMapping → SubdomainMapping
  put_mapping email s =
      let hash = email_to_subdomain_hash email in
      record s {
        hash_to_email = insert hash email s.hash_to_email;
        email_to_hash = insert email hash s.email_to_hash;
      }

  -- What `AddMapping` does after its read of the map.
  abbrev pub known_or_put : Text → SubdomainMapping → Option Text → Text × SubdomainMapping
  known_or_put email s (some hash) = (hash, s)
  known_or_put email s none = (email_to_subdomain_hash email, put_mapping email s)

  -- `AddMapping`
  unfoldable pub add_mapping : Text → SubdomainMapping → Text × SubdomainMapping
  add_mapping email s = known_or_put email s (lookup email s.email_to_hash)

  -- `LoadMappings`
  unfoldable pub load_mappings : List Text → SubdomainMapping → SubdomainMapping
  load_mappings [] s = s
  load_mappings (email ∷ more) s = load_mappings more (put_mapping email s)

-- `GetEmailByHash`; a missing entry is an error.
abbrev pub get_email_by_hash : Text → SubdomainMapping → Option Text
get_email_by_hash hash s = lookup hash s.hash_to_email

-- `GetHashByEmail`; a missing entry is an error.
abbrev pub get_hash_by_email : Text → SubdomainMapping → Option Text
get_hash_by_email email s = lookup email s.email_to_hash

-- What `RemoveMapping` does after its read of the map.
abbrev pub remove_found : Text → SubdomainMapping → Option Text → SubdomainMapping
remove_found email s none = s
remove_found email s (some hash) = record s {
  hash_to_email = erase hash s.hash_to_email;
  email_to_hash = erase email s.email_to_hash;
}

-- `RemoveMapping`
unfoldable pub remove_mapping : Text → SubdomainMapping → SubdomainMapping
remove_mapping email s = remove_found email s (lookup email s.email_to_hash)

-- `GetAllMappings`, whose copy is the value.
abbrev pub get_all_mappings : SubdomainMapping → Dict Text
get_all_mappings s = s.hash_to_email

-- `AddVanityDomain`
unfoldable pub add_vanity_domain : Text → Text → Text → SubdomainMapping → SubdomainMapping
add_vanity_domain domain email path s = record s {
  vanity_domains = insert domain (record { email = email; path = path }) s.vanity_domains;
}

-- `GetVanityDomain`
abbrev pub get_vanity_domain : Text → SubdomainMapping → Option VanityDomainConfig
get_vanity_domain domain s = lookup domain s.vanity_domains

-- `RemoveVanityDomain`
unfoldable pub remove_vanity_domain : Text → SubdomainMapping → SubdomainMapping
remove_vanity_domain domain s = record s { vanity_domains = erase domain s.vanity_domains }

-- `ClearVanityDomains`
unfoldable pub clear_vanity_domains : Text → SubdomainMapping → SubdomainMapping
clear_vanity_domains email s = record s {
  vanity_domains = filter (λ _ c. not (text_eq c.email email)) s.vanity_domains;
}

-- `GetAllVanityDomains`, whose copies are the values.
abbrev pub get_all_vanity_domains : SubdomainMapping → Dict VanityDomainConfig
get_all_vanity_domains s = s.vanity_domains

-- `GetMapping`; `none` is nil.
abbrev pub get_mapping : Text → SubdomainMapping → Option VanityDomainConfig
get_mapping domain s = lookup domain s.vanity_domains

-- `HasDatasite`
unfoldable pub has_datasite : Text → SubdomainMapping → Bool
has_datasite email s = is_some (lookup email s.email_to_hash)
