-- ===== src/Datasite/Domains/Allowed.antt =====
-- internal/server/datasite/datasite.go, isAllowedDomain: who may claim the subdomain of a hash.
use syftbox.Base.{
  ◌≡◌, refl, Bool, true, false, not, ◌&&◌, ◌||◌, [], ◌∷◌, ◌++◌, Text, text_eq, text_eq_refl,
  has_prefix, split-append, free_of, length, ◌==◌, ==_iff, ==_refl, arith, inl, inr, Bool-cases,
}
use syftbox.FilePath.{is_empty}
use syftbox.Acl.Specificity.{first_part}
use syftbox.Subdomain.{email_to_subdomain_hash}
use syftbox.Datasite.{is_hex_string}
use syftbox.Datasite.Domains.{
  full_stop, has_suffix, hash_domain, is_below, looks_hashed, is_allowed_domain,
}

-- A hash as `EmailToSubdomainHash` makes it: 16 hexadecimal digits.
abbrev pub IsHash : Text → Type 0
IsHash h = (length h ≡ 16) × (is_hex_string h ≡ true)

hex_free : (h : Text) → is_hex_string h ≡ true → free_of full_stop h ≡ true
unfolding is_hex_string
hex_free [] e = refl
hex_free (c ∷ h) e = ground (arith, hex_free h)

has_prefix-nil : (s : Text) → has_prefix s [] ≡ true
unfolding has_prefix
has_prefix-nil [] = refl
has_prefix-nil (c ∷ s) = refl

pub has_prefix-part :
    (h s : Text) → has_prefix (h ++ (full_stop ∷ s)) (h ++ (full_stop ∷ [])) ≡ true
unfolding has_prefix
has_prefix-part [] s = has_prefix-nil s
has_prefix-part (c ∷ h) s = rw (==_refl c) (has_prefix-part h s)

both : (p q : Bool) → (p && q) ≡ true → (p ≡ true) × (q ≡ true)
both p q h = ground arith

or_true : (p : Bool) → (p || true) ≡ true
or_true p = ground arith

-- A first part that another begins with, stops included, is the same.
first_parts_agree :
    (g h s : Text)
    → free_of full_stop g ≡ true
    → free_of full_stop h ≡ true
    → has_prefix (h ++ (full_stop ∷ s)) (g ++ (full_stop ∷ [])) ≡ true
    → g ≡ h
unfolding has_prefix
first_parts_agree [] [] s f k e = refl
first_parts_agree [] (d ∷ h) s f k e = ground arith
first_parts_agree (c ∷ g) [] s f k e = ground arith
first_parts_agree (c ∷ g) (d ∷ h) s f k e =
    let (same, rest) =
      both (d == c) (has_prefix (h ++ (full_stop ∷ s)) (g ++ (full_stop ∷ []))) e in
    let (_, f') = both (not (c == full_stop)) (free_of full_stop g) f in
    let (_, k') = both (not (d == full_stop)) (free_of full_stop h) k in
    let (to_eq, _) = ==_iff d c in rw (to_eq same, first_parts_agree g h s f' k' rest) refl

has_suffix-append : (s t : Text) → has_suffix (s ++ t) t ≡ true
unfolding has_suffix
has_suffix-append [] [] = refl
has_suffix-append [] (c ∷ t) = rw (==_refl c, text_eq_refl t) refl
has_suffix-append (c ∷ s) t = rw (has_suffix-append s t) (or_true (text_eq (c ∷ (s ++ t)) t))

looks_hashed-part :
    (sha : Text → Text) (domain h s : Text)
    → IsHash h
    → looks_hashed sha domain (h ++ (full_stop ∷ s)) ≡ true
unfolding looks_hashed first_part
looks_hashed-part sha domain h s (n, x) = rw (split-append full_stop h s (hex_free h x), n, x) refl

is_below-part :
    (sha : Text → Text) (domain h : Text)
    → is_empty domain ≡ false
    → is_below sha domain (h ++ (full_stop ∷ domain)) ≡ true
unfolding is_below
is_below-part sha domain h e =
    rw (e, has_suffix-append h (full_stop ∷ domain))
      (or_true (text_eq (h ++ (full_stop ∷ domain)) domain))

module _ (sha : Text → Text) (domain : Text) where
  -- No datasite may claim the subdomain of the hash of another: where hashes are 16 hexadecimal
  -- digits and the server has a domain, a name made of a hash and the domain is allowed only to a
  -- user of that very hash.
  pub is_allowed_domain-hash :
      ((email : Text) → IsHash (email_to_subdomain_hash sha email))
      → is_empty domain ≡ false
      → (owner user : Text)
      → is_allowed_domain sha domain (hash_domain sha domain owner) user ≡ true
      → email_to_subdomain_hash sha user ≡ email_to_subdomain_hash sha owner
  unfolding is_allowed_domain hash_domain
  is_allowed_domain-hash hashes e owner user h =
      let g = email_to_subdomain_hash sha user in
      let k = email_to_subdomain_hash sha owner in
      elim (Bool-cases (has_prefix (k ++ (full_stop ∷ domain)) (g ++ (full_stop ∷ [])))) [
        | inl p ↦
            first_parts_agree g k domain (hex_free g (hashes user).1) (hex_free k (hashes owner).1)
              p
        | inr p ↦ cc (
            rw
              (
                p,
                is_below-part sha domain k e,
                looks_hashed-part sha domain k domain (hashes owner),
              )
              at h)
      ]

  -- Every datasite may claim the subdomain of its own hash.
  pub is_allowed_domain_own :
      (user : Text) → is_allowed_domain sha domain (hash_domain sha domain user) user ≡ true
  unfolding is_allowed_domain hash_domain
  is_allowed_domain_own user = rw (has_prefix-part (email_to_subdomain_hash sha user) domain) refl
