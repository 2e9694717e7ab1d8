-- ===== src/Subdomain/Consistent.antt =====
-- internal/server/datasite/subdomain_mapping.go: sequences of operations on the two directions.
use syftbox.Base.{◌≡◌, refl, List, [], ◌∷◌, Option, none, some, Text, arith, text_eq_iff, ◌∙◌, ap}
use syftbox.Base.Dict.{lookup, lookup-insert, lookup-erase, lookup-insert_self}
use syftbox.Subdomain.{
  SubdomainMapping, new_subdomain_mapping, email_to_subdomain_hash, put_mapping, known_or_put,
  add_mapping, load_mappings, remove_mapping, remove_found, add_vanity_domain, remove_vanity_domain,
  clear_vanity_domains,
}

-- The operations that change the mapping.
pub data Operation : Type 0 where
  added : Text → Operation
  loaded : List Text → Operation
  removed : Text → Operation
  vanity_added : Text → Text → Text → Operation
  vanity_removed : Text → Operation
  vanity_cleared : Text → Operation

module _ (sha : Text → Text) where
  abbrev hash_of : Text → Text
  hash_of = email_to_subdomain_hash sha

  unfoldable pub apply : Operation → SubdomainMapping → SubdomainMapping
  apply (added email) s = (add_mapping sha email s).1
  apply (loaded emails) s = load_mappings sha emails s
  apply (removed email) s = remove_mapping email s
  apply (vanity_added domain email path) s = add_vanity_domain domain email path s
  apply (vanity_removed domain) s = remove_vanity_domain domain s
  apply (vanity_cleared email) s = clear_vanity_domains email s

  unfoldable pub apply_all : List Operation → SubdomainMapping → SubdomainMapping
  unfolding apply
  apply_all [] s = s
  apply_all (o ∷ os) s = apply_all os (apply o s)

  -- Every email stands with its hash, and every hash with an email that stands with it.
  pub record IsConsistent (s : SubdomainMapping) : Type 0 where
    pub hashed :
        (e h : Text) → lookup e s.email_to_hash ≡ some h → h ≡ email_to_subdomain_hash sha e
    pub mapped :
        (e h : Text) → lookup h s.hash_to_email ≡ some e → lookup e s.email_to_hash ≡ some h

  put_mapping-IsConsistent :
      (e : Text) (s : SubdomainMapping) → IsConsistent s → IsConsistent (put_mapping sha e s)
  unfolding put_mapping
  put_mapping-IsConsistent e s c = record {
    hashed = λ e' h' q.
        ground
          (arith, text_eq_iff e e', lookup-insert e e' (hash_of e) s.email_to_hash, c.hashed e' h');
    mapped = λ e' h' q. ground (
      arith,
      text_eq_iff e e',
      text_eq_iff (hash_of e) h',
      lookup-insert (hash_of e) h' e s.hash_to_email,
      lookup-insert e e' (hash_of e) s.email_to_hash,
      c.hashed e' h',
      c.mapped e' h',
    );
  }

  load_mappings-IsConsistent :
      (es : List Text) (s : SubdomainMapping)
      → IsConsistent s
      → IsConsistent (load_mappings sha es s)
  unfolding load_mappings
  load_mappings-IsConsistent [] s c = c
  load_mappings-IsConsistent (e ∷ es) s c =
      load_mappings-IsConsistent es (put_mapping sha e s) (put_mapping-IsConsistent e s c)

  add_mapping-IsConsistent :
      (e : Text) (s : SubdomainMapping) → IsConsistent s → IsConsistent (add_mapping sha e s).1
  unfolding add_mapping
  add_mapping-IsConsistent e s c =
      elim (lookup e s.email_to_hash) as (λ o. IsConsistent (known_or_put sha e s o).1) [
        | none ↦ put_mapping-IsConsistent e s c
        | some h ↦ c
      ]

  remove_found-IsConsistent :
      (e : Text) (s : SubdomainMapping) (o : Option Text)
      → lookup e s.email_to_hash ≡ o
      → IsConsistent s
      → IsConsistent (remove_found e s o)
  remove_found-IsConsistent e s none q c = c
  remove_found-IsConsistent e s (some h) q c = record {
    hashed = λ e' h' r. ground (arith, lookup-erase e e' s.email_to_hash, c.hashed e' h');
    mapped = λ e' h' r. ground (
      arith,
      text_eq_iff e e',
      text_eq_iff h h',
      lookup-erase e e' s.email_to_hash,
      lookup-erase h h' s.hash_to_email,
      c.mapped e' h',
      c.hashed e h,
      c.hashed e' h',
    );
  }

  apply-IsConsistent :
      (o : Operation) (s : SubdomainMapping) → IsConsistent s → IsConsistent (apply o s)
  unfolding apply remove_mapping add_vanity_domain remove_vanity_domain clear_vanity_domains
  apply-IsConsistent (added e) s c = add_mapping-IsConsistent e s c
  apply-IsConsistent (loaded es) s c = load_mappings-IsConsistent es s c
  apply-IsConsistent (removed e) s c =
      remove_found-IsConsistent e s (lookup e s.email_to_hash) refl c
  apply-IsConsistent (vanity_added d e p) s c = record { hashed = c.hashed; mapped = c.mapped }
  apply-IsConsistent (vanity_removed d) s c = record { hashed = c.hashed; mapped = c.mapped }
  apply-IsConsistent (vanity_cleared e) s c = record { hashed = c.hashed; mapped = c.mapped }

  -- Operations keep the mapping consistent: every email stands with its own hash, and every hash
  -- with an email that stands with that hash.
  pub apply_all-IsConsistent :
      (os : List Operation) (s : SubdomainMapping) → IsConsistent s → IsConsistent (apply_all os s)
  unfolding apply_all
  apply_all-IsConsistent [] s c = c
  apply_all-IsConsistent (o ∷ os) s c =
      apply_all-IsConsistent os (apply o s) (apply-IsConsistent o s c)

  pub new_subdomain_mapping-IsConsistent : IsConsistent new_subdomain_mapping
  unfolding new_subdomain_mapping lookup
  new_subdomain_mapping-IsConsistent = record {
    hashed = λ e h q. ground arith;
    mapped = λ e h q. ground arith;
  }

  known_or_put_hash :
      (e : Text) (s : SubdomainMapping) (o : Option Text)
      → lookup e s.email_to_hash ≡ o
      → IsConsistent s
      → let added = known_or_put sha e s o in
        (added.0 ≡ hash_of e) × (lookup e added.1.email_to_hash ≡ some (hash_of e))
  unfolding put_mapping
  known_or_put_hash e s none q c = (refl, lookup-insert_self e (hash_of e) s.email_to_hash)
  known_or_put_hash e s (some h) q c = (c.hashed e h q, q ∙ ap some (c.hashed e h q))

  -- In a consistent mapping `AddMapping` returns the hash of the email, and `GetHashByEmail` then
  -- finds it.
  pub get_hash_by_email-add_mapping :
      (e : Text) (s : SubdomainMapping)
      → IsConsistent s
      → let added = add_mapping sha e s in
        (added.0 ≡ email_to_subdomain_hash sha e)
        × (lookup e added.1.email_to_hash ≡ some (email_to_subdomain_hash sha e))
  unfolding add_mapping
  get_hash_by_email-add_mapping e s c = known_or_put_hash e s (lookup e s.email_to_hash) refl c
