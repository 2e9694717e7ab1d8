-- ===== src/Subdomain/Removal.antt =====
-- internal/server/datasite/subdomain_mapping.go, RemoveMapping.
use syftbox.Base.{
  ◌≡◌, refl, true, false, none, some, Text, text_eq, if◌then◌else◌, text_eq_refl, ap,
}
use syftbox.Base.Dict.{lookup, lookup-erase}
use syftbox.Subdomain.{
  SubdomainMapping, email_to_subdomain_hash, add_mapping, remove_mapping, remove_found,
  has_datasite,
}
use syftbox.Subdomain.Consistent.{IsConsistent}

module _ (sha : Text → Text) where
  remove_mapping_known :
      (e h : Text) (s : SubdomainMapping)
      → lookup e s.email_to_hash ≡ some h
      → remove_mapping e s ≡ remove_found e s (some h)
  unfolding remove_mapping
  remove_mapping_known e h s q = ap (remove_found e s) q

  -- After `RemoveMapping` the datasite is not known; what was found for another email or another
  -- hash is still found; and the hash of the email finds nothing, if the email was known and the
  -- mapping was consistent.
  pub remove_mapping_exact :
      (e f h k : Text) (s : SubdomainMapping)
      → IsConsistent sha s
      → lookup e s.email_to_hash ≡ some h
      → let after = remove_mapping e s in
        (lookup f after.email_to_hash ≡ (if text_eq e f then none else lookup f s.email_to_hash))
        × (lookup k after.hash_to_email ≡ (
            if text_eq (email_to_subdomain_hash sha e) k then none else lookup k s.hash_to_email))
  remove_mapping_exact e f h k s c q =
      rw (remove_mapping_known e h s q, ← c.hashed e h q)
        (lookup-erase e f s.email_to_hash, lookup-erase h k s.hash_to_email)

  -- Two known emails stand with the same hash, and one of them is removed. The
  -- other is still known, its hash finds no email, and `AddMapping` of it does not mend that.
  pub add_mapping-remove_mapping_shared :
      (a b h : Text) (s : SubdomainMapping)
      → text_eq b a ≡ false
      → lookup a s.email_to_hash ≡ some h
      → lookup b s.email_to_hash ≡ some h
      → let after = remove_mapping b s in
        (has_datasite a after ≡ true)
        × ((lookup h after.hash_to_email ≡ none)
            × (lookup h (add_mapping sha a after).1.hash_to_email ≡ none))
  unfolding has_datasite add_mapping
  add_mapping-remove_mapping_shared a b h s d qa qb =
      let known = lookup-erase b a s.email_to_hash in
      let gone = lookup-erase h h s.hash_to_email in
      rw (remove_mapping_known b h s qb, known, d, qa, gone, text_eq_refl h) (refl, (refl, refl))
