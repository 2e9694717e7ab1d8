-- ===== src/Datasite/Domains/Invariant.antt =====
-- internal/server/datasite/datasite.go: the subdomains through the start and the changes of files.
use syftbox.Base.{
  ◌≡◌, refl, Bool, true, false, not, ◌&&◌, ◌||◌, List, [], ◌∷◌, none, some, Text, codes, text_eq,
  if◌then◌else◌, inl, inr, Bool-cases, Option-cases, contains,
}
use mathlib.Core.Path.{subst}
use syftbox.Base.Dict.{
  Dict, lookup, keys, AllEntries, AllEntries-insert, AllEntries-filter, AllEntries-lookup, OnSome,
}
use syftbox.FilePath.{is_empty, join_path}
use syftbox.AclSpec.{file_name}
use syftbox.Subdomain.{
  SubdomainMapping, VanityDomainConfig, email_to_subdomain_hash, add_mapping, put_mapping,
  load_mappings, add_vanity_domain, clear_vanity_domains, new_subdomain_mapping, get_vanity_domain,
  has_datasite,
}
use syftbox.Datasite.{is_valid_rel_path, get_datasite}
use syftbox.Blob.{Backend, BlobService, EventType}
use syftbox.Datasite.Domains.{
  is_change, settings_name, hash_domain, is_allowed_domain, add_default_hash_mapping, named,
  add_setting, add_settings, Decoded, with_settings, read_settings, load_vanity_domain,
  reload_vanity_domains, handle_blob_change, load_each, owners, load_datasite_subdomains,
}
use syftbox.Datasite.Domains.Allowed.{IsHash, is_allowed_domain-hash, is_allowed_domain_own}

module _ (sha : Text → Text) (domain : Text) where
  abbrev IsAllowed : Text → VanityDomainConfig → Type 0
  IsAllowed name config = is_allowed_domain sha domain name config.email ≡ true

  -- Every subdomain of the mapping is one that its datasite may claim.
  abbrev pub IsGuarded : SubdomainMapping → Type 0
  IsGuarded m = AllEntries IsAllowed m.vanity_domains

  put_vanity-IsGuarded :
      (name email path : Text) (m : SubdomainMapping)
      → is_allowed_domain sha domain name email ≡ true
      → IsGuarded m
      → IsGuarded (add_vanity_domain name email path m)
  unfolding add_vanity_domain
  put_vanity-IsGuarded name email path m h all =
      AllEntries-insert IsAllowed name (record { email = email; path = path }) m.vanity_domains h
        all

  add_mapping-vanity :
      (email : Text) (m : SubdomainMapping)
      → (add_mapping sha email m).1.vanity_domains ≡ m.vanity_domains
  unfolding add_mapping put_mapping
  add_mapping-vanity email m = elim (Option-cases (lookup email m.email_to_hash)) [
    | inl e ↦ rw e refl
    | inr (h, e) ↦ rw e refl
  ]

  add_default-IsGuarded :
      (email : Text) (m : SubdomainMapping)
      → IsGuarded m
      → IsGuarded (add_default_hash_mapping sha domain email m)
  unfolding add_default_hash_mapping
  add_default-IsGuarded email m all = elim (Bool-cases (is_empty domain)) [
    | inl e ↦ rw e all
    | inr e ↦ rw e (
        put_vanity-IsGuarded (hash_domain sha domain email) email (codes "/public")
          (add_mapping sha email m).1 (is_allowed_domain_own sha domain email)
          (rw (add_mapping-vanity email m) all))
  ]

  add_setting-IsGuarded :
      (email name path : Text) (m : SubdomainMapping)
      → IsGuarded m
      → IsGuarded (add_setting sha domain email name path m)
  unfolding add_setting
  add_setting-IsGuarded email name path m all = elim (Bool-cases (is_valid_rel_path path)) [
    | inr e ↦ rw e all
    | inl e ↦ elim (Bool-cases (is_allowed_domain sha domain (named sha domain email name) email)) [
      | inr a ↦ rw (e, a) all
      | inl a ↦ rw (e, a) (put_vanity-IsGuarded (named sha domain email name) email path m a all)
    ]
  ]

  add_settings-IsGuarded :
      (email : Text) (names : Dict Text) (m : SubdomainMapping)
      → IsGuarded m
      → IsGuarded (add_settings sha domain email names m)
  unfolding add_settings
  add_settings-IsGuarded email [] m all = all
  add_settings-IsGuarded email ((name, path) ∷ more) m all =
      add_settings-IsGuarded email more _ (add_setting-IsGuarded email name path m all)

  load_mappings-vanity :
      (emails : List Text) (m : SubdomainMapping)
      → (load_mappings sha emails m).vanity_domains ≡ m.vanity_domains
  unfolding load_mappings put_mapping
  load_mappings-vanity [] m = refl
  load_mappings-vanity (email ∷ more) m = load_mappings-vanity more _

  module _ (b : Backend) (decode : Text → Decoded) (parses : Text → Bool) where
    load-IsGuarded :
        (email : Text) (s : BlobService b) (m : SubdomainMapping)
        → IsGuarded m
        → IsGuarded (load_vanity_domain sha domain b decode email s m)
    unfolding load_vanity_domain
    load-IsGuarded email s m all =
        elim (read_settings sha domain b decode email s)
          as (λ o. IsGuarded (with_settings sha domain b decode email o m)) [
            | none ↦ all
            | some names ↦ add_settings-IsGuarded email names m all
          ]

    reload-IsGuarded :
        (email : Text) (s : BlobService b) (m : SubdomainMapping)
        → IsGuarded m
        → IsGuarded (reload_vanity_domains sha domain b decode email s m)
    unfolding reload_vanity_domains clear_vanity_domains
    reload-IsGuarded email s m all =
        load-IsGuarded email s _
          (add_default-IsGuarded email _ (AllEntries-filter IsAllowed _ m.vanity_domains all))

    change-IsGuarded :
        (key : Text) (event : EventType) (s : BlobService b) (m : SubdomainMapping)
        → IsGuarded m
        → IsGuarded (handle_blob_change sha domain b decode parses key event s m)
    unfolding handle_blob_change
    change-IsGuarded key event s m all =
        let owner = get_datasite parses key in
        chosen (not (is_change sha domain b decode event))
          (not (contains key file_name) && not (contains key settings_name)) (is_empty owner)
          (not (has_datasite owner m) || text_eq key (join_path owner settings_name)) m
          (reload_vanity_domains sha domain b decode owner s m) all (reload-IsGuarded owner s m all)
      where
        chosen :
            (p q r t : Bool) (x y : SubdomainMapping)
            → IsGuarded x
            → IsGuarded y
            → IsGuarded (if p then x else if q then x else if r then x else if t then y else x)
        chosen true q r t x y f g = f
        chosen false true r t x y f g = f
        chosen false false true t x y f g = f
        chosen false false false true x y f g = g
        chosen false false false false x y f g = f

    load_each-IsGuarded :
        (emails : List Text) (s : BlobService b) (m : SubdomainMapping)
        → IsGuarded m
        → IsGuarded (load_each sha domain b decode emails s m)
    unfolding load_each
    load_each-IsGuarded [] s m all = all
    load_each-IsGuarded (email ∷ more) s m all =
        load_each-IsGuarded more s _ (load-IsGuarded email s _ (add_default-IsGuarded email m all))

    -- The mapping after the changes of files, each with the files as they are when it is handled.
    abbrev pub after_changes :
        List (Text × EventType × BlobService b) → SubdomainMapping → SubdomainMapping
    after_changes [] m = m
    after_changes ((key, event, s) ∷ more) m =
        after_changes more (handle_blob_change sha domain b decode parses key event s m)

    after_changes-IsGuarded :
        (changes : List (Text × EventType × BlobService b)) (m : SubdomainMapping)
        → IsGuarded m
        → IsGuarded (after_changes changes m)
    after_changes-IsGuarded [] m all = all
    after_changes-IsGuarded ((key, event, s) ∷ more) m all =
        after_changes-IsGuarded more _ (change-IsGuarded key event s m all)

    -- The mapping of a server that has started with some files.
    abbrev pub started : BlobService b → SubdomainMapping
    started s = load_datasite_subdomains sha domain b decode parses s new_subdomain_mapping

    started-IsGuarded : (s : BlobService b) → IsGuarded (started s)
    unfolding load_datasite_subdomains new_subdomain_mapping
    started-IsGuarded s =
        let emails = owners sha domain b decode parses (keys s.index) in
        load_each-IsGuarded emails s (load_mappings sha emails new_subdomain_mapping)
          (rw (load_mappings-vanity emails new_subdomain_mapping) tt)

    -- Nobody takes the subdomain of another's hash: whatever the files hold, settings of any kind
    -- included, when the server starts and at each change of a file afterwards, the subdomain of a
    -- hash under the domain of the server, where it is mapped, is mapped to a datasite with that
    -- hash. Hashes are 16 hexadecimal digits, and the server has a domain.
    pub hash_domain-owner :
        ((email : Text) → IsHash (email_to_subdomain_hash sha email))
        → is_empty domain ≡ false
        → (s : BlobService b) (changes : List (Text × EventType × BlobService b)) (owner : Text)
          (config : VanityDomainConfig)
        → get_vanity_domain (hash_domain sha domain owner) (after_changes changes (started s))
          ≡ some config
        → email_to_subdomain_hash sha config.email ≡ email_to_subdomain_hash sha owner
    hash_domain-owner hashes e s changes owner config h =
        is_allowed_domain-hash sha domain hashes e owner config.email (
          subst (OnSome (IsAllowed (hash_domain sha domain owner))) h (
            AllEntries-lookup IsAllowed (hash_domain sha domain owner)
              (after_changes changes (started s)).vanity_domains
              (after_changes-IsGuarded changes (started s) (started-IsGuarded s))))
