-- ===== src/Datasite/Domains.antt =====
-- internal/server/datasite/datasite.go and datasite_settings.go: which subdomains the service maps.
-- `sha` is the hexadecimal SHA-256, `parses` is mail.ParseAddress and `decode` the YAML decoder.
pub mod Allowed
pub mod Invariant
use syftbox.Base.{
  ℕ, Bool, true, false, not, ◌&&◌, ◌||◌, List, [], ◌∷◌, ◌++◌, Option, none, some, Text, codes,
  text_eq, has_prefix, contains, split, length, ◌==◌, is_some, any, if◌then◌else◌, ◌⊎◌, inl, inr,
}
use mathlib.Core.List.{map}
use syftbox.Base.Dict.{Dict, lookup, keys}
use syftbox.FilePath.{is_empty, join_path}
use syftbox.AclSpec.{file_name}
use syftbox.Acl.Specificity.{first_part}
use syftbox.Subdomain.{
  SubdomainMapping, email_to_subdomain_hash, add_mapping, load_mappings, add_vanity_domain,
  clear_vanity_domains, has_datasite, new_subdomain_mapping,
}
use syftbox.Datasite.{get_datasite, is_valid_rel_path, is_hex_string}
use syftbox.Blob.{Backend, BlobService, EventType, put_event, delete_event, copy_event}

abbrev pub full_stop : ℕ
full_stop = b'.'

abbrev pub settings_name : Text
settings_name = codes "settings.yaml"

-- `strings.HasSuffix`
unfoldable pub has_suffix : Text → Text → Bool
unfolding text_eq
has_suffix [] suffix = text_eq [] suffix
has_suffix (c ∷ s) suffix = text_eq (c ∷ s) suffix || has_suffix s suffix

-- What the decoder makes of a file of settings: nothing to read, an error, or the domains, where
-- `none` is a file without them.
pub data Decoded : Type 0 where
  at_end : Decoded
  invalid : Decoded
  settings : Option (Dict Text) → Decoded

-- `ParseSettingsYAML`; `none` is an error.
unfoldable pub parse_settings : Decoded → Option (Dict Text)
parse_settings at_end = some []
parse_settings invalid = none
parse_settings (settings none) = some []
parse_settings (settings (some domains)) = some domains

module _ (sha : Text → Text) (domain : Text) where
  -- The subdomain of the hash of an email.
  unfoldable pub hash_domain : Text → Text
  unfolding email_to_subdomain_hash
  hash_domain email = email_to_subdomain_hash sha email ++ (full_stop ∷ domain)

  -- Whether a name is the domain of the server or below it.
  unfoldable pub is_below : Text → Bool
  unfolding is_empty text_eq has_suffix
  is_below name =
      not (is_empty domain) && (text_eq name domain || has_suffix name (full_stop ∷ domain))

  -- Whether a name begins with a part that looks like a hash.
  unfoldable pub looks_hashed : Text → Bool
  unfolding split first_part is_hex_string
  looks_hashed name =
      let part = first_part (split full_stop name) in (length part == 16) && is_hex_string part

  -- `isAllowedDomain`
  unfoldable pub is_allowed_domain : Text → Text → Bool
  unfolding has_prefix email_to_subdomain_hash is_below looks_hashed text_eq
  is_allowed_domain name email =
      if has_prefix name (email_to_subdomain_hash sha email ++ (full_stop ∷ []))
      then true
      else if is_below name
      then not (looks_hashed name)
        && not (text_eq name domain || text_eq name (codes "www." ++ domain))
      else true

  -- `addDefaultHashMapping`
  unfoldable pub add_default_hash_mapping : Text → SubdomainMapping → SubdomainMapping
  unfolding is_empty hash_domain add_mapping add_vanity_domain
  add_default_hash_mapping email m =
      if is_empty domain
      then m
      else add_vanity_domain (hash_domain email) email (codes "/public") (add_mapping sha email m).1

  -- The name that an entry of the settings stands for.
  unfoldable pub named : Text → Text → Text
  unfolding text_eq hash_domain
  named datasite name =
      if text_eq name (codes "{email-hash}") || text_eq name (codes "default")
      then hash_domain datasite
      else name

  -- One round of the loop of `loadVanityDomain`.
  unfoldable pub add_setting : Text → Text → Text → SubdomainMapping → SubdomainMapping
  unfolding is_valid_rel_path named is_allowed_domain add_vanity_domain
  add_setting datasite name path m =
      if not (is_valid_rel_path path)
      then m
      else if not (is_allowed_domain (named datasite name) datasite)
      then m
      else add_vanity_domain (named datasite name) datasite path m

  unfoldable pub add_settings : Text → Dict Text → SubdomainMapping → SubdomainMapping
  unfolding add_setting
  add_settings datasite [] m = m
  add_settings datasite ((name, path) ∷ more) m =
      add_settings datasite more (add_setting datasite name path m)

  module _ (b : Backend) (decode : Text → Decoded) where
    abbrev pub with_settings : Text → Option (Dict Text) → SubdomainMapping → SubdomainMapping
    with_settings datasite none m = m
    with_settings datasite (some domains) m = add_settings datasite domains m

    -- The domains in the settings of a datasite, or `none` where there are none to read.
    unfoldable pub read_settings : Text → BlobService b → Option (Dict Text)
    unfolding lookup join_path parse_settings
    read_settings datasite s =
        let path = join_path datasite settings_name in
        elim (lookup path s.index) [
          | none ↦ none
          | some _ ↦ elim (b.get path s.objects) [
            | inl err ↦ none
            | inr body ↦ parse_settings (decode body)
          ]
        ]

    -- `loadVanityDomain`; its error is only written to the log.
    unfoldable pub load_vanity_domain : Text → BlobService b → SubdomainMapping → SubdomainMapping
    unfolding read_settings add_settings
    load_vanity_domain datasite s m = with_settings datasite (read_settings datasite s) m

    -- `ReloadVanityDomains`
    unfoldable pub reload_vanity_domains :
        Text → BlobService b → SubdomainMapping → SubdomainMapping
    unfolding load_vanity_domain add_default_hash_mapping clear_vanity_domains
    reload_vanity_domains email s m =
        load_vanity_domain email s (add_default_hash_mapping email (clear_vanity_domains email m))

    abbrev pub is_change : EventType → Bool
    is_change put_event = true
    is_change delete_event = true
    is_change copy_event = false

    -- `handleBlobChange`
    unfoldable pub handle_blob_change :
        (Text → Bool) → Text → EventType → BlobService b → SubdomainMapping → SubdomainMapping
    unfolding contains get_datasite is_empty has_datasite reload_vanity_domains text_eq join_path
    handle_blob_change parses key event s m =
        let datasite = get_datasite parses key in
        if not (is_change event)
        then m
        else if not (contains key file_name) && not (contains key settings_name)
        then m
        else if is_empty datasite
        then m
        else if not (has_datasite datasite m) || text_eq key (join_path datasite settings_name)
        then reload_vanity_domains datasite s m
        else m

    -- The loop of `loadDatasiteSubdomains`.
    unfoldable pub load_each : List Text → BlobService b → SubdomainMapping → SubdomainMapping
    unfolding load_vanity_domain add_default_hash_mapping
    load_each [] s m = m
    load_each (datasite ∷ more) s m =
        load_each more s (load_vanity_domain datasite s (add_default_hash_mapping datasite m))

    -- The owners of the ACL files, each once. The order is that of a map.
    unfoldable pub owners : (Text → Bool) → List Text → List Text
    unfolding has_suffix get_datasite is_empty text_eq
    owners parses [] = []
    owners parses (key ∷ more) =
        let rest = owners parses more in
        let owner = get_datasite parses key in
        if not (has_suffix key file_name) || is_empty owner || any (λ o. text_eq o owner) rest
        then rest
        else owner ∷ rest

    -- `loadDatasiteSubdomains`
    unfoldable pub load_datasite_subdomains :
        (Text → Bool) → BlobService b → SubdomainMapping → SubdomainMapping
    unfolding owners load_mappings load_each
    load_datasite_subdomains parses s m =
        let datasites = owners parses (keys s.index) in
        load_each datasites s (load_mappings sha datasites m)
