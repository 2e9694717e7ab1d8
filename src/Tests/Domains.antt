-- ===== src/Tests/Domains.antt =====
-- Runs of the service of the datasites, and its theorem at concrete data.
use syftbox.Base.{◌≡◌, refl, Bool, true, [], ◌∷◌, Text, codes}
use syftbox.Subdomain.{
  email_to_subdomain_hash, new_subdomain_mapping, drop_spaces, reverse_onto, trim_space, take,
  put_mapping, add_mapping, load_mappings, add_vanity_domain, clear_vanity_domains, has_datasite,
  VanityDomainConfig,
}
use syftbox.Datasite.{top_then_end, is_valid_email, get_datasite, is_valid_rel_path, is_hex_string}
use syftbox.Blob.{BlobService}
use syftbox.Datasite.Domains.{
  has_suffix, Decoded, at_end, parse_settings, hash_domain, is_below, looks_hashed,
  is_allowed_domain, add_default_hash_mapping, named, add_setting, add_settings, read_settings,
  load_vanity_domain, reload_vanity_domains, handle_blob_change, load_each, owners,
  load_datasite_subdomains,
}
use syftbox.Datasite.Domains.Invariant.{hash_domain-owner}
use syftbox.Tests.Blob.{opened_blob, acl_key}
use syftbox.Tests.Samples.{alice, bob}
use syftbox.Tests.Store.{store, holding}

opened_domains : Unit {0}
unfolding opened_blob email_to_subdomain_hash new_subdomain_mapping drop_spaces reverse_onto
    trim_space take put_mapping add_mapping load_mappings add_vanity_domain clear_vanity_domains
    has_datasite top_then_end is_valid_email get_datasite is_valid_rel_path is_hex_string has_suffix
    parse_settings hash_domain is_below looks_hashed is_allowed_domain add_default_hash_mapping
    named add_setting add_settings read_settings load_vanity_domain reload_vanity_domains
    handle_blob_change load_each owners load_datasite_subdomains
opened_domains = tt

-- In place of SHA-256, one digest for all.
abbrev sha : Text → Text
sha t = codes "0123456789abcdef01"

abbrev domain : Text
domain = codes "x.net"

abbrev decode : Text → Decoded
decode t = at_end

abbrev parses : Text → Bool
parses t = true

abbrev files : BlobService store
files = holding ((acl_key, codes "rules") ∷ [])

abbrev public : VanityDomainConfig
public = record { email = alice; path = codes "/public" }

hash_domain-owner_example : email_to_subdomain_hash sha alice ≡ email_to_subdomain_hash sha bob
unfolding opened_domains
hash_domain-owner_example =
    hash_domain-owner sha domain store decode parses (λ email. (refl, refl)) refl files [] bob
      public refl
