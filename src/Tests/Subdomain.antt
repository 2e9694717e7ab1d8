-- ===== src/Tests/Subdomain.antt =====
-- Runs of the subdomain mapping, and its theorems at concrete data.
use syftbox.Base.{◌≡◌, refl, true, [], ◌∷◌, none, some, Text, codes, text_eq, List}
use syftbox.Base.Dict
use syftbox.Subdomain.{
  SubdomainMapping, new_subdomain_mapping, drop_spaces, reverse_onto, trim_space, take,
  email_to_subdomain_hash, put_mapping, add_mapping, load_mappings, remove_mapping,
  add_vanity_domain, remove_vanity_domain, clear_vanity_domains, has_datasite,
}
use syftbox.Subdomain.Consistent.{
  Operation, added, loaded, vanity_added, vanity_cleared, apply, apply_all, IsConsistent,
  apply_all-IsConsistent, new_subdomain_mapping-IsConsistent,
}
use syftbox.Subdomain.Removal.{add_mapping-remove_mapping_shared}

opened : Unit {0}
unfolding text_eq Dict.lookup Dict.insert Dict.erase Dict.filter new_subdomain_mapping drop_spaces
    reverse_onto trim_space take email_to_subdomain_hash put_mapping add_mapping load_mappings
    remove_mapping add_vanity_domain remove_vanity_domain clear_vanity_domains has_datasite apply
    apply_all
opened = tt

-- In place of SHA-256, the text itself.
abbrev sha : Text → Text
sha t = t

abbrev ann : Text
ann = codes "ann@x.co"

abbrev capital_ann : Text
capital_ann = codes "Ann@x.co"

abbrev bob : Text
bob = codes "bob@x.co"

abbrev operations : List Operation
operations =
    added ann
    ∷ loaded (capital_ann ∷ bob ∷ [])
    ∷ vanity_added (codes "bob.org") bob (codes "/blog")
    ∷ vanity_cleared ann
    ∷ []

abbrev reached : SubdomainMapping
reached = apply_all sha operations new_subdomain_mapping

hash_runs :
    (email_to_subdomain_hash sha (codes " Ann@X.co ") ≡ ann)
    × (email_to_subdomain_hash sha (codes "0123456789abcdefgh") ≡ codes "0123456789abcdef")
    × (Dict.lookup (codes "bob.org") reached.vanity_domains
        ≡ some (record { email = bob; path = codes "/blog" }))
unfolding opened
hash_runs = (refl, refl, refl)

reached-IsConsistent : IsConsistent sha reached
reached-IsConsistent =
    apply_all-IsConsistent sha operations new_subdomain_mapping
      (new_subdomain_mapping-IsConsistent sha)

apply_all-IsConsistent_example : IsConsistent sha reached
apply_all-IsConsistent_example =
    apply_all-IsConsistent sha operations new_subdomain_mapping
      (new_subdomain_mapping-IsConsistent sha)

add_mapping-remove_mapping_shared_example :
    (has_datasite ann (remove_mapping capital_ann reached) ≡ true)
    × ((Dict.lookup ann (remove_mapping capital_ann reached).hash_to_email ≡ none)
        × (Dict.lookup ann
              (add_mapping sha ann (remove_mapping capital_ann reached)).1.hash_to_email
            ≡ none))
unfolding opened
add_mapping-remove_mapping_shared_example =
    add_mapping-remove_mapping_shared sha ann capital_ann ann reached refl refl refl
