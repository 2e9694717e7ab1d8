-- ===== src/Tests/Explorer.antt =====
-- Runs of the explorer, and its theorem at concrete data.
use syftbox.Base.{◌≡◌, refl, Bool, true, false, [], ◌∷◌, Text, codes}
use syftbox.Acl.Level.{new_request}
use syftbox.Blob.Handlers.{Server}
use syftbox.Datasite.Domains.{has_suffix}
use syftbox.Explorer.{
  folder_page, file_page, not_found_page, forbidden_page, add_folder, datasite_from_path,
  with_slash, filter_prefix, place_file, no_contents, empty_dir, list_each, list_contents,
  serve_file, page_of, handler,
}
use syftbox.Explorer.Open.{Shows, handler-Shows}
use syftbox.Tests.Acl.{opened, start}
use syftbox.Tests.Blob.{file_key}
use syftbox.Tests.Samples.{env, now, table, table-IsLawful}
use syftbox.Tests.Store.{store, holding, info}

opened_explorer : Unit {0}
unfolding opened new_request has_suffix add_folder datasite_from_path with_slash filter_prefix
    place_file no_contents empty_dir list_each list_contents serve_file page_of handler
opened_explorer = tt

-- Every pattern matches every key.
abbrev glob : Text → Text → Bool
glob p k = true

abbrev secret_key : Text
secret_key = codes "alice@x.co/b"

abbrev explored : Server table store
explored = record {
  acl = start;
  blob = holding (
      (file_key, codes "x")
      ∷ (secret_key, codes "y")
      ∷ (codes "alice@x.co/pub/in/g", codes "z")
      ∷ []);
}

handler-Shows_example :
    Shows table store env now glob explored
      (handler table store env now glob (codes "alice@x.co/pub") true explored)
handler-Shows_example =
    handler-Shows table store env now glob table-IsLawful (codes "alice@x.co/pub") true explored

-- The page of a folder, a file that nobody but its owner may read, and one that is not there.
explorer_examples :
    ((serve_file table store env now glob secret_key explored).0 ≡ forbidden_page)
    × ((serve_file table store env now glob (codes "alice@x.co/pub/x") explored).0 ≡ not_found_page)
    × ((handler table store env now glob file_key true explored).0 ≡ file_page file_key (codes "x"))
    × ((handler table store env now glob (codes "alice@x.co/pub") true explored).0
        ≡ folder_page (codes "alice@x.co/pub") (record {
          is_dir = true;
          has_index = false;
          files = info file_key ∷ [];
          folders = codes "in" ∷ [];
        }))
unfolding opened_explorer
explorer_examples = (refl, refl, refl, refl)
