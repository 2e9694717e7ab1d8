-- ===== src/SyftUrl.antt =====
-- internal/utils/url.go: the URLs syft://user@host/app_data/app/rpc/endpoint. `parses` is
-- mail.ParseAddress, `url_parse` is url.Parse and `parse_query` is url.ParseQuery.
pub mod Laws
use syftbox.Base.{
  ℕ, ◌+◌, Bool, true, false, not, ◌&&◌, ◌||◌, List, [], ◌∷◌, ◌++◌, Option, none, some, Text, codes,
  text_eq, any, all, keep, split, join, trim_left, contains_any, length, ltb, if◌then◌else◌, ◌==◌,
}
use syftbox.Base.Dict.{Dict, insert}
use syftbox.FilePath.{slash, is_empty, clean}
use syftbox.Datasite.{is_valid_email}

-- `SyftBoxURL`
pub record SyftBoxUrl : Type 0 where
  pub datasite : Text
  pub app_name : Text
  pub endpoint : Text
  pub query_params : Dict Text

abbrev pub app_data : Text
app_data = codes "app_data"

abbrev pub rpc : Text
rpc = codes "rpc"

-- `strings.TrimRight` of one byte.
unfoldable pub trim_end : ℕ → Text → Text
unfolding is_empty
trim_end b [] = []
trim_end b (c ∷ s) = let rest = trim_end b s in if (c == b) && is_empty rest then [] else c ∷ rest

-- `strings.Trim` of one byte.
unfoldable pub trim : ℕ → Text → Text
unfolding trim_end trim_left
trim b s = trim_end b (trim_left b s)

-- `filepath.Join` of any number of elements.
unfoldable pub join_all : List Text → Text
unfolding clean is_empty join
join_all ps =
    let kept = keep (λ p. not (is_empty p)) ps in
    if is_empty (join slash kept) then [] else clean (join slash kept)

-- `BaseURL`
unfoldable pub base_url : SyftBoxUrl → Text
unfolding join trim
base_url u =
    codes "syft://"
    ++ join slash (u.datasite ∷ app_data ∷ u.app_name ∷ rpc ∷ trim slash u.endpoint ∷ [])

-- `ToLocalPath`
unfoldable pub to_local_path : SyftBoxUrl → Text
unfolding join_all trim
to_local_path u = join_all (u.datasite ∷ app_data ∷ u.app_name ∷ rpc ∷ trim slash u.endpoint ∷ [])

-- The field that a `ValidationError` names.
pub data Field : Type 0 where
  datasite_field : Field
  app_name_field : Field
  endpoint_field : Field

-- The characters that an endpoint cannot have.
abbrev pub specials : Text
specials = codes " ?&="

-- `Validate`; `none` is no error.
unfoldable pub validate : (Text → Bool) → SyftBoxUrl → Option Field
unfolding is_empty is_valid_email contains_any
validate parses u =
    if is_empty u.datasite || not (is_valid_email parses u.datasite)
    then some datasite_field
    else if is_empty u.app_name
    then some app_name_field
    else if is_empty u.endpoint || contains_any u.endpoint specials
    then some endpoint_field
    else none

-- `NewSyftBoxURL`
unfoldable pub new_syft_box_url : (Text → Bool) → Text → Text → Text → Option SyftBoxUrl
unfolding validate
new_syft_box_url parses datasite app_name endpoint =
    let u : SyftBoxUrl = record {
      datasite = datasite;
      app_name = app_name;
      endpoint = endpoint;
      query_params = [];
    } in
    elim (validate parses u) [ none ↦ some u | some _ ↦ none ]

-- What `url.Parse` gives: `username` is empty where the URL has no user.
pub record ParsedUrl : Type 0 where
  pub scheme : Text
  pub host : Text
  pub username : Text
  pub path : Text
  pub raw_query : Text

-- The parts of a path that are not empty.
unfoldable pub path_parts : Text → List Text
unfolding split trim is_empty
path_parts path = keep (λ p. not (is_empty p)) (split slash (trim slash path))

-- The parts before the first one that is `rpc` and those behind it, or `none`.
unfoldable pub split_at_rpc : List Text → Option (List Text × List Text)
unfolding text_eq
split_at_rpc [] = none
split_at_rpc (p ∷ ps) =
    let rest = split_at_rpc ps in
    if text_eq p rpc
    then some ([], ps)
    else elim rest [ none ↦ none | some (before, behind) ↦ some (p ∷ before, behind) ]

-- `parts[1:rpcIndex]` and `parts[rpcIndex+1:]`, joined; the first part is `app_data`.
unfoldable pub app_and_endpoint : List Text → Option (Text × Text)
unfolding split_at_rpc text_eq join
app_and_endpoint [] = none
app_and_endpoint (p ∷ ps) =
    if ltb (length ps) 3 || not (text_eq p app_data) then none else elim (split_at_rpc ps) [
      | none ↦ none
      | some (app, endpoint) ↦ some (join slash app, join slash endpoint)
    ]

-- `parseQueryParams`: the first value of each key.
abbrev first_values : List (Text × List Text) → Option (Dict Text)
unfolding insert contains_any
first_values [] = some []
first_values ((key, values) ∷ more) =
    let rest = first_values more in
    if contains_any key specials then none else elim rest [
      | none ↦ none
      | some d ↦ elim values [ [] ↦ some d | v ∷ _ ↦ some (insert key v d) ]
    ]

unfoldable pub parse_query_params :
    (Text → Option (List (Text × List Text))) → Text → Option (Dict Text)
unfolding first_values is_empty
parse_query_params parse_query raw =
    if is_empty raw
    then some []
    else elim (parse_query raw) [ none ↦ none | some vs ↦ first_values vs ]

module _ (parses : Text → Bool) (url_parse : Text → Option ParsedUrl)
    (parse_query : Text → Option (List (Text × List Text))) where
  -- The end of `FromSyftURL`, from the components on.
  abbrev pub with_query : Option SyftBoxUrl → Option (Dict Text) → Option SyftBoxUrl
  with_query none q = none
  with_query (some u) none = none
  with_query (some u) (some q) = some (record u { query_params = q })

  -- `FromSyftURL` after `url.Parse`.
  unfoldable pub from_parsed : ParsedUrl → Option SyftBoxUrl
  unfolding app_and_endpoint path_parts new_syft_box_url parse_query_params
  from_parsed p =
      if not (text_eq p.scheme (codes "syft")) || is_empty p.host || is_empty p.username
      then none
      else elim (app_and_endpoint (path_parts p.path)) [
        | none ↦ none
        | some (app, endpoint) ↦
            with_query (new_syft_box_url parses (p.username ++ (b'@' ∷ p.host)) app endpoint)
              (parse_query_params parse_query p.raw_query)
      ]

  -- `FromSyftURL`
  unfoldable pub from_syft_url : Text → Option SyftBoxUrl
  unfolding from_parsed
  from_syft_url raw = elim (url_parse raw) [ none ↦ none | some p ↦ from_parsed p ]
