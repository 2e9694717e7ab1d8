-- ===== src/Acl/Matcher.antt =====
-- internal/server/acl/matcher.go: how the pattern of a rule is matched with a path.
use syftbox.Base.{
  Bool, true, false, ◌&&◌, Option, none, some, Text, codes, text_eq, contains, contains_any,
  if◌then◌else◌,
}

-- `templateData`
pub record TemplateData : Type 0 where
  pub user_email : Text
  pub user_hash : Text
  pub year : Text
  pub month : Text
  pub date : Text

-- `time.Now().UTC()`, as the three texts that the template data holds.
pub record Today : Type 0 where
  pub year : Text
  pub month : Text
  pub day : Text

-- What the matchers call and this repository does not hold: `doublestar.Match`, whose error is
-- `none`; Go's template engine, with a parsed template named by its text; the hexadecimal form of
-- the first eight bytes of SHA-256.
pub record Env : Type 0 where
  pub glob_match : Text → Text → Option Bool
  pub template_parses : Text → Bool
  pub template_execute : Text → TemplateData → Option Text
  pub hash_16 : Text → Text

pub data Matcher : Type 0 where
  exact : Text → Matcher
  glob : Text → Matcher
  template : Text → Matcher

-- `hasGlobPattern`
unfoldable pub has_glob_pattern : Text → Bool
unfolding contains_any
has_glob_pattern p = contains_any p (codes "*?[")

-- `hasTemplatePattern`
unfoldable pub has_template_pattern : Text → Bool
unfolding contains
has_template_pattern p = contains p (codes "{{") && contains p (codes "}}")

-- `matcherFromResolvedPattern`
unfoldable pub matcher_from_resolved : Text → Matcher
unfolding has_glob_pattern
matcher_from_resolved p = if has_glob_pattern p then glob p else exact p

abbrev pub is_template : Matcher → Bool
is_template (template _) = true
is_template _ = false

module _ (env : Env) where
  -- `matcherFromPattern`; `none` is a template that does not parse.
  unfoldable pub matcher_from_pattern : Text → Option Matcher
  unfolding has_template_pattern matcher_from_resolved
  matcher_from_pattern p =
      if has_template_pattern p
      then (if env.template_parses p then some (template p) else none)
      else some (matcher_from_resolved p)

  -- `newTemplateData`, with `getUserHash`
  unfoldable pub new_template_data : Today → Text → TemplateData
  new_template_data now user = record {
    user_email = user;
    user_hash = env.hash_16 user;
    year = now.year;
    month = now.month;
    date = now.day;
  }

  -- `Match` of the matchers that a resolved pattern gives.
  unfoldable pub match_resolved : Matcher → Text → Option Bool
  unfolding text_eq
  match_resolved (exact v) path = some (text_eq v path)
  match_resolved (glob p) path = env.glob_match p path
  match_resolved (template _) path = none

  -- `Matcher.Match`; `none` is an error.
  unfoldable pub match : Today → Matcher → Text → Text → Option Bool
  unfolding match_resolved matcher_from_resolved new_template_data
  match now (exact v) path user = match_resolved (exact v) path
  match now (glob p) path user = match_resolved (glob p) path
  match now (template t) path user = elim (env.template_execute t (new_template_data now user)) [
    | none ↦ none
    | some resolved ↦ match_resolved (matcher_from_resolved resolved) path
  ]
