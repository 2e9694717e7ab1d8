-- ===== src/Acl/Cache.antt =====
-- internal/server/acl/cache.go: remembered decisions, behind the expirable LRU of a library.
pub mod Prefix
use syftbox.Base.{
  ℕ, ◌+◌, ◌/◌, ◌%◌, ◌≡◌, Bool, true, false, List, [], ◌∷◌, ◌++◌, Option, none, some, Text,
  has_prefix, text_eq, any, ltb, if◌then◌else◌,
}
use syftbox.Acl.Level.{AclRequest}

-- The operations of `expirable.LRU` from texts to Booleans. A read also touches the state.
pub record Lru : Type 1 where
  pub State : Type 0
  pub empty : State
  pub get : State → Text → Option Bool × State
  pub add : State → Text → Bool → State
  pub remove : State → Text → State
  pub keys : State → List Text
  pub size : State → ℕ

-- What is read under a key now.
abbrev pub peek : (c : Lru) → c.State → Text → Option Bool
peek c s k = (c.get s k).0

-- What the library promises: entries may be evicted or expire at any operation, and never appear
-- or change otherwise; the keys list every entry.
pub record IsLawful (c : Lru) : Type 0 where
  pub get-empty : (k : Text) → peek c c.empty k ≡ none
  pub get-get :
      (s : c.State) (j k : Text) {b : Bool} → peek c (c.get s j).1 k ≡ some b → peek c s k ≡ some b
  pub get-add :
      (s : c.State) (j k : Text) (v : Bool) {b : Bool}
      → peek c (c.add s j v) k ≡ some b
      → (if text_eq j k then some v else peek c s k) ≡ some b
  pub get-remove :
      (s : c.State) (j k : Text) {b : Bool}
      → peek c (c.remove s j) k ≡ some b
      → (if text_eq j k then none else peek c s k) ≡ some b
  pub keys_complete :
      (s : c.State) (k : Text) {b : Bool}
      → peek c s k ≡ some b
      → any (λ j. text_eq j k) (c.keys s) ≡ true

-- `%d` of a uint8.
abbrev pub digit : ℕ → ℕ
digit d = b'0' + d

abbrev pub decimal : ℕ → Text
decimal n =
    if ltb n 10
    then digit n ∷ []
    else if ltb n 100
    then digit (n / 10) ∷ digit (n % 10) ∷ []
    else digit (n / 100) ∷ digit (n / 10 % 10) ∷ digit (n % 10) ∷ []

-- `newCacheKeyByUser`: the path, the user and the level between colons.
unfoldable pub cache_key : AclRequest → Text
cache_key req = req.path ++ (b':' ∷ (req.user ++ (b':' ∷ decimal req.level)))

module _ (c : Lru) where
  -- `ACLCache.Get`
  abbrev pub cache_get : AclRequest → c.State → Option Bool × c.State
  cache_get req s = c.get s (cache_key req)

  -- `ACLCache.Set`
  abbrev pub cache_set : AclRequest → Bool → c.State → c.State
  cache_set req allowed s = c.add s (cache_key req) allowed

  -- One round of the loop of `DeletePrefix`.
  unfoldable pub delete_key : Text → Text → c.State → c.State
  unfolding has_prefix
  delete_key path k s = if has_prefix k path then c.remove s k else s

  -- The loop of `DeletePrefix` over a list of keys, with the count.
  unfoldable pub delete_keys : Text → List Text → c.State → ℕ → c.State × ℕ
  unfolding delete_key
  delete_keys path [] s deleted = (s, deleted)
  delete_keys path (k ∷ ks) s deleted =
      delete_keys path ks (delete_key path k s) (if has_prefix k path then deleted + 1 else deleted)

  -- `DeletePrefix`, and `Delete`, which is the same
  unfoldable pub delete_prefix : Text → c.State → c.State × ℕ
  unfolding delete_keys
  delete_prefix path s = delete_keys path (c.keys s) s 0
