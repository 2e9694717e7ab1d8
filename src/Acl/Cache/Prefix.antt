-- ===== src/Acl/Cache/Prefix.antt =====
-- What `DeletePrefix` removes and what it leaves.
use syftbox.Base.{
  ℕ, ◌≡◌, Bool, true, false, List, [], ◌∷◌, some, Text, has_prefix, text_eq, text_eq_iff, any,
  arith, ◌≢◌, Bool-cases, inl, inr,
}
use syftbox.Acl.Cache.{Lru, peek, IsLawful, delete_key, delete_keys, delete_prefix}

module _ (c : Lru) (L : IsLawful c) (path : Text) where
  delete_key_subset :
      (j : Text) (s : c.State) (k : Text) {b : Bool}
      → peek c (delete_key c path j s) k ≡ some b
      → peek c s k ≡ some b
  unfolding delete_key
  delete_key_subset j s k {b} h = ground (arith, L.get-remove s j k {b = b})

  delete_key_removes :
      (j : Text) (s : c.State) (k : Text) {b : Bool}
      → has_prefix k path ≡ true
      → text_eq j k ≡ true
      → peek c (delete_key c path j s) k ≢ some b
  unfolding delete_key
  delete_key_removes j s k {b} p e h = ground (arith, L.get-remove s j k {b = b}, text_eq_iff j k)

  -- Deleting makes no entry and changes none.
  delete_keys_subset :
      (ks : List Text) (s : c.State) (n : ℕ) (k : Text) {b : Bool}
      → peek c (delete_keys c path ks s n).0 k ≡ some b
      → peek c s k ≡ some b
  unfolding delete_keys
  delete_keys_subset [] s n k h = h
  delete_keys_subset (j ∷ ks) s n k h = delete_key_subset j s k (delete_keys_subset ks _ _ k h)

  delete_keys_removes :
      (ks : List Text) (s : c.State) (n : ℕ) (k : Text) {b : Bool}
      → has_prefix k path ≡ true
      → any (λ j. text_eq j k) ks ≡ true
      → peek c (delete_keys c path ks s n).0 k ≢ some b
  unfolding delete_keys
  delete_keys_removes [] s n k p m h = cc
  delete_keys_removes (j ∷ ks) s n k p m h = elim (Bool-cases (text_eq j k)) [
    | inl e ↦ delete_key_removes j s k p e (delete_keys_subset ks _ _ k h)
    | inr e ↦ delete_keys_removes ks _ _ k p (ground arith) h
  ]

  pub delete_prefix_subset :
      (s : c.State) (k : Text) {b : Bool}
      → peek c (delete_prefix c path s).0 k ≡ some b
      → peek c s k ≡ some b
  unfolding delete_prefix
  delete_prefix_subset s k h = delete_keys_subset (c.keys s) s 0 k h

  -- After `DeletePrefix` nothing is read under a key that begins with the path, and what is read
  -- under another key was there before.
  pub delete_prefix_exact :
      (s : c.State) (k : Text) {b : Bool}
      → peek c (delete_prefix c path s).0 k ≡ some b
      → (has_prefix k path ≡ false) × (peek c s k ≡ some b)
  unfolding delete_prefix
  delete_prefix_exact s k h =
      let before = delete_prefix_subset s k h in
      elim (Bool-cases (has_prefix k path)) [
        | inl p ↦ absurd (delete_keys_removes (c.keys s) s 0 k p (L.keys_complete s k before) h)
        | inr q ↦ (q, before)
      ]
