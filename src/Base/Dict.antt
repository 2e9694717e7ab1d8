-- ===== src/Base/Dict.antt =====
-- Go's maps with texts for keys, as association lists. A read of a missing key gives `none`.
use syftbox.Base.Tests.{if◌then◌else◌, Bool-cases, is_some}
use syftbox.Base.Texts.{Text, text_eq, text_eq_iff, text_eq_refl, eq_of_text_eq}
use syftbox.Base.Lists.{All, any}
use mathlib.Core.Logic.{inl, inr}
use mathlib.Core.Path.{◌≡◌, refl, subst}
use mathlib.Core.Bool.{Bool, true, false}
use mathlib.Core.Option.{Option, none, some}
use mathlib.Core.List.{List, [], ◌∷◌, map}
use native.Mathlib.Omega.{arith}

abbrev pub Dict {ℓ} : Type ℓ → Type ℓ
Dict V = List (Text × V)

module _ {ℓ} {V : Type ℓ} where
  unfoldable pub lookup : Text → Dict V → Option V
  unfolding text_eq
  lookup k [] = none
  lookup k ((j, v) ∷ d) = if text_eq j k then some v else lookup k d

  unfoldable pub insert : Text → V → Dict V → Dict V
  unfolding text_eq
  insert k v [] = (k, v) ∷ []
  insert k v ((j, w) ∷ d) = if text_eq j k then (k, v) ∷ d else (j, w) ∷ insert k v d

  unfoldable pub erase : Text → Dict V → Dict V
  unfolding text_eq
  erase k [] = []
  erase k ((j, w) ∷ d) = let rest = erase k d in if text_eq j k then rest else (j, w) ∷ rest

  -- The entries whose key and value pass.
  unfoldable pub filter : (Text → V → Bool) → Dict V → Dict V
  filter p [] = []
  filter p ((j, w) ∷ d) = let rest = filter p d in if p j w then (j, w) ∷ rest else rest

  abbrev pub keys : Dict V → List Text
  keys = map (λ (k, _). k)

  pub lookup-insert :
      (k j : Text) (v : V) (d : Dict V)
      → lookup j (insert k v d) ≡ (if text_eq k j then some v else lookup j d)
  unfolding lookup insert
  lookup-insert k j v [] = refl
  lookup-insert k j v ((i, w) ∷ d) =
      ground (arith, text_eq_iff k j, text_eq_iff i k, text_eq_iff i j, lookup-insert k j v d)

  pub lookup-erase :
      (k j : Text) (d : Dict V) → lookup j (erase k d) ≡ (if text_eq k j then none else lookup j d)
  unfolding lookup erase
  lookup-erase k j [] = ground arith
  lookup-erase k j ((i, w) ∷ d) =
      ground (arith, text_eq_iff k j, text_eq_iff i k, text_eq_iff i j, lookup-erase k j d)

  pub lookup-insert_self : (k : Text) (v : V) (d : Dict V) → lookup k (insert k v d) ≡ some v
  lookup-insert_self k v d = rw (lookup-insert k k v d) (ground (arith, text_eq_iff k k))

  pub lookup-filter_key :
      (p : Text → Bool) (k : Text) (d : Dict V)
      → lookup k (filter (λ j _. p j) d) ≡ (if p k then lookup k d else none)
  unfolding lookup filter
  lookup-filter_key p k [] = ground arith
  lookup-filter_key p k ((i, w) ∷ d) = ground (arith, text_eq_iff i k, lookup-filter_key p k d)

-- A value that is there has the property.
abbrev pub OnSome {ℓ κ} : {V : Type ℓ} → (V → Type κ) → Option V → Type κ
OnSome Q none = Unit
OnSome Q (some v) = Q v

-- Every value has the property.
abbrev pub AllValues {ℓ κ} : {V : Type ℓ} → (V → Type κ) → Dict V → Type κ
AllValues Q d = All (λ e. Q e.1) d

module _ {ℓ κ} {V : Type ℓ} (Q : V → Type κ) where
  pub AllValues-insert :
      (k : Text) (v : V) (d : Dict V) → Q v → AllValues Q d → AllValues Q (insert k v d)
  unfolding insert
  AllValues-insert k v [] q all = (q, tt)
  AllValues-insert k v ((j, w) ∷ d) q (x, xs) =
      elim (text_eq j k) as (λ b. AllValues Q (if b then (k, v) ∷ d else (j, w) ∷ insert k v d)) [
        | true ↦ (q, xs)
        | false ↦ (x, AllValues-insert k v d q xs)
      ]

  pub AllValues-erase : (k : Text) (d : Dict V) → AllValues Q d → AllValues Q (erase k d)
  unfolding erase
  AllValues-erase k [] all = tt
  AllValues-erase k ((j, w) ∷ d) (x, xs) =
      elim (text_eq j k) as (λ b. AllValues Q (if b then erase k d else (j, w) ∷ erase k d)) [
        | true ↦ AllValues-erase k d xs
        | false ↦ (x, AllValues-erase k d xs)
      ]

  -- What is inserted and erased again need not have the property.
  pub AllValues-erase-insert :
      (k : Text) (v : V) (d : Dict V) → AllValues Q d → AllValues Q (erase k (insert k v d))
  unfolding insert erase
  AllValues-erase-insert k v [] all = rw (text_eq_refl k) tt
  AllValues-erase-insert k v ((j, w) ∷ d) (x, xs) = elim (Bool-cases (text_eq j k)) [
    | inl h ↦ rw (h, text_eq_refl k) (AllValues-erase k d xs)
    | inr h ↦ rw (h, h) (x, AllValues-erase-insert k v d xs)
  ]

  pub AllValues-lookup : (k : Text) (d : Dict V) → AllValues Q d → OnSome Q (lookup k d)
  unfolding lookup
  AllValues-lookup k [] all = tt
  AllValues-lookup k ((j, w) ∷ d) (x, xs) =
      elim (text_eq j k) as (λ b. OnSome Q (if b then some w else lookup k d)) [
        | true ↦ x
        | false ↦ AllValues-lookup k d xs
      ]

  pub AllValues-filter :
      (p : Text → V → Bool) (d : Dict V) → AllValues Q d → AllValues Q (filter p d)
  unfolding filter
  AllValues-filter p [] all = tt
  AllValues-filter p ((j, w) ∷ d) (x, xs) =
      elim (p j w) as (λ b. AllValues Q (if b then (j, w) ∷ filter p d else filter p d)) [
        | true ↦ (x, AllValues-filter p d xs)
        | false ↦ AllValues-filter p d xs
      ]

-- A filter that every value passes.
pub filter_all {ℓ} :
    {V : Type ℓ} (p : V → Bool) (d : Dict V)
    → AllValues (λ v. p v ≡ true) d
    → filter (λ _ v. p v) d ≡ d
unfolding filter
filter_all p [] all = refl
filter_all p ((j, w) ∷ d) (x, xs) = rw (x, filter_all p d xs) refl

pub any-keys {ℓ} :
    {V : Type ℓ} (k : Text) (d : Dict V) → any (λ j. text_eq j k) (keys d) ≡ is_some (lookup k d)
unfolding lookup
any-keys k [] = refl
any-keys k ((j, v) ∷ d) = elim (Bool-cases (text_eq j k)) [
  | inl h ↦ rw (h) refl
  | inr h ↦ rw (h, any-keys k d) refl
]

-- Every key has the property with its value.
abbrev pub AllEntries {ℓ κ} : {V : Type ℓ} → (Text → V → Type κ) → Dict V → Type κ
AllEntries Q d = All (λ e. Q e.0 e.1) d

module _ {ℓ κ} {V : Type ℓ} (Q : Text → V → Type κ) where
  pub AllEntries-insert :
      (k : Text) (v : V) (d : Dict V) → Q k v → AllEntries Q d → AllEntries Q (insert k v d)
  unfolding insert
  AllEntries-insert k v [] q all = (q, tt)
  AllEntries-insert k v ((j, w) ∷ d) q (x, xs) =
      elim (text_eq j k) as (λ b. AllEntries Q (if b then (k, v) ∷ d else (j, w) ∷ insert k v d)) [
        | true ↦ (q, xs)
        | false ↦ (x, AllEntries-insert k v d q xs)
      ]

  pub AllEntries-filter :
      (p : Text → V → Bool) (d : Dict V) → AllEntries Q d → AllEntries Q (filter p d)
  unfolding filter
  AllEntries-filter p [] all = tt
  AllEntries-filter p ((j, w) ∷ d) (x, xs) =
      elim (p j w) as (λ b. AllEntries Q (if b then (j, w) ∷ filter p d else filter p d)) [
        | true ↦ (x, AllEntries-filter p d xs)
        | false ↦ AllEntries-filter p d xs
      ]

  pub AllEntries-lookup :
      (k : Text) (d : Dict V) → AllEntries Q d → OnSome (λ v. Q k v) (lookup k d)
  unfolding lookup
  AllEntries-lookup k [] all = tt
  AllEntries-lookup k ((j, w) ∷ d) (x, xs) = elim (Bool-cases (text_eq j k)) [
    | inl e ↦ rw e (subst (λ i. Q i w) (eq_of_text_eq j k e) x)
    | inr e ↦ rw e (AllEntries-lookup k d xs)
  ]
