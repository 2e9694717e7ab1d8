-- ===== src/Acl/Specificity/Sorted.antt =====
-- internal/server/acl/utils.go, sortRulesBySpecificity.
use mathlib.Core.List.{Perm, foldl, append-nil, perm_middle}
use mathlib.Core.List.Perm
use syftbox.Base.{
  ◌≡◌, true, false, List, [], ◌∷◌, ◌++◌, All, All-imp, arith, if◌then◌else◌, Bool-cases, inl, inr,
}
use syftbox.Base.Int.{ℤ, ltb_ℤ, ◌≤ℤ◌}
use syftbox.AclSpec.{Rule}
use syftbox.Acl.Specificity.{score, place, sort_rules}

-- No rule has a lower score than a later one.
abbrev pub IsDescending : List Rule → Type 0
IsDescending [] = Unit {0}
IsDescending (r ∷ rs) = All (λ s. score s ≤ℤ score r) rs × IsDescending rs

-- No rule of a list has a higher score than a given one.
abbrev Below : Rule → List Rule → Type 0
Below r rs = All (λ s. score s ≤ℤ score r) rs

≤ℤ_of-ltb_ℤ : (a b : ℤ) → ltb_ℤ a b ≡ true → a ≤ℤ b
≤ℤ_of-ltb_ℤ a b h = ground arith

≤ℤ_trans : (a b c : ℤ) → a ≤ℤ b → b ≤ℤ c → a ≤ℤ c
≤ℤ_trans a b c h k = omega arith

Below-place : (r x : Rule) (ys : List Rule) → score x ≤ℤ score r → Below r ys → Below r (place x ys)
unfolding place
Below-place r x [] h b = (h, tt)
Below-place r x (y ∷ ys) h (b, bs) =
    elim (ltb_ℤ (score y) (score x)) as (λ t. Below r (if t then x ∷ y ∷ ys else y ∷ place x ys)) [
      | true ↦ (h, (b, bs))
      | false ↦ (b, Below-place r x ys h bs)
    ]

IsDescending-place : (x : Rule) (ys : List Rule) → IsDescending ys → IsDescending (place x ys)
unfolding place
IsDescending-place x [] d = (tt, tt)
IsDescending-place x (y ∷ ys) (b, d) = elim (Bool-cases (ltb_ℤ (score y) (score x))) [
  | inl h ↦
      let le = ≤ℤ_of-ltb_ℤ (score y) (score x) h in
      rw (h) ((le, All-imp _ _ ys (λ s k. ≤ℤ_trans (score s) (score y) (score x) k le) b), (b, d))
  | inr h ↦ rw (h) (Below-place y x ys (ground arith) b, IsDescending-place x ys d)
]

perm-place : (x : Rule) (ys : List Rule) → Perm (place x ys) (x ∷ ys)
unfolding place
perm-place x [] = Perm.refl (x ∷ [])
perm-place x (y ∷ ys) =
    elim (ltb_ℤ (score y) (score x))
      as (λ t. Perm (if t then x ∷ y ∷ ys else y ∷ place x ys) (x ∷ y ∷ ys)) [
        | true ↦ Perm.refl (x ∷ y ∷ ys)
        | false ↦ Perm.trans (Perm.cons y (perm-place x ys)) (Perm.swap x y ys)
      ]

-- The loop of the insertion sort.
foldl_sorted :
    (rs acc : List Rule)
    → IsDescending acc
    → let out = foldl (λ sorted x. place x sorted) acc rs in Perm out (rs ++ acc) × IsDescending out
foldl_sorted [] acc d = (Perm.refl acc, d)
foldl_sorted (x ∷ rs) acc d =
    let rest = foldl_sorted rs (place x acc) (IsDescending-place x acc d) in
    (
      Perm.trans rest.0 (Perm.trans (Perm.append_left rs (perm-place x acc)) (perm_middle rs acc)),
      rest.1,
    )

-- The sorted rules are the given ones, and none has a lower score than a later one.
pub sort_rules-IsDescending :
    (rs : List Rule) → Perm (sort_rules rs) rs × IsDescending (sort_rules rs)
unfolding sort_rules
sort_rules-IsDescending rs =
    let out = foldl_sorted rs [] tt in (Perm.trans out.0 (rw (append-nil rs) (Perm.refl rs)), out.1)
