-- ===== src/Base/Texts.antt =====
-- Texts are lists of bytes. The functions of Go's `strings` that the program calls.
use Prim.Native.Char.{code}
use Prim.Native.Nat.{ℕ, ◌+◌}
use Prim.Native.String.{String}
use mathlib.Core.Path.{◌≡◌, refl, ap}
use mathlib.Core.Logic.{◌↔◌, ◌≢◌, inl, inr}
use mathlib.Core.Bool.{Bool, true, false, not, ◌&&◌, ◌||◌}
use mathlib.Core.List.{List, [], ◌∷◌, ◌++◌}
use native.Mathlib.Omega.{arith}
use syftbox.Base.Tests.{◌==◌, ==_refl, if◌then◌else◌, Bool-cases}
use syftbox.Base.Lists.{any, all}

abbrev pub Text : Type 0
Text = List ℕ

-- A literal as its bytes (the literals of the program are ASCII).
abbrev pub codes : String → Text
codes String.[] = []
codes (String.◌∷◌ c s) = code c ∷ codes s

unfoldable pub text_eq : Text → Text → Bool
text_eq [] [] = true
text_eq (x ∷ xs) (y ∷ ys) = x == y && text_eq xs ys
text_eq _ _ = false

pub text_eq_refl : (s : Text) → text_eq s s ≡ true
unfolding text_eq
text_eq_refl [] = refl
text_eq_refl (x ∷ s) = ground (arith, text_eq_refl s)

pub eq_of_text_eq : (s t : Text) → text_eq s t ≡ true → s ≡ t
unfolding text_eq
eq_of_text_eq [] [] h = refl
eq_of_text_eq [] (y ∷ t) h = cc
eq_of_text_eq (x ∷ s) [] h = cc
eq_of_text_eq (x ∷ s) (y ∷ t) h = ground (arith, eq_of_text_eq s t)

pub text_eq_iff : (s t : Text) → (text_eq s t ≡ true) ↔ (s ≡ t)
text_eq_iff s t = (eq_of_text_eq s t, λ e. rw e (text_eq_refl t))

pub text_eq_symm : (s t : Text) (b : Bool) → text_eq s t ≡ b → text_eq t s ≡ b
unfolding text_eq
text_eq_symm [] [] b h = h
text_eq_symm [] (y ∷ t) b h = h
text_eq_symm (x ∷ s) [] b h = h
text_eq_symm (x ∷ s) (y ∷ t) b h = ground (arith, text_eq_symm s t (text_eq s t) refl)

-- Under the test that two texts are equal, one can stand for the other.
pub text_eq_stand {ℓ} :
    {A : Type ℓ} (q p : Text) (F : Text → A) (x : A)
    → (if text_eq q p then F q else x) ≡ (if text_eq q p then F p else x)
text_eq_stand q p F x = elim (Bool-cases (text_eq q p)) [
  | inl h ↦ ap (λ k. if text_eq q p then F k else x) (eq_of_text_eq q p h)
  | inr h ↦ rw (h) refl
]

-- `strings.HasPrefix(s, p)`
unfoldable pub has_prefix : Text → Text → Bool
has_prefix s [] = true
has_prefix [] (y ∷ p) = false
has_prefix (x ∷ s) (y ∷ p) = x == y && has_prefix s p

-- A text begins with its own beginning, also when more is put between.
pub has_prefix-append : (u more rest : Text) → has_prefix ((u ++ more) ++ rest) u ≡ true
unfolding has_prefix
has_prefix-append [] more rest = refl
has_prefix-append (x ∷ u) more rest = ground (arith, has_prefix-append u more rest, ==_refl x)

-- `strings.Contains(s, sub)`
unfoldable pub contains : Text → Text → Bool
unfolding has_prefix
contains [] sub = has_prefix [] sub
contains (c ∷ s) sub = has_prefix (c ∷ s) sub || contains s sub

-- `strings.ContainsAny(s, chars)`
unfoldable pub contains_any : Text → Text → Bool
contains_any s chars = any (λ c. any (λ d. c == d) chars) s

-- `strings.Count(s, sep)` for a separator of one byte
unfoldable pub count_byte : ℕ → Text → ℕ
count_byte b [] = 0
count_byte b (c ∷ s) = (if c == b then 1 else 0) + count_byte b s

-- `strings.TrimLeft(s, cut)` for a cutset of one byte
unfoldable pub trim_left : ℕ → Text → Text
trim_left b [] = []
trim_left b (c ∷ s) = let rest = trim_left b s in if c == b then rest else c ∷ s

-- `strings.TrimSuffix(s, suffix)`: the first tail that equals the suffix is cut, and a tail of a
-- given length is met once.
unfoldable pub trim_suffix : Text → Text → Text
unfolding text_eq
trim_suffix [] suffix = []
trim_suffix (c ∷ s) suffix = if text_eq (c ∷ s) suffix then [] else c ∷ trim_suffix s suffix

unfoldable pub onto_first : ℕ → List Text → List Text
onto_first c [] = (c ∷ []) ∷ []
onto_first c (p ∷ ps) = (c ∷ p) ∷ ps

-- `strings.Split(s, sep)` for a separator of one byte: never empty
unfoldable pub split : ℕ → Text → List Text
unfolding onto_first
split b [] = [] ∷ []
split b (c ∷ s) = let rest = split b s in if c == b then [] ∷ rest else onto_first c rest

-- `strings.Join(parts, sep)` for a separator of one byte
unfoldable pub join : ℕ → List Text → Text
join b [] = []
join b (p ∷ []) = p
join b (p ∷ q ∷ ps) = p ++ (b ∷ join b (q ∷ ps))

-- A text in which the byte does not occur.
abbrev pub free_of : ℕ → Text → Bool
free_of b = all (λ c. not (c == b))

onto_first-all-free_of :
    (b c : ℕ) (ps : List Text)
    → (c == b) ≡ false
    → all (free_of b) ps ≡ true
    → all (free_of b) (onto_first c ps) ≡ true
unfolding onto_first
onto_first-all-free_of b c [] h k = ground arith
onto_first-all-free_of b c (p ∷ ps) h k = ground arith

pub split-ne-nil : (b : ℕ) (s : Text) → split b s ≢ []
unfolding split onto_first
split-ne-nil b [] h = cc
split-ne-nil b (c ∷ s) h = ground arith

-- No part of a split holds the separator.
pub split-all-free_of : (b : ℕ) (s : Text) → all (free_of b) (split b s) ≡ true
unfolding split
split-all-free_of b [] = refl
split-all-free_of b (c ∷ s) =
    ground (arith, split-all-free_of b s, onto_first-all-free_of b c (split b s))

split_of_free : (b : ℕ) (p : Text) → free_of b p ≡ true → split b p ≡ p ∷ []
unfolding split
split_of_free b [] h = refl
split_of_free b (c ∷ p) h = ground (arith, split_of_free b p)

pub split-append :
    (b : ℕ) (p s : Text) → free_of b p ≡ true → split b (p ++ (b ∷ s)) ≡ p ∷ split b s
unfolding split
split-append b [] s h = ground (arith, ==_refl b)
split-append b (c ∷ p) s h = ground (arith, split-append b p s)

-- Splitting undoes joining, for parts without the separator.
pub split-join :
    (b : ℕ) (p : Text) (ps : List Text)
    → all (free_of b) (p ∷ ps) ≡ true
    → split b (join b (p ∷ ps)) ≡ p ∷ ps
unfolding join
split-join b p [] h = split_of_free b p (ground arith)
split-join b p (q ∷ ps) h =
    rw (split-append b p (join b (q ∷ ps)) (ground arith), split-join b q ps (ground arith))
