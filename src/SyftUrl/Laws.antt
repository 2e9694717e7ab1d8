-- ===== src/SyftUrl/Laws.antt =====
-- internal/utils/url.go: FromSyftURL on the path that BaseURL writes.
use syftbox.Base.{
  ℕ, suc, ◌≡◌, refl, ◌∙◌, Bool, true, false, not, ◌&&◌, List, [], ◌∷◌, ◌++◌, inl, inr, some, Text,
  text_eq, trim_left, text_eq_refl, all, keep, split-join, join, free_of, arith, Bool-cases, length,
  length-append, ltb,
}
use syftbox.FilePath.{slash, is_empty}
use syftbox.SyftUrl.{app_data, rpc, trim, trim_end, path_parts, split_at_rpc, app_and_endpoint}

-- A part of a path: not empty and without a slash.
abbrev pub is_part : Text → Bool
is_part p = not (is_empty p) && free_of slash p

keep-all {ℓ} : {A : Type ℓ} (p : A → Bool) (xs : List A) → all p xs ≡ true → keep p xs ≡ xs
keep-all p [] h = refl
keep-all p (x ∷ xs) h = ground (arith, keep-all p xs)

split_at_rpc-append :
    (app endpoint : List Text)
    → all (λ p. not (text_eq p rpc)) app ≡ true
    → split_at_rpc (app ++ (rpc ∷ endpoint)) ≡ some (app, endpoint)
unfolding split_at_rpc
split_at_rpc-append [] endpoint h = elim (Bool-cases (text_eq rpc rpc)) [
  | inl e ↦ refl
  | inr e ↦ cc (e, text_eq_refl rpc)
]
split_at_rpc-append (p ∷ app) endpoint h = elim (Bool-cases (text_eq p rpc)) [
  | inl e ↦ cc (rw e at h)
  | inr e ↦ rw (e, split_at_rpc-append app endpoint (rw e at h)) refl
]

all-and {ℓ} :
    {A : Type ℓ} (p q : A → Bool) (xs : List A)
    → all (λ x. p x && q x) xs ≡ true
    → (all p xs ≡ true) × (all q xs ≡ true)
all-and p q [] h = (refl, refl)
all-and p q (x ∷ xs) h = ground (arith, all-and p q xs)

is_empty-append : (s t : Text) → is_empty t ≡ false → is_empty (s ++ t) ≡ false
unfolding is_empty
is_empty-append [] t h = h
is_empty-append (c ∷ s) t h = refl

trim_end-append :
    (b : ℕ) (s t : Text) → is_empty (trim_end b t) ≡ false → trim_end b (s ++ t) ≡ s ++ trim_end b t
unfolding trim_end
trim_end-append b [] t h = refl
trim_end-append b (c ∷ s) t h =
    ground (arith, trim_end-append b s t h, is_empty-append s (trim_end b t) h)

trim_end_of_free : (b : ℕ) (s : Text) → free_of b s ≡ true → trim_end b s ≡ s
unfolding trim_end
trim_end_of_free b [] h = refl
trim_end_of_free b (c ∷ s) h = ground (arith, trim_end_of_free b s)

is_empty-join :
    (p : Text) (ps : List Text)
    → all is_part (p ∷ ps) ≡ true
    → is_empty (join slash (p ∷ ps)) ≡ false
unfolding join is_empty
is_empty-join p [] h = ground arith
is_empty-join p (q ∷ ps) h = is_empty-append p (slash ∷ join slash (q ∷ ps)) refl

trim_end-slash :
    (s : Text) → is_empty s ≡ false → trim_end slash s ≡ s → trim_end slash (slash ∷ s) ≡ slash ∷ s
unfolding trim_end
trim_end-slash s h e = rw (e, h) refl

-- A joined path ends in no slash.
trim_end-join :
    (p : Text) (ps : List Text)
    → all is_part (p ∷ ps) ≡ true
    → trim_end slash (join slash (p ∷ ps)) ≡ join slash (p ∷ ps)
unfolding join is_empty
trim_end-join p [] h = trim_end_of_free slash p (ground arith)
trim_end-join p (q ∷ ps) h =
    let rest : all is_part (q ∷ ps) ≡ true = ground arith in
    let e =
      trim_end-slash (join slash (q ∷ ps)) (is_empty-join q ps rest) (trim_end-join q ps rest) in
    trim_end-append slash p (slash ∷ join slash (q ∷ ps)) (rw e refl) ∙ rw e refl

trim_left-join :
    (p : Text) (ps : List Text)
    → all is_part (p ∷ ps) ≡ true
    → trim_left slash (slash ∷ join slash (p ∷ ps)) ≡ join slash (p ∷ ps)
unfolding join trim_left is_empty
trim_left-join [] ps h = cc (h)
trim_left-join (c ∷ p) [] h = ground arith
trim_left-join (c ∷ p) (q ∷ ps) h = ground arith

-- The parts of a path are read back as they were joined.
pub path_parts-join :
    (p : Text) (ps : List Text)
    → all is_part (p ∷ ps) ≡ true
    → path_parts (slash ∷ join slash (p ∷ ps)) ≡ p ∷ ps
unfolding path_parts trim
path_parts-join p ps h =
    let (named, free) = all-and (λ s. not (is_empty s)) (free_of slash) (p ∷ ps) h in
    rw (trim_left-join p ps h, trim_end-join p ps h, split-join slash p ps free)
      (keep-all (λ s. not (is_empty s)) (p ∷ ps) named)

all-append {ℓ} :
    {A : Type ℓ} (p : A → Bool) (xs ys : List A)
    → all p xs ≡ true
    → all p ys ≡ true
    → all p (xs ++ ys) ≡ true
all-append p [] ys h k = k
all-append p (x ∷ xs) ys h k = ground (arith, all-append p xs ys)

app_data_first : (ps : List Text) → all is_part ps ≡ true → all is_part (app_data ∷ ps) ≡ true
unfolding is_empty
app_data_first ps h = h

rpc_first : (ps : List Text) → all is_part ps ≡ true → all is_part (rpc ∷ ps) ≡ true
unfolding is_empty
rpc_first ps h = h

long_enough :
    (app : List Text) (e : Text) (endpoint : List Text)
    → ltb (suc (length (app ++ (rpc ∷ e ∷ endpoint)))) 3 ≡ false
long_enough app e endpoint = ground (arith, length-append app (rpc ∷ e ∷ endpoint))

-- The path of a URL, /app_data/app/rpc/endpoint, where both the name of the app and the endpoint
-- may have several parts and no part of the app is `rpc`, is read back into the app and the
-- endpoint that it was made of.
pub app_and_endpoint-join :
    (a : Text) (app : List Text) (e : Text) (endpoint : List Text)
    → all is_part (a ∷ app) ≡ true
    → all is_part (e ∷ endpoint) ≡ true
    → all (λ p. not (text_eq p rpc)) (a ∷ app) ≡ true
    → app_and_endpoint
        (path_parts (slash ∷ join slash (app_data ∷ ((a ∷ app) ++ (rpc ∷ e ∷ endpoint)))))
      ≡ some (join slash (a ∷ app), join slash (e ∷ endpoint))
unfolding app_and_endpoint text_eq
app_and_endpoint-join a app e endpoint h k n =
    let parts = all-append is_part (a ∷ app) (rpc ∷ e ∷ endpoint) h (rpc_first (e ∷ endpoint) k) in
    rw
      (
        path_parts-join app_data ((a ∷ app) ++ (rpc ∷ e ∷ endpoint))
            (app_data_first ((a ∷ app) ++ (rpc ∷ e ∷ endpoint)) parts),
        long_enough app e endpoint,
        split_at_rpc-append (a ∷ app) (e ∷ endpoint) n,
      )
      refl
