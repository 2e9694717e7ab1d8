-- ===== src/FilePath/Laws.antt =====
-- What `filepath.Clean` leaves: named segments, with `..` only at the start of a relative path.
use mathlib.Core.List.{foldl, foldl-append, reverse, reverse_aux, reverse-cons}
use syftbox.Base.{
  ◌≡◌, ◌⊎◌, refl, sym, ap, ◌∙◌, Bool, true, false, not, ◌&&◌, ◌||◌, List, [], ◌∷◌, arith, ◌==◌,
  Text, text_eq, text_eq_iff, free_of, split-all-free_of, split-join, split, join, all, inl, inr,
}
use syftbox.FilePath.{slash, dot, dotdot, is_empty, push, is_rooted, clean_segs}

-- A segment that `Clean` keeps as it is.
abbrev pub is_name : Text → Bool
is_name s = not (is_empty s || text_eq s dot || text_eq s dotdot)

abbrev ups : List Text → Bool
ups = all (λ s. text_eq s dotdot)

-- The stacks that `Clean` builds, top first.
abbrev pub is_stack : Bool → List Text → Bool
is_stack r [] = true
is_stack r (s ∷ st) = is_name s && is_stack r st || (not r && text_eq s dotdot && ups st)

is_stack_of_ups : (st : List Text) → ups st ≡ true → is_stack false st ≡ true
is_stack_of_ups [] h = refl
is_stack_of_ups (s ∷ st) h = ground arith

push-is_stack :
    (r : Bool) (st : List Text) (s : Text) → is_stack r st ≡ true → is_stack r (push r st s) ≡ true
unfolding push
push-is_stack r [] s h = ground arith
push-is_stack r (t ∷ st) s h =
    ground (arith, is_stack_of_ups st, text_eq_iff s dotdot, text_eq_iff t dotdot)

pub foldl-push-is_stack :
    (r : Bool) (segs st : List Text)
    → is_stack r st ≡ true
    → is_stack r (foldl (push r) st segs) ≡ true
foldl-push-is_stack r [] st h = h
foldl-push-is_stack r (s ∷ segs) st h = foldl-push-is_stack r segs _ (push-is_stack r st s h)

-- A stack without a root keeps its shape when the root is forgotten.
pub is_stack_unrooted :
    (r : Bool) (st : List Text) → is_stack r st ≡ true → is_stack false st ≡ true
is_stack_unrooted r [] h = refl
is_stack_unrooted r (s ∷ st) h = ground (arith, is_stack_unrooted r st)

push_on_stack :
    (st : List Text) (s : Text) → is_stack false (s ∷ st) ≡ true → push false st s ≡ s ∷ st
unfolding push
push_on_stack [] s h = ground (arith, text_eq_iff s dotdot)
push_on_stack (t ∷ st) s h =
    ground (arith, text_eq_iff s dotdot, text_eq_iff t dotdot, text_eq_iff s dot)

-- Cleaned segments are pushed back as they are.
pub foldl-push-reverse :
    (st : List Text) → is_stack false st ≡ true → foldl (push false) [] (reverse st) ≡ st
foldl-push-reverse [] h = refl
foldl-push-reverse (s ∷ st) h =
    rw
      (
        reverse-cons s st,
        foldl-append (push false) [] (reverse st) (s ∷ []),
        foldl-push-reverse st (tail_is_stack st s h),
      )
      (push_on_stack st s h)
  where
    tail_is_stack :
        (u : List Text) (t : Text) → is_stack false (t ∷ u) ≡ true → is_stack false u ≡ true
    tail_is_stack u t k = ground (arith, is_stack_of_ups u)

all-reverse_aux :
    (p : Text → Bool) (xs acc : List Text)
    → all p xs ≡ true
    → all p acc ≡ true
    → all p (reverse_aux xs acc) ≡ true
all-reverse_aux p [] acc h k = k
all-reverse_aux p (x ∷ xs) acc h k = all-reverse_aux p xs (x ∷ acc) (ground arith) (ground arith)

push-all-free_of :
    (r : Bool) (st : List Text) (s : Text)
    → all (free_of slash) st ≡ true
    → free_of slash s ≡ true
    → all (free_of slash) (push r st s) ≡ true
unfolding push
push-all-free_of r [] s h k = ground arith
push-all-free_of r (t ∷ st) s h k = ground arith

foldl-push-all-free_of :
    (r : Bool) (segs st : List Text)
    → all (free_of slash) segs ≡ true
    → all (free_of slash) st ≡ true
    → all (free_of slash) (foldl (push r) st segs) ≡ true
foldl-push-all-free_of r [] st h k = k
foldl-push-all-free_of r (s ∷ segs) st h k =
    foldl-push-all-free_of r segs _ (ground arith) (push-all-free_of r st s k (ground arith))

-- A text that is not empty and does not begin with a slash.
abbrev pub is_plain : Text → Bool
is_plain [] = false
is_plain (c ∷ _) = not (c == slash)

is_stack-plain :
    (st : List Text)
    → is_stack false st ≡ true
    → all (free_of slash) st ≡ true
    → all is_plain st ≡ true
unfolding is_empty text_eq
is_stack-plain [] h k = refl
is_stack-plain ([] ∷ st) h k = ground arith
is_stack-plain ((c ∷ s) ∷ st) h k = ground (arith, is_stack-plain st, is_stack_of_ups st)

is_plain-join :
    (p : Text) (ps : List Text) → is_plain p ≡ true → is_plain (join slash (p ∷ ps)) ≡ true
unfolding join
is_plain-join [] ps h = cc
is_plain-join (c ∷ p) [] h = h
is_plain-join (c ∷ p) (q ∷ ps) h = h

-- What `Clean` is given, as the segments of a stack.
module _ (p : Text) where
  abbrev pub stack : List Text
  stack = foldl (push (is_rooted p)) [] (split slash p)

  pub stack-is_stack : is_stack (is_rooted p) stack ≡ true
  stack-is_stack = foldl-push-is_stack (is_rooted p) (split slash p) [] refl

  pub stack-all-free_of : all (free_of slash) stack ≡ true
  stack-all-free_of =
      foldl-push-all-free_of (is_rooted p) (split slash p) [] (split-all-free_of slash p) refl

pub is_rooted_of_is_plain : (s : Text) → is_plain s ≡ true → is_rooted s ≡ false
is_rooted_of_is_plain [] h = refl
is_rooted_of_is_plain (c ∷ s) h = ground arith

-- Joined segments are clean: `Clean` splits them again into the same segments.
clean_segs-join :
    (st : List Text) (q : Text) (qs : List Text)
    → reverse st ≡ q ∷ qs
    → is_stack false st ≡ true
    → is_plain (join slash (q ∷ qs)) ≡ true
    → all (free_of slash) (q ∷ qs) ≡ true
    → clean_segs (join slash (q ∷ qs)) ≡ q ∷ qs
unfolding clean_segs
clean_segs-join st q qs e h pl k =
    rw (is_rooted_of_is_plain _ pl, split-join slash q qs k)
      (ap (λ l. reverse (foldl (push false) [] l)) (sym e)
        ∙ ap (λ l. reverse l) (foldl-push-reverse st h)
        ∙ e)

-- The kept segments joined: nothing, or a text that `Clean` leaves as it is.
pub body_cases :
    (p : Text)
    → (clean_segs p ≡ [])
      ⊎ ((is_plain (join slash (clean_segs p)) ≡ true)
          × (clean_segs (join slash (clean_segs p)) ≡ clean_segs p))
unfolding clean_segs
body_cases p = go (reverse (stack p)) refl
  where
    unrooted : is_stack false (stack p) ≡ true
    unrooted = is_stack_unrooted (is_rooted p) (stack p) (stack-is_stack p)

    go :
        (l : List Text)
        → reverse (stack p) ≡ l
        → (l ≡ []) ⊎ ((is_plain (join slash l) ≡ true) × (clean_segs (join slash l) ≡ l))
    go [] e = inl refl
    go (q ∷ qs) e =
        let free : all (free_of slash) (q ∷ qs) ≡ true =
          rw e at (all-reverse_aux (free_of slash) (stack p) [] (stack-all-free_of p) refl) in
        let plains : all is_plain (q ∷ qs) ≡ true = rw e at (
          all-reverse_aux is_plain (stack p) []
            (is_stack-plain (stack p) unrooted (stack-all-free_of p)) refl) in
        let pl : is_plain (join slash (q ∷ qs)) ≡ true = is_plain-join q qs (ground arith) in
        inr (pl, clean_segs-join (stack p) q qs e unrooted pl free)
