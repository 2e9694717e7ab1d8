-- ===== src/Acl/Paths.antt =====
-- internal/server/acl/path.go: the form in which paths stand in the tree and in requests.
use syftbox.Base.{
  ◌≡◌, refl, ap, ◌⊎◌, ◌≢◌, inl, inr, Bool, true, false, List, [], ◌∷◌, arith, Text, trim_left,
  split, join, if◌then◌else◌,
}
use syftbox.FilePath.{slash, clean, clean_segs, or_dot, is_rooted, dot}
use syftbox.FilePath.Laws.{is_plain, is_rooted_of_is_plain, body_cases}

-- `ACLNormPath`
unfoldable pub norm_path : Text → Text
unfolding trim_left clean
norm_path p = trim_left slash (clean p)

-- `ACLPathSegments`: the path is normalised first, also where the caller has done so.
unfoldable pub path_segments : Text → List Text
unfolding norm_path split
path_segments p = split slash (norm_path p)

-- `ACLJoinPath`: the parts are joined and not cleaned.
unfoldable pub join_segments : List Text → Text
unfolding join
join_segments = join slash

trim_left_plain : (s : Text) → is_plain s ≡ true → trim_left slash s ≡ s
unfolding trim_left
trim_left_plain [] h = refl
trim_left_plain (c ∷ s) h = ground arith

or_dot_plain : (s : Text) → is_plain s ≡ true → or_dot s ≡ s
or_dot_plain [] h = cc
or_dot_plain (c ∷ s) h = refl

clean_plain : (s : Text) → is_plain s ≡ true → clean s ≡ or_dot (join slash (clean_segs s))
unfolding clean
clean_plain s h = rw (is_rooted_of_is_plain s h)

-- A text whose segments are clean is its own normal form.
norm_path_plain : (s : Text) → is_plain s ≡ true → join slash (clean_segs s) ≡ s → norm_path s ≡ s
unfolding norm_path
norm_path_plain s h e = rw (clean_plain s h, e, or_dot_plain s h, trim_left_plain s h)

trim_left_body :
    (rooted : Bool) (s : Text)
    → is_plain s ≡ true
    → trim_left slash (if rooted then slash ∷ s else or_dot s) ≡ s
unfolding trim_left
trim_left_body true s h = trim_left_plain s h
trim_left_body false s h = rw (or_dot_plain s h) (trim_left_plain s h)

norm_path-eq-join :
    (p : Text)
    → is_plain (join slash (clean_segs p)) ≡ true
    → norm_path p ≡ join slash (clean_segs p)
unfolding norm_path
norm_path-eq-join p h = trim_left_body (is_rooted p) (join slash (clean_segs p)) h

trim_left_no_body :
    (rooted : Bool) (s : Text)
    → s ≡ []
    → let t = trim_left slash (if rooted then slash ∷ s else or_dot s) in (t ≡ []) ⊎ (t ≡ dot)
unfolding trim_left
trim_left_no_body true s h = inl (rw h)
trim_left_no_body false s h = inr (rw h)

norm_path_of_nil : (p : Text) → clean_segs p ≡ [] → (norm_path p ≡ []) ⊎ (norm_path p ≡ dot)
unfolding norm_path
norm_path_of_nil p h =
    trim_left_no_body (is_rooted p) (join slash (clean_segs p)) (ap (λ l. join slash l) h)

norm_path-dot : norm_path dot ≡ dot
unfolding norm_path
norm_path-dot = refl

-- Normalising twice is normalising once, but for the root, whose normal form is empty.
pub norm_path_idem : (p : Text) → norm_path p ≢ [] → norm_path (norm_path p) ≡ norm_path p
norm_path_idem p h = elim (body_cases p) [
  | inl e ↦ elim (norm_path_of_nil p e) [
    | inl root ↦ absurd (h root)
    | inr d ↦ rw (d) norm_path-dot
  ]
  | inr (pl, again) ↦
      rw (norm_path-eq-join p pl) (norm_path_plain _ pl (ap (λ l. join slash l) again))
]
