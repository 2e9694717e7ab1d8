-- ===== src/Acl/Rule/Hierarchy.antt =====
-- The hierarchy of the access levels, and who passes `CheckAccess`.
use syftbox.Base.{
  ℕ, ◌≤◌, ◌<◌, ◌==◌, ◌≡◌, refl, inl, inr, Bool, true, false, List, [], ◌∷◌, none, Text, text_eq,
  text_eq_refl, eq_of_text_eq, keep, ◌++◌, ◌||◌, Bool-cases, not, arith, if◌then◌else◌,
}
use syftbox.AclSpec.{has_member, token_user}
use syftbox.Acl.Level.{Level, AclRequest, access_read, access_create, access_write, access_admin}
use syftbox.Acl.Matcher.{Env}
use syftbox.Acl.Rule.{AclRule, is_writer, is_reader, check_access, has_access, resolve_access_list}

has_member-append :
    (xs ys : List Text) (u : Text) → has_member (xs ++ ys) u ≡ (has_member xs u || has_member ys u)
unfolding has_member
has_member-append [] ys u = refl
has_member-append (x ∷ xs) ys u = ground (arith, has_member-append xs ys u)

has_member_self : (u : Text) → has_member (u ∷ []) u ≡ true
unfolding has_member
has_member_self u = rw (text_eq_refl u)

has_member-keep :
    (p : Text → Bool) (xs : List Text) (u : Text)
    → p u ≡ true
    → has_member xs u ≡ true
    → has_member (keep p xs) u ≡ true
unfolding has_member
has_member-keep p [] u h k = k
has_member-keep p (x ∷ xs) u h k = elim (Bool-cases (text_eq x u)) [
  | inl e ↦ rw (eq_of_text_eq x u e) (rw h (rw (text_eq_refl u) refl))
  | inr f ↦ ground (arith, has_member-keep p xs u)
]

resolve_of_no_token :
    (set : List Text) (user : Text)
    → has_member set token_user ≡ false
    → resolve_access_list set user ≡ set
unfolding resolve_access_list
resolve_of_no_token set user h = rw h

added_holds_user :
    (set : List Text) (user : Text)
    → has_member (if has_member set user then set else set ++ (user ∷ [])) user ≡ true
added_holds_user set user = elim (Bool-cases (has_member set user)) [
  | inl old ↦ rw (old, old)
  | inr new ↦ rw (new, has_member-append set (user ∷ []) user, new) (has_member_self user)
]

resolve_holds_user :
    (set : List Text) (user : Text)
    → text_eq user token_user ≡ false
    → has_member set token_user ≡ true
    → has_member (resolve_access_list set user) user ≡ true
unfolding resolve_access_list
resolve_holds_user set user h t = rw t (
    has_member-keep (λ m. not (text_eq m token_user)) _ user (rw h refl)
      (added_holds_user set user))

-- How much a level asks for: reading the least, creating and writing alike, administering the most.
abbrev pub grade : Level → ℕ
grade l =
    if l == access_admin
    then 3
    else if l == access_write || l == access_create
    then 2
    else if l == access_read
    then 1
    else 0

module _ (env : Env) where
  -- Whoever passes `CheckAccess` at a level passes it at every other of the four levels that asks
  -- for no more.
  pub check_access_hierarchy :
      (r : AclRule) (req : AclRequest) (l : Level)
      → check_access env r req ≡ none
      → 0 < grade l
      → grade l ≤ grade req.level
      → check_access env r (record req { level = l }) ≡ none
  unfolding check_access is_writer is_reader
  check_access_hierarchy r req l h v k = ground arith

  -- A user whose ID is not the token itself passes a resolved access list exactly if the list
  -- holds the token, or the list as it is written lets the user pass.
  pub has_access-resolve_access_list :
      (set : List Text) (user : Text)
      → text_eq user token_user ≡ false
      → has_access env (resolve_access_list set user) user
        ≡ (has_member set token_user || has_access env set user)
  unfolding has_access
  has_access-resolve_access_list set user h = elim (Bool-cases (has_member set token_user)) [
    | inl t ↦ ground (arith, resolve_holds_user set user h t)
    | inr f ↦ rw (resolve_of_no_token set user f, f) refl
  ]
