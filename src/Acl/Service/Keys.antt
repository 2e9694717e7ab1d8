-- ===== src/Acl/Service/Keys.antt =====
-- internal/server/acl/cache.go: requests to read one path, or by one user, have keys of their own.
use syftbox.Base.{
  ℕ, ◌≡◌, ◌≢◌, refl, sym, ap, ◌∙◌, inl, inr, [], ◌∷◌, ◌++◌, none, Text, Bool-cases, arith,
}
use mathlib.Core.List.{append_cancel_left, append_cancel_right, tail-eq_of_cons-eq}
use syftbox.Acl.Paths.{norm_path}
use syftbox.AclSpec.{is_acl_file}
use syftbox.Acl.Level.{AclRequest, new_request, access_read, access_write}
use syftbox.Acl.Cache.{cache_key}
use syftbox.Acl.Service.{elevate}

elevate-read :
    (path user : Text)
    → elevate (new_request path user access_read) ≡ new_request path user access_read
unfolding elevate new_request
elevate-read path user = elim (Bool-cases (is_acl_file (norm_path path))) [
  | inl f ↦ rw f refl
  | inr f ↦ rw f refl
]

last : Text → ℕ
last [] = 0
last (x ∷ []) = x
last (x ∷ y ∷ s) = last (y ∷ s)

last-append : (u : Text) (x y : ℕ) → last (u ++ (x ∷ y ∷ [])) ≡ y
unfolding last
last-append [] x y = refl
last-append (a ∷ []) x y = refl
last-append (a ∷ b ∷ u) x y = last-append (b ∷ u) x y

-- What stands behind the path of a key.
behind_path :
    (path u v : Text) (a b : ℕ)
    → path ++ (b':' ∷ (u ++ (b':' ∷ a ∷ []))) ≡ path ++ (b':' ∷ (v ++ (b':' ∷ b ∷ [])))
    → u ++ (b':' ∷ a ∷ []) ≡ v ++ (b':' ∷ b ∷ [])
behind_path path u v a b h = tail-eq_of_cons-eq (append_cancel_left path _ _ h)

-- The requests to read a path, by any user.
abbrev pub OfPath : Text → AclRequest → Type 0
OfPath path q = (user : Text) × (q ≡ new_request path user access_read)

-- The requests of a user to read any path.
abbrev pub OfUser : Text → AclRequest → Type 0
OfUser user q = (path : Text) × (q ≡ new_request path user access_read)

pub OfPath-own :
    (path user : Text) (q : AclRequest)
    → OfPath path q
    → cache_key (elevate (new_request path user access_read)) ≡ cache_key q
    → new_request path user access_read ≡ q
unfolding cache_key new_request
OfPath-own path user q (v, e) h =
    ap (λ u. new_request path u access_read)
      (append_cancel_right user v _ (
        behind_path (norm_path path) user v 49 49
          (ap cache_key (sym (elevate-read path user)) ∙ h ∙ ap cache_key e)))
    ∙ sym e

pub OfUser-own :
    (path user : Text) (q : AclRequest)
    → OfUser user q
    → cache_key (elevate (new_request path user access_read)) ≡ cache_key q
    → new_request path user access_read ≡ q
unfolding cache_key new_request
OfUser-own path user q (p, e) h =
    ap (λ (x : Text). record { path = x; level = access_read; user = user; file = none })
      (append_cancel_right (norm_path path) (norm_path p) _
        (ap cache_key (sym (elevate-read path user)) ∙ h ∙ ap cache_key e))
    ∙ sym e

-- A key of a path, a user and the digit of a level.
abbrev key_with : Text → Text → ℕ → Text
key_with path user a = path ++ (b':' ∷ (user ++ (b':' ∷ a ∷ [])))

key_with-read :
    (path user : Text)
    → cache_key (new_request path user access_read) ≡ key_with (norm_path path) user 49
unfolding cache_key new_request
key_with-read path user = refl

key_with-write :
    (path user : Text)
    → (a : ℕ) × (a ≢ 49)
      × (cache_key (elevate (new_request path user access_write))
          ≡ key_with (norm_path path) user a)
unfolding cache_key new_request elevate
key_with-write path user = elim (Bool-cases (is_acl_file (norm_path path))) [
  | inl f ↦ (56, (λ h. omega (arith, h)), rw f refl)
  | inr f ↦ (52, (λ h. omega (arith, h)), rw f refl)
]

levels_differ : (path u v : Text) (a b : ℕ) → a ≢ b → key_with path u a ≢ key_with path v b
levels_differ path u v a b n k =
    n (sym (last-append u b':' a) ∙ ap last (behind_path path u v a b k) ∙ last-append v b':' b)

-- The key of a request to write is that of no request to read the path.
pub write-own :
    (path user : Text) (q : AclRequest)
    → OfPath path q
    → cache_key (elevate (new_request path user access_write)) ≡ cache_key q
    → new_request path user access_write ≡ q
write-own path user q (v, e) h =
    let (a, n, k) = key_with-write path user in
    absurd (
      levels_differ (norm_path path) user v a 49 n
        (sym k ∙ h ∙ ap cache_key e ∙ key_with-read path v))
