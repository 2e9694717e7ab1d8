-- ===== src/Auth/Tokens.antt =====
-- internal/server/auth and internal/server/middlewares/jwtauth.go: whom a token lets in.
use syftbox.Base.{
  ℕ, ◌≡◌, refl, ap, Bool, true, false, ◌&&◌, inl, inr, Option, none, some, Text, Option-cases, ltb,
  has_prefix, ◌++◌, ◌∙◌,
}
use mathlib.Core.Option.{some-injective}
use syftbox.FilePath.{is_empty}
use syftbox.Auth.{
  Claims, Jwt, Config, access_token, refresh_token, new_claims, generate_token_pair,
  validate_access_token, of_type, is_access, is_guest, queried, subject_of, bearer, jwt_auth,
}

-- Whether claims have not expired.
abbrev pub is_live : Option ℕ → ℕ → Bool
is_live none now = true
is_live (some end) now = ltb now end

-- The documented behaviour of the library of tokens: it reads back the claims that were signed,
-- with the same secret and until they expire, and never other claims; and no token is empty.
pub record IsFaithful (jwt : Jwt) : Type 0 where
  pub parse-signed :
      (c : Claims) (secret token : Text) (now : ℕ)
      → jwt.signed c secret ≡ some token
      → is_live c.expires now ≡ true
      → jwt.parse now token secret ≡ some c
  pub parse-only :
      (c d : Claims) (secret secret' token : Text) (now : ℕ)
      → jwt.signed c secret ≡ some token
      → jwt.parse now token secret' ≡ some d
      → d ≡ c
  pub signed-filled :
      (c : Claims) (secret token : Text) → jwt.signed c secret ≡ some token → is_empty token ≡ false

of_type-refresh :
    (c : Claims) (o : Option Claims)
    → c.type ≡ refresh_token
    → ((d : Claims) → o ≡ some d → d ≡ c)
    → of_type is_access o ≡ none
of_type-refresh c none t h = refl
of_type-refresh c (some d) t h = rw (ap (λ x. x.type) (h d refl) ∙ t) refl

module _ (jwt : Jwt) (config : Config) where
  -- What a pair of tokens is made of.
  pair-signed :
      (now : ℕ) (id id' subject access refresh : Text)
      → generate_token_pair jwt config now id id' subject ≡ some (access, refresh)
      → (jwt.signed
            (new_claims jwt config now id subject config.access_expiry access_token)
            config.access_secret
          ≡ some access)
        × (jwt.signed
              (new_claims jwt config now id' subject config.refresh_expiry refresh_token)
              config.refresh_secret
            ≡ some refresh)
  unfolding generate_token_pair
  pair-signed now id id' subject access refresh h =
      elim (Option-cases (
        jwt.signed (new_claims jwt config now id subject config.access_expiry access_token)
          config.access_secret)) [
            | inl n ↦ cc (rw (generate_token_pair, n) at h)
            | inr (a, s) ↦
                elim (Option-cases (
                  jwt.signed
                    (new_claims jwt config now id' subject config.refresh_expiry refresh_token)
                    config.refresh_secret)) [
                      | inl n ↦ cc (rw (generate_token_pair, s, n) at h)
                      | inr (r, t) ↦
                          let e =
                            some-injective (a, r) (access, refresh)
                              (rw (generate_token_pair, s, t) at h) in
                          (rw s (ap (λ p. some p.0) e), rw t (ap (λ p. some p.1) e))
                    ]
          ]

  -- The user of a request with a token.
  jwt_auth-bearer :
      (now : ℕ) (parses : Text → Bool) (allow_guest : Bool) (user from token : Text)
      → (allow_guest && is_guest (queried user from)) ≡ false
      → jwt_auth jwt config now parses true allow_guest user from (bearer ++ token)
        ≡ subject_of (validate_access_token jwt config now token)
  unfolding jwt_auth has_prefix
  jwt_auth-bearer now parses allow_guest user from token g = rw g refl

  module _ (f : IsFaithful jwt) where
    validate_access_token-access :
        (now later : ℕ) (id subject access : Text)
        → jwt.signed
            (new_claims jwt config now id subject config.access_expiry access_token)
            config.access_secret
          ≡ some access
        → is_live
            (new_claims jwt config now id subject config.access_expiry access_token).expires
            later
          ≡ true
        → subject_of (validate_access_token jwt config later access) ≡ some subject
    unfolding validate_access_token new_claims
    validate_access_token-access now later id subject access s l =
        rw (f.signed-filled _ _ access s, f.parse-signed _ _ access later s l) refl

    validate_access_token-refresh :
        (now later : ℕ) (id subject refresh : Text)
        → jwt.signed
            (new_claims jwt config now id subject config.refresh_expiry refresh_token)
            config.refresh_secret
          ≡ some refresh
        → validate_access_token jwt config later refresh ≡ none
    unfolding validate_access_token new_claims
    validate_access_token-refresh now later id subject refresh s =
        rw
          (
            f.signed-filled _ _ refresh s,
            of_type-refresh _ _ refl (λ d h. f.parse-only _ d _ _ refresh later s h),
          )
          refl

    -- The tokens that are made for a user, as the bearer tokens of later requests that are not a
    -- guest's: the access token lets the user in while it has not expired, and the refresh token lets
    -- nobody in. The library of tokens reads back what was signed, and nothing else.
    pub jwt_auth-generate_token_pair :
        (now later : ℕ) (parses : Text → Bool) (allow_guest : Bool) (user from : Text)
        (id id' subject access refresh : Text)
        → generate_token_pair jwt config now id id' subject ≡ some (access, refresh)
        → is_live
            (new_claims jwt config now id subject config.access_expiry access_token).expires
            later
          ≡ true
        → (allow_guest && is_guest (queried user from)) ≡ false
        → (jwt_auth jwt config later parses true allow_guest user from (bearer ++ access)
            ≡ some subject)
          × (jwt_auth jwt config later parses true allow_guest user from (bearer ++ refresh) ≡ none)
    jwt_auth-generate_token_pair now later parses allow_guest user from id id' subject access
          refresh h l g =
        let (a, r) = pair-signed now id id' subject access refresh h in
        (
          jwt_auth-bearer later parses allow_guest user from access g
              ∙ validate_access_token-access now later id subject access a l,
          jwt_auth-bearer later parses allow_guest user from refresh g
              ∙ ap subject_of (validate_access_token-refresh now later id' subject refresh r),
        )
