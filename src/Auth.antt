-- ===== src/Auth.antt =====
-- internal/server/auth and internal/server/middlewares/jwtauth.go: the codes that are sent by email,
-- the tokens, and the user of a request. `parses` is mail.ParseAddress.
pub mod Codes
pub mod Tokens
use syftbox.Base.{
  ℕ, zero, suc, ◌+◌, Bool, true, false, not, ◌&&◌, ◌||◌, List, [], ◌∷◌, Option, none, some, Text,
  codes, text_eq, ltb, length, has_prefix, any, all, leb, if◌then◌else◌, ◌==◌, ◌≡◌,
}
use mathlib.Core.List.{map}
use syftbox.FilePath.{is_empty}
use syftbox.Datasite.{is_valid_email}

-- The expirable LRU of the codes by email. `pass` is the passing of time, which may drop entries.
pub record CodeStore : Type 1 where
  pub State : Type 0
  pub empty : State
  pub get : Text → State → Option Text
  pub add : Text → Text → State → State
  pub remove : Text → State → State
  pub pass : State → State

-- The documented behaviour of the LRU: it makes no entry up.
pub record IsFaithful (k : CodeStore) : Type 0 where
  pub get-empty : (e : Text) → k.get e k.empty ≡ none
  pub get-add :
      (d e v x : Text) (s : k.State)
      → k.get e (k.add d v s) ≡ some x
      → (if text_eq d e then some v else k.get e s) ≡ some x
  pub get-remove :
      (d e x : Text) (s : k.State)
      → k.get e (k.remove d s) ≡ some x
      → (if text_eq d e then none else k.get e s) ≡ some x
  pub get-pass : (e x : Text) (s : k.State) → k.get e (k.pass s) ≡ some x → k.get e s ≡ some x

pub data AuthError : Type 0 where
  invalid_email : AuthError
  invalid_otp : AuthError

-- The loop of `randOTP`; the `i`th draw of a random digit may fail.
unfoldable pub otp_chars : ℕ → (ℕ → Option ℕ) → Option Text
otp_chars zero draw = some []
otp_chars (suc n) draw = elim (draw 0) [
  | none ↦ none
  | some d ↦ elim (otp_chars n (λ i. draw (suc i))) [
    | none ↦ none
    | some rest ↦ some ((d + b'0') ∷ rest)
  ]
]

-- The comparison of `verifyOTP` with what is stored.
abbrev pub is_stored : Option Text → Text → Bool
is_stored none otp = false
is_stored (some stored) otp = text_eq stored otp

-- `randOTP`
unfoldable pub rand_otp : ℕ → (ℕ → Option ℕ) → Option Text
unfolding otp_chars
rand_otp n draw = if n == 0 then none else otp_chars n draw

module _ (k : CodeStore) (parses : Text → Bool) (otp_length : ℕ) where
  -- `generateOTP`: the code, if there is no error, with the state after it.
  unfoldable pub generate_otp : Text → (ℕ → Option ℕ) → k.State → Option Text × k.State
  unfolding is_valid_email rand_otp
  generate_otp email draw s =
      if not (is_valid_email parses email) then (none, s) else elim (rand_otp otp_length draw) [
        | none ↦ (none, s)
        | some otp ↦ (some otp, k.add email otp s)
      ]

  -- `SendOTP`, with whether it succeeds. `sends` is the making and the sending of an email.
  unfoldable pub send_otp :
      Bool → (Text → Text → Bool) → Text → (ℕ → Option ℕ) → k.State → Bool × k.State
  unfolding generate_otp
  send_otp email_enabled sends email draw s =
      let (made, s') = generate_otp email draw s in
      (
        elim made [ none ↦ false | some otp ↦ if not email_enabled then true else sends email otp ],
        s',
      )

  -- `verifyOTP`; `none` is success.
  unfoldable pub verify_otp : Text → Text → k.State → Option AuthError × k.State
  unfolding is_valid_email
  verify_otp email otp s =
      if not (is_valid_email parses email)
      then (some invalid_email, s)
      else if not (length otp == otp_length)
      then (some invalid_otp, s)
      else if not (is_stored (k.get email s) otp)
      then (some invalid_otp, s)
      else (none, k.remove email s)

-- `AuthTokenType`, as it is read from a token.
pub data AuthTokenType : Type 0 where
  access_token : AuthTokenType
  refresh_token : AuthTokenType
  other_token : Text → AuthTokenType

-- `Claims`; `expires` is `none` for a token without end.
pub record Claims : Type 0 where
  pub id : Text
  pub subject : Text
  pub issuer : Text
  pub expires : Option ℕ
  pub issued : ℕ
  pub type : AuthTokenType

-- The library of tokens: it signs claims with a secret, and reads them back at a time.
pub record Jwt : Type 0 where
  pub signed : Claims → Text → Option Text
  pub parse : ℕ → Text → Text → Option Claims

-- `Config`, as far as the tokens go.
pub record Config : Type 0 where
  pub issuer : Text
  pub access_secret : Text
  pub refresh_secret : Text
  pub access_expiry : ℕ
  pub refresh_expiry : ℕ

abbrev pub is_access : AuthTokenType → Bool
is_access access_token = true
is_access refresh_token = false
is_access (other_token t) = false

abbrev pub is_refresh : AuthTokenType → Bool
is_refresh access_token = false
is_refresh refresh_token = true
is_refresh (other_token t) = false

abbrev lower_ascii : ℕ → ℕ
lower_ascii c = if leb b'A' c && leb c b'Z' then c + 32 else c

-- The folding of letters as far as it meets an ASCII text without the letter `k`: the long s,
-- which is two bytes, is folded with `s`.
abbrev fold_case : Text → Text
fold_case [] = []
fold_case (c ∷ []) = lower_ascii c ∷ []
fold_case (c ∷ d ∷ rest) = elim (c == 197 && d == 191) [
  | true ↦ b's' ∷ fold_case rest
  | false ↦ lower_ascii c ∷ fold_case (d ∷ rest)
]

-- `strings.EqualFold` with one of the names of the guest.
unfoldable pub is_guest : Text → Bool
unfolding text_eq
is_guest user =
    text_eq (fold_case user) (codes "guest@syftbox.net")
    || text_eq (fold_case user) (codes "guest@syft.org")

abbrev pub bearer : Text
bearer = codes "Bearer "

abbrev pub behind_bearer : Text → Text
behind_bearer (_ ∷ _ ∷ _ ∷ _ ∷ _ ∷ _ ∷ _ ∷ rest) = rest
behind_bearer other = []

-- The user of the query: `user`, or `x-syft-from` if that is empty.
abbrev pub queried : Text → Text → Text
queried user from = if is_empty user then from else user

abbrev pub subject_of : Option Claims → Option Text
subject_of none = none
subject_of (some c) = some c.subject

-- The test of the type of the claims that were read.
abbrev pub of_type : (AuthTokenType → Bool) → Option Claims → Option Claims
of_type test none = none
of_type test (some c) = if test c.type then some c else none

module _ (jwt : Jwt) (config : Config) (now : ℕ) where
  -- The claims of `newToken`; an expiry of 0 is none.
  unfoldable pub new_claims : Text → Text → ℕ → AuthTokenType → Claims
  new_claims id subject expiry type = record {
    id = id;
    subject = subject;
    issuer = config.issuer;
    expires = if expiry == 0 then none else some (now + expiry);
    issued = now;
    type = type;
  }

  -- `generateTokenPair`, for two new IDs.
  unfoldable pub generate_token_pair : Text → Text → Text → Option (Text × Text)
  unfolding new_claims
  generate_token_pair id id' subject =
      elim (jwt.signed (new_claims id subject config.access_expiry access_token)
        config.access_secret) [
          | none ↦ none
          | some access ↦
              elim (jwt.signed (new_claims id' subject config.refresh_expiry refresh_token)
                config.refresh_secret) [ none ↦ none | some refresh ↦ some (access, refresh) ]
        ]

  -- `ValidateAccessToken`
  unfoldable pub validate_access_token : Text → Option Claims
  unfolding is_empty
  validate_access_token token =
      if is_empty token then none else of_type is_access (jwt.parse now token config.access_secret)

  -- `ValidateRefreshToken`
  unfoldable pub validate_refresh_token : Text → Option Claims
  unfolding is_empty
  validate_refresh_token token =
      if is_empty token
      then none
      else of_type is_refresh (jwt.parse now token config.refresh_secret)

  -- `RefreshToken`
  unfoldable pub renew_tokens : Text → Text → Text → Option (Text × Text)
  unfolding validate_refresh_token generate_token_pair
  renew_tokens id id' old = elim (validate_refresh_token old) [
    | none ↦ none
    | some c ↦ generate_token_pair id id' c.subject
  ]

  -- `GenerateTokensPair`
  unfoldable pub generate_tokens_pair :
      (k : CodeStore)
      → (Text → Bool)
      → ℕ
      → Text
      → Text
      → Text
      → Text
      → k.State
      → Option (Text × Text) × k.State
  unfolding verify_otp generate_token_pair
  generate_tokens_pair k parses otp_length id id' email otp s =
      let (err, s') = verify_otp k parses otp_length email otp s in
      (elim err [ some _ ↦ none | none ↦ generate_token_pair id id' email ], s')

  -- `JWTAuth`: the user that a request is served for, or `none` where it is refused.
  unfoldable pub jwt_auth : (Text → Bool) → Bool → Bool → Text → Text → Text → Option Text
  unfolding is_valid_email is_guest is_empty has_prefix validate_access_token
  jwt_auth parses enabled allow_guest user from header =
      if not enabled
      then (if is_valid_email parses (queried user from) then some (queried user from) else none)
      else if allow_guest && is_guest (queried user from)
      then some (queried user from)
      else if not (has_prefix header bearer)
      then none
      else subject_of (validate_access_token (behind_bearer header))
