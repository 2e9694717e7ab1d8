-- ===== src/Tests/Auth.antt =====
-- Runs of the codes and the tokens, and their theorems at concrete data.
use syftbox.Base.{
  ℕ, zero, suc, ◌≤◌, ◌≡◌, refl, sym, ap, Bool, true, false, ◌&&◌, List, [], ◌∷◌, Option, none, some,
  Text, codes, text_eq, text_eq_refl, if◌then◌else◌, Bool-cases, inl, inr, has_prefix, ◌++◌, ◌∙◌,
}
use mathlib.Core.Option.{some-injective}
use mathlib.Core.Path.{subst}
use syftbox.FilePath.{is_empty}
use syftbox.Datasite.{is_valid_email}
use syftbox.Auth.{
  CodeStore, Claims, Jwt, Config, AuthTokenType, access_token, refresh_token, other_token,
  otp_chars, rand_otp, generate_otp, send_otp, verify_otp, new_claims, generate_token_pair,
  validate_access_token, validate_refresh_token, renew_tokens, generate_tokens_pair, is_guest,
  jwt_auth, bearer,
}
use syftbox.Auth
use syftbox.Auth.Codes.{
  Request, asked, answered, passed, made, accepted_answers, accepted_answers-made,
}
use syftbox.Auth.Tokens
use syftbox.Auth.Tokens.{is_live, jwt_auth-generate_token_pair}
use syftbox.Tests.Samples.{alice}

opened_auth : Unit {0}
unfolding is_valid_email otp_chars rand_otp generate_otp send_otp verify_otp new_claims
    generate_token_pair validate_access_token validate_refresh_token renew_tokens
    generate_tokens_pair is_guest jwt_auth text_eq has_prefix is_empty
opened_auth = tt

abbrev parses : Text → Bool
parses t = true

-- A store of codes that forgets nothing.
abbrev code_store : CodeStore
code_store = record {
  State = Text → Option Text;
  empty = λ e. none;
  get = λ e s. s e;
  add = λ d v s e. if text_eq d e then some v else s e;
  remove = λ d s e. if text_eq d e then none else s e;
  pass = λ s. s;
}

code_store-IsFaithful : Auth.IsFaithful code_store
code_store-IsFaithful = record {
  get-empty = λ e. refl;
  get-add = λ d e v x s h. h;
  get-remove = λ d e x s h. h;
  get-pass = λ e x s h. h;
}

-- A code of six sevens.
abbrev sevens : Text
sevens = codes "777777"

abbrev draws : ℕ → Option ℕ
draws i = some 7

abbrev requests : List Request
requests = asked alice draws ∷ answered alice sevens ∷ passed ∷ answered alice sevens ∷ []

accepted_answers_example :
    (accepted_answers code_store parses 6 alice sevens requests code_store.empty ≡ 1)
    × (made code_store parses 6 alice sevens requests code_store.empty ≡ 1)
unfolding opened_auth
accepted_answers_example = (refl, refl)

accepted_answers-made_example :
    accepted_answers code_store parses 6 alice sevens requests code_store.empty
    ≤ made code_store parses 6 alice sevens requests code_store.empty
accepted_answers-made_example =
    accepted_answers-made code_store parses 6 code_store-IsFaithful alice sevens requests

-- A library of tokens that writes the secret and the claims out.
abbrev put_text : Text → Text → Text
put_text [] k = 0 ∷ k
put_text (x ∷ t) k = 1 ∷ x ∷ put_text t k

abbrev take_text : Text → Text × Text
take_text [] = ([], [])
take_text (zero ∷ k) = ([], k)
take_text (suc _ ∷ []) = ([], [])
take_text (suc _ ∷ x ∷ r) = (x ∷ (take_text r).0, (take_text r).1)

take_text-put_text : (t k : Text) → take_text (put_text t k) ≡ (t, k)
take_text-put_text [] k = refl
take_text-put_text (x ∷ t) k = rw (take_text-put_text t k) refl

abbrev put_type : AuthTokenType → Text
put_type access_token = 0 ∷ []
put_type refresh_token = 1 ∷ []
put_type (other_token t) = 2 ∷ t

abbrev take_type : Text → AuthTokenType
take_type [] = access_token
take_type (zero ∷ t) = access_token
take_type (suc zero ∷ t) = refresh_token
take_type (suc (suc _) ∷ t) = other_token t

take_type-put_type : (t : AuthTokenType) → take_type (put_type t) ≡ t
take_type-put_type access_token = refl
take_type-put_type refresh_token = refl
take_type-put_type (other_token t) = refl

abbrev put_expiry : Option ℕ → Text → Text
put_expiry none k = 0 ∷ 0 ∷ k
put_expiry (some n) k = 1 ∷ n ∷ k

abbrev take_expiry : Text → Option ℕ × Text
take_expiry (zero ∷ _ ∷ k) = (none, k)
take_expiry (suc _ ∷ n ∷ k) = (some n, k)
take_expiry other = (none, [])

take_expiry-put_expiry : (o : Option ℕ) (k : Text) → take_expiry (put_expiry o k) ≡ (o, k)
take_expiry-put_expiry none k = refl
take_expiry-put_expiry (some n) k = refl

abbrev put_claims : Claims → Text → Text
put_claims c secret = put_text secret (
    put_text c.id
      (put_text c.subject (put_text c.issuer (put_expiry c.expires (c.issued ∷ put_type c.type)))))

abbrev first_number : Text → ℕ
first_number [] = 0
first_number (n ∷ t) = n

abbrev behind_first : Text → Text
behind_first [] = []
behind_first (n ∷ t) = t

abbrev take_claims : Text → Text × Claims
take_claims t =
    let (secret, a) = take_text t in
    let (id, b) = take_text a in
    let (subject, c) = take_text b in
    let (issuer, d) = take_text c in
    let (expires, e) = take_expiry d in
    (
      secret,
      record {
        id = id;
        subject = subject;
        issuer = issuer;
        expires = expires;
        issued = first_number e;
        type = take_type (behind_first e);
      },
    )

take_claims-put_claims :
    (c : Claims) (secret : Text) → take_claims (put_claims c secret) ≡ (secret, c)
take_claims-put_claims c secret =
    rw
      (
        take_text-put_text secret (
            put_text c.id (
              put_text c.subject
                (put_text c.issuer (put_expiry c.expires (c.issued ∷ put_type c.type))))),
        take_text-put_text c.id (
            put_text c.subject
              (put_text c.issuer (put_expiry c.expires (c.issued ∷ put_type c.type)))),
        take_text-put_text c.subject
            (put_text c.issuer (put_expiry c.expires (c.issued ∷ put_type c.type))),
        take_text-put_text c.issuer (put_expiry c.expires (c.issued ∷ put_type c.type)),
        take_expiry-put_expiry c.expires (c.issued ∷ put_type c.type),
        take_type-put_type c.type,
      )
      refl

abbrev read_claims : ℕ → Text → Text × Claims → Option Claims
read_claims now secret (signed, c) =
    if text_eq signed secret && is_live c.expires now then some c else none

abbrev jwt : Jwt
jwt = record {
  signed = λ c secret. some (put_claims c secret);
  parse = λ now token secret. read_claims now secret (take_claims token);
}

read_claims-some :
    (now : ℕ) (secret secret' : Text) (c d : Claims)
    → read_claims now secret (secret', c) ≡ some d
    → d ≡ c
read_claims-some now secret secret' c d h =
    elim (Bool-cases (text_eq secret' secret && is_live c.expires now)) [
      | inl t ↦ sym (some-injective c d (rw t at h))
      | inr t ↦ cc (rw t at h)
    ]

put_text-filled : (t k : Text) → is_empty (put_text t k) ≡ false
unfolding is_empty
put_text-filled [] k = refl
put_text-filled (x ∷ t) k = refl

jwt-IsFaithful : Tokens.IsFaithful jwt
jwt-IsFaithful = record {
  parse-signed = λ c secret token now h l.
      subst (λ t. read_claims now secret (take_claims t) ≡ some c) (some-injective _ _ h)
        (ap (read_claims now secret) (take_claims-put_claims c secret)
          ∙ rw (text_eq_refl secret, l) refl);
  parse-only = λ c d secret secret' token now h p. read_claims-some now secret' secret c d (
      subst (λ q. read_claims now secret' q ≡ some d) (take_claims-put_claims c secret)
        (subst (λ t. read_claims now secret' (take_claims t) ≡ some d) (sym (some-injective _ _ h))
          p));
  signed-filled = λ c secret token h.
      subst (λ t. is_empty t ≡ false) (some-injective _ _ h) (put_text-filled secret _);
}

-- A server whose tokens have one secret and whose access tokens last 60 units of time.
abbrev config : Config
config = record {
  issuer = codes "s";
  access_secret = codes "x";
  refresh_secret = codes "x";
  access_expiry = 60;
  refresh_expiry = 0;
}

abbrev access : Text
access = put_claims (new_claims jwt config 5 (codes "1") alice 60 access_token) (codes "x")

abbrev refresh : Text
refresh = put_claims (new_claims jwt config 5 (codes "2") alice 0 refresh_token) (codes "x")

jwt_auth-generate_token_pair_example :
    (jwt_auth jwt config 64 parses true true alice [] (bearer ++ access) ≡ some alice)
    × (jwt_auth jwt config 64 parses true true alice [] (bearer ++ refresh) ≡ none)
unfolding opened_auth
jwt_auth-generate_token_pair_example =
    jwt_auth-generate_token_pair jwt config jwt-IsFaithful 5 64 parses true alice [] (codes "1")
      (codes "2") alice access refresh refl refl refl

-- A new pair from a refresh token and from a code; the guest; a server without tokens.
auth_examples :
    (renew_tokens jwt config 5 (codes "1") (codes "2") refresh ≡ some (access, refresh))
    × (renew_tokens jwt config 5 (codes "1") (codes "2") access ≡ none)
    × ((generate_tokens_pair jwt config 5 code_store parses 6
          (codes "1")
          (codes "2")
          alice
          sevens
          (send_otp code_store parses 6 true (λ e o. true) alice draws code_store.empty).1).0
        ≡ some (access, refresh))
    × (jwt_auth jwt config 5 parses true true (codes "GUEST@syftbox.net") [] []
        ≡ some (codes "GUEST@syftbox.net"))
    × (jwt_auth jwt config 5 parses true false (codes "guest@syft.org") [] [] ≡ none)
    × (jwt_auth jwt config 5 parses false false [] alice [] ≡ some alice)
unfolding opened_auth
auth_examples = (refl, refl, refl, refl, refl, refl)
