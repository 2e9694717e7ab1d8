-- ===== src/Send/ResponsePath.antt =====
-- internal/server/handlers/send/send_service.go: the path of the response, which PollForResponse makes
-- out of the path of the request by strings.Replace.
use syftbox.Base.{
  ℕ, ◌≡◌, refl, ◌∙◌, Bool, false, ◌||◌, [], ◌∷◌, ◌++◌, Text, contains, has_prefix, arith,
}
use syftbox.Send.Exchange.{Setup, response_path}
use syftbox.Send.{request_suffix, response_suffix, replace_first}

-- Where the suffix of a request stands, it cannot begin before, unless it stood there already.
has_prefix-suffix :
    (c : ℕ) (s t : Text)
    → has_prefix (c ∷ (s ++ (request_suffix ++ t))) request_suffix
      ≡ has_prefix (c ∷ s) request_suffix
unfolding has_prefix
has_prefix-suffix c [] t = ground arith
has_prefix-suffix c (d ∷ []) t = ground arith
has_prefix-suffix c (d ∷ e ∷ []) t = ground arith
has_prefix-suffix c (d ∷ e ∷ f ∷ []) t = ground arith
has_prefix-suffix c (d ∷ e ∷ f ∷ g ∷ []) t = ground arith
has_prefix-suffix c (d ∷ e ∷ f ∷ g ∷ h ∷ []) t = ground arith
has_prefix-suffix c (d ∷ e ∷ f ∷ g ∷ h ∷ i ∷ []) t = ground arith
has_prefix-suffix c (d ∷ e ∷ f ∷ g ∷ h ∷ i ∷ j ∷ []) t = refl
has_prefix-suffix c (d ∷ e ∷ f ∷ g ∷ h ∷ i ∷ j ∷ k ∷ s) t = refl

neither : (p q : Bool) → (p || q) ≡ false → (p ≡ false) × (q ≡ false)
neither p q h = ground arith

replace_here :
    (t : Text)
    → replace_first request_suffix response_suffix (request_suffix ++ t) ≡ response_suffix ++ t
unfolding replace_first has_prefix
replace_here t = refl

replace_first-request :
    (p t : Text)
    → contains p request_suffix ≡ false
    → replace_first request_suffix response_suffix (p ++ (request_suffix ++ t))
      ≡ p ++ (response_suffix ++ t)
unfolding replace_first contains
replace_first-request [] t h = replace_here t
replace_first-request (c ∷ p) t h =
    let (here, later) = neither (has_prefix (c ∷ p) request_suffix) (contains p request_suffix) h in
    rw (has_prefix-suffix c p t ∙ here, replace_first-request p t later) refl

module _ (k : Setup) where
  -- The path of a response is that of the request with its first `.request` replaced: where none
  -- stands in `p`, what stands behind the next one is kept. So it ends in `.response` if `.request`
  -- stands nowhere before the suffix, with nothing behind; otherwise the suffix stays as it is.
  pub response_path-request :
      (p t : Text)
      → contains p request_suffix ≡ false
      → response_path k (p ++ (request_suffix ++ t)) ≡ p ++ (response_suffix ++ t)
  unfolding response_path
  response_path-request p t h = replace_first-request p t h
