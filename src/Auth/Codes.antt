-- ===== src/Auth/Codes.antt =====
-- internal/server/auth/auth.go: the codes through any sequence of requests.
use syftbox.Base.{
  ℕ, ◌+◌, ◌≤◌, ◌≡◌, refl, sym, ap, Bool, true, false, not, ◌&&◌, List, [], ◌∷◌, ◌⊎◌, inl, inr,
  Option, none, some, Text, text_eq, is_some, eq_of_text_eq, arith, Bool-cases, Option-cases,
  length, ◌==◌,
}
use mathlib.Core.Option.{some-injective}
use mathlib.Core.Path.{subst}
use syftbox.Datasite.{is_valid_email}
use syftbox.Auth.{
  CodeStore, IsFaithful, AuthError, invalid_email, invalid_otp, generate_otp, verify_otp, is_stored,
  rand_otp,
}

-- A request for a code, with the draws of its digits; an answer; or the passing of time.
pub data Request : Type 0 where
  asked : Text → (ℕ → Option ℕ) → Request
  answered : Text → Text → Request
  passed : Request

abbrev pub one_if : Bool → ℕ
one_if true = 1
one_if false = 0

module _ (k : CodeStore) (parses : Text → Bool) (otp_length : ℕ) where
  abbrev pub step : Request → k.State → k.State
  step (asked email draw) s = (generate_otp k parses otp_length email draw s).1
  step (answered email otp) s = (verify_otp k parses otp_length email otp s).1
  step passed s = k.pass s

  -- Whether a request makes the code `c` for the email `e`.
  abbrev pub makes : Text → Text → Request → k.State → Bool
  makes e c (asked email draw) s =
      text_eq email e && is_stored (generate_otp k parses otp_length email draw s).0 c
  makes e c (answered email otp) s = false
  makes e c passed s = false

  -- Whether a request is the answer `c` for the email `e`, and is accepted.
  abbrev pub accepts : Text → Text → Request → k.State → Bool
  accepts e c (asked email draw) s = false
  accepts e c (answered email otp) s =
      (text_eq email e && text_eq otp c)
      && not (is_some (verify_otp k parses otp_length email otp s).0)
  accepts e c passed s = false

  abbrev pub made : Text → Text → List Request → k.State → ℕ
  made e c [] s = 0
  made e c (r ∷ rs) s = one_if (makes e c r s) + made e c rs (step r s)

  abbrev pub accepted_answers : Text → Text → List Request → k.State → ℕ
  accepted_answers e c [] s = 0
  accepted_answers e c (r ∷ rs) s = one_if (accepts e c r s) + accepted_answers e c rs (step r s)

  abbrev held : Text → Text → k.State → ℕ
  held e c s = one_if (is_stored (k.get e s) c)

  held_mono :
      (e c : Text) (s t : k.State)
      → ((x : Text) → k.get e t ≡ some x → k.get e s ≡ some x)
      → held e c t ≤ held e c s
  held_mono e c s t f = elim (Option-cases (k.get e t)) [
    | inl h ↦ rw h (omega arith)
    | inr (x, h) ↦ rw (h, f x h) (omega arith)
  ]

  generate_otp-cases :
      (d : Text) (draw : ℕ → Option ℕ) (s : k.State)
      → (generate_otp k parses otp_length d draw s ≡ (none, s))
        ⊎ ((otp : Text) × (generate_otp k parses otp_length d draw s ≡ (some otp, k.add d otp s)))
  unfolding generate_otp
  generate_otp-cases d draw s = elim (Bool-cases (is_valid_email parses d)) [
    | inr v ↦ inl (rw v refl)
    | inl v ↦ elim (Option-cases (rand_otp otp_length draw)) [
      | inl n ↦ inl (rw (v, n) refl)
      | inr (otp, n) ↦ inr (otp, rw (v, n) refl)
    ]
  ]

  verify_otp-cases :
      (d otp : Text) (s : k.State)
      → ((err : AuthError) × (verify_otp k parses otp_length d otp s ≡ (some err, s)))
        ⊎ ((verify_otp k parses otp_length d otp s ≡ (none, k.remove d s))
            × (is_stored (k.get d s) otp ≡ true))
  unfolding verify_otp
  verify_otp-cases d otp s = elim (Bool-cases (is_valid_email parses d)) [
    | inr v ↦ inl (invalid_email, rw v refl)
    | inl v ↦ elim (Bool-cases (length otp == otp_length)) [
      | inr l ↦ inl (invalid_otp, rw (v, l) refl)
      | inl l ↦ elim (Bool-cases (is_stored (k.get d s) otp)) [
        | inr m ↦ inl (invalid_otp, rw (v, l, m) refl)
        | inl m ↦ inr (rw (v, l, m) refl, m)
      ]
    ]
  ]

  module _ (f : IsFaithful k) where
    after_add :
        (d e v c : Text) (s : k.State)
        → 0 + held e c (k.add d v s) ≤ one_if (text_eq d e && text_eq v c) + held e c s
    after_add d e v c s = elim (Bool-cases (text_eq d e)) [
      | inr q ↦
          rw q
            (omega (arith, held_mono e c s (k.add d v s) (λ x h. rw q at (f.get-add d e v x s h))))
      | inl q ↦ rw q (elim (Option-cases (k.get e (k.add d v s))) [
        | inl n ↦ rw n (omega arith)
        | inr (x, n) ↦
            rw (n, sym (some-injective v x (rw q at (f.get-add d e v x s n)))) (omega arith)
      ])
    ]

    after_remove_same :
        (d e : Text) (c : Text) (s : k.State) → text_eq d e ≡ true → held e c (k.remove d s) ≡ 0
    after_remove_same d e c s q = elim (Option-cases (k.get e (k.remove d s))) [
      | inl n ↦ rw n refl
      | inr (x, n) ↦ cc (rw q at (f.get-remove d e x s n))
    ]

    held_same :
        (d e otp c : Text) (s : k.State)
        → text_eq d e ≡ true
        → text_eq otp c ≡ true
        → is_stored (k.get d s) otp ≡ true
        → held e c s ≡ 1
    held_same d e otp c s q o h = ap one_if (
        subst (λ i. is_stored (k.get i s) c ≡ true) (eq_of_text_eq d e q)
          (subst (λ i. is_stored (k.get d s) i ≡ true) (eq_of_text_eq otp c o) h))

    after_remove_any : (d e c : Text) (s : k.State) → held e c (k.remove d s) ≤ held e c s
    after_remove_any d e c s = elim (Bool-cases (text_eq d e)) [
      | inl q ↦ omega (arith, after_remove_same d e c s q)
      | inr q ↦ held_mono e c s (k.remove d s) (λ x p. rw q at (f.get-remove d e x s p))
    ]

    after_remove :
        (d e otp c : Text) (s : k.State)
        → is_stored (k.get d s) otp ≡ true
        → one_if ((text_eq d e && text_eq otp c) && true) + held e c (k.remove d s) ≤ 0 + held e c s
    after_remove d e otp c s h = elim (Bool-cases (text_eq d e)) [
      | inr q ↦ rw q (omega (arith, after_remove_any d e c s))
      | inl q ↦ elim (Bool-cases (text_eq otp c)) [
        | inr o ↦ rw (q, o) (omega (arith, after_remove_any d e c s))
        | inl o ↦
            rw (q, o) (omega (arith, after_remove_same d e c s q, held_same d e otp c s q o h))
      ]
    ]

    and_false : (b : Bool) → one_if (b && false) ≡ 0
    and_false true = refl
    and_false false = refl

    -- The balance of a request with what it answers and the state after it.
    abbrev AskedBalance : Text → Text → Text → k.State → Option Text × k.State → Type 0
    AskedBalance e c d s (otp, t) =
        0 + held e c t ≤ one_if (text_eq d e && is_stored otp c) + held e c s

    abbrev AnsweredBalance :
        Text → Text → Text → Text → k.State → Option AuthError × k.State → Type 0
    AnsweredBalance e c d otp s (err, t) =
        one_if ((text_eq d e && text_eq otp c) && not (is_some err)) + held e c t ≤ 0 + held e c s

    -- One request: an accepted answer takes the code that was held, and a code that is held
    -- afterwards was held before or is made.
    step_balance :
        (e c : Text) (r : Request) (s : k.State)
        → one_if (accepts e c r s) + held e c (step r s) ≤ one_if (makes e c r s) + held e c s
    step_balance e c passed s =
        omega (arith, held_mono e c s (k.pass s) (λ x h. f.get-pass e x s h))
    step_balance e c (asked d draw) s = elim (generate_otp-cases d draw s) [
      | inl h ↦ subst (AskedBalance e c d s) (sym h) (rw (and_false (text_eq d e)) (omega arith))
      | inr (otp, h) ↦ subst (AskedBalance e c d s) (sym h) (after_add d e otp c s)
    ]
    step_balance e c (answered d otp) s = elim (verify_otp-cases d otp s) [
      | inl (err, h) ↦
          subst (AnsweredBalance e c d otp s) (sym h)
            (rw (and_false (text_eq d e && text_eq otp c)) (omega arith))
      | inr (h, m) ↦ subst (AnsweredBalance e c d otp s) (sym h) (after_remove d e otp c s m)
    ]

    balance :
        (e c : Text) (rs : List Request) (s : k.State)
        → accepted_answers e c rs s ≤ made e c rs s + held e c s
    balance e c [] s = omega arith
    balance e c (r ∷ rs) s = omega (arith, step_balance e c r s, balance e c rs (step r s))

    -- Every code is used once: whatever requests for codes and answers come in whatever order, and
    -- whenever codes expire, an answer with a code is accepted for an email at most as often as that
    -- code was made for that email. The store of the codes makes no entry up and starts empty.
    pub accepted_answers-made :
        (e c : Text) (rs : List Request) → accepted_answers e c rs k.empty ≤ made e c rs k.empty
    accepted_answers-made e c rs =
        omega (arith, balance e c rs k.empty, ap (λ o. one_if (is_stored o c)) (f.get-empty e))
