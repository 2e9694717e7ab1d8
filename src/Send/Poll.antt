-- ===== src/Send/Poll.antt =====
-- internal/server/handlers/send/send_service.go, pollForObject.
use syftbox.Base.{
  ℕ, suc, zero, ◌+◌, ◌*◌, ◌≤◌, ◌<◌, ◌≡◌, ◌≢◌, refl, ap, ◌∙◌, Bool, true, false, Option, none, some,
  Text, ltb, arith, ◌⊎◌, inr,
}
use syftbox.Blob.{Backend}
use syftbox.Send.{
  Stored, missing, unreadable, object, SendError, get_msg, Course, poll_round, poll_for_object,
}

module _ (b : Backend) where
  ltb-true : (m n : ℕ) → m < n → ltb m n ≡ true
  ltb-true m n h = ground arith

  zero_plus : (i : ℕ) → 0 + i ≡ i
  zero_plus i = omega arith

  plus_zero : (n : ℕ) → n + 0 ≡ n
  plus_zero n = omega arith

  plus_suc : (n i : ℕ) → suc n + i ≡ n + suc i
  plus_suc n i = omega arith

  round_none :
      (r : Stored) (late done : Bool) (rest : Option (SendError ⊎ Text))
      → poll_round b r late done rest ≡ none
      → (late ≡ false) × (rest ≡ none)
  round_none (object body) late done rest h = cc (h)
  round_none (unreadable err) late done rest h = cc (h)
  round_none missing late done rest h = ground arith

  ends_from :
      (n i timeout step : ℕ) (path : Text) (w : Course b)
      → ((j : ℕ) → j * step ≤ w.since j)
      → timeout < (n + i) * step
      → poll_for_object b (suc n) i path timeout w ≢ none
  unfolding poll_for_object
  ends_from zero i timeout step path w clock past h =
      let (late, _) =
        round_none (get_msg b path (w.files i)) (ltb timeout (w.since i)) (w.is_done i) _ h in
      cc (
        late,
        ltb-true timeout (w.since i)
            (omega (arith, clock i, past, ap (λ (k : ℕ). k * step) (zero_plus i))),
      )
  ends_from (suc n) i timeout step path w clock past h =
      let (_, rest) =
        round_none (get_msg b path (w.files i)) (ltb timeout (w.since i)) (w.is_done i) _ h in
      ends_from n (suc i) timeout step path w clock
        (omega (arith, past, ap (λ (k : ℕ). k * step) (plus_suc n i))) rest

  -- The loop ends: if the clock gains at least `step` milliseconds in a round, and the timeout is
  -- over after `n` rounds of that length, then one round more than `n` is fuel enough, whatever
  -- happens to the files.
  pub poll_for_object-ends :
      (n timeout step : ℕ) (path : Text) (w : Course b)
      → ((j : ℕ) → j * step ≤ w.since j)
      → timeout < n * step
      → poll_for_object b (suc n) 0 path timeout w ≢ none
  poll_for_object-ends n timeout step path w clock past =
      ends_from n 0 timeout step path w clock
        (omega (arith, past, ap (λ (k : ℕ). k * step) (plus_zero n)))

  round_missing :
      (r : Stored) (late done : Bool) (rest : Option (SendError ⊎ Text))
      → r ≡ missing
      → late ≡ false
      → done ≡ false
      → poll_round b r late done rest ≡ rest
  round_missing r late done rest m l d = rw (m, l, d) refl

  suc_plus : (k m : ℕ) → suc k + m ≡ suc (k + m)
  suc_plus k m = omega arith

  finds_from :
      (k i more timeout : ℕ) (path body : Text) (w : Course b)
      → ((j : ℕ)
          → j < k
          → (get_msg b path (w.files (j + i)) ≡ missing)
            × (ltb timeout (w.since (j + i)) ≡ false)
            × (w.is_done (j + i) ≡ false))
      → get_msg b path (w.files (k + i)) ≡ object body
      → poll_for_object b (suc (k + more)) i path timeout w ≡ some (inr body)
  unfolding poll_for_object
  finds_from zero i more timeout path body w waits found = rw (rw (zero_plus i) at found) refl
  finds_from (suc k) i more timeout path body w waits found =
      let (m, l, d) = rw (zero_plus i) at (waits 0 (omega arith)) in
      round_missing (get_msg b path (w.files i)) (ltb timeout (w.since i)) (w.is_done i) _ m l d
      ∙ ap (λ (f : ℕ). poll_for_object b f (suc i) path timeout w) (suc_plus k more)
      ∙ finds_from k (suc i) more timeout path body w
          (λ j less. rw (plus_suc j i) at (waits (suc j) (omega (arith, less))))
          (rw (plus_suc k i) at found)

  -- The loop gives the object of the first round that finds it: if the `k` rounds before find
  -- nothing, and neither is the timeout over nor the context done in them, and the round `k` finds
  -- an object, then the loop answers that object, with any fuel of more than `k` rounds.
  pub poll_for_object-finds :
      (k more timeout : ℕ) (path body : Text) (w : Course b)
      → ((j : ℕ)
          → j < k
          → (get_msg b path (w.files j) ≡ missing)
            × (ltb timeout (w.since j) ≡ false)
            × (w.is_done j ≡ false))
      → get_msg b path (w.files k) ≡ object body
      → poll_for_object b (suc (k + more)) 0 path timeout w ≡ some (inr body)
  poll_for_object-finds k more timeout path body w waits found =
      finds_from k 0 more timeout path body w (λ j less. rw (← plus_zero j) at (waits j less))
        (rw (← plus_zero k) at found)
