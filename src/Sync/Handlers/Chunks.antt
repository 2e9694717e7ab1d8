-- ===== src/Sync/Handlers/Chunks.antt =====
-- internal/client/sync/sync_engine_delete.go, chunkBatchSlice: the chunks of a batch.
use syftbox.Base.{ℕ, ◌≤◌, suc, zero, ◌≡◌, refl, ap, ◌∙◌, List, [], ◌∷◌, ◌++◌, length, All, arith}
use syftbox.Sync.Handlers.{take_first, drop_first, chunks, chunk_batch_slice}

module _ {ℓ} {A : Type ℓ} where
  abbrev pub concat : List (List A) → List A
  concat [] = []
  concat (c ∷ cs) = c ++ concat cs

  take_first-drop_first : (n : ℕ) (xs : List A) → take_first n xs ++ drop_first n xs ≡ xs
  unfolding take_first drop_first
  take_first-drop_first zero xs = refl
  take_first-drop_first (suc n) [] = refl
  take_first-drop_first (suc n) (x ∷ xs) = ap (λ ys. x ∷ ys) (take_first-drop_first n xs)

  length-take_first : (n : ℕ) (xs : List A) → length (take_first n xs) ≤ n
  unfolding take_first
  length-take_first zero xs = omega arith
  length-take_first (suc n) [] = omega arith
  length-take_first (suc n) (x ∷ xs) = omega (arith, length-take_first n xs)

  length-drop_first : (n : ℕ) (xs : List A) → length (drop_first n xs) ≤ length xs
  unfolding drop_first
  length-drop_first zero xs = omega arith
  length-drop_first (suc n) [] = omega arith
  length-drop_first (suc n) (x ∷ xs) = omega (arith, length-drop_first n xs)

  -- A chunk of a batch of `size`.
  abbrev pub Fits : ℕ → List A → Type 0
  Fits size c = (1 ≤ length c) × (length c ≤ size)

  chunks_lem :
      (fuel n : ℕ) (xs : List A)
      → length xs ≤ fuel
      → (concat (chunks fuel (suc n) xs) ≡ xs) × All (Fits (suc n)) (chunks fuel (suc n) xs)
  unfolding chunks take_first drop_first
  chunks_lem fuel n [] h = (refl, tt)
  chunks_lem zero n (x ∷ xs) h = absurd (omega arith)
  chunks_lem (suc fuel) n (x ∷ xs) h =
      let rest = chunks_lem fuel n (drop_first n xs) (omega (arith, length-drop_first n xs)) in
      (
        ap (λ ys. x ∷ (take_first n xs ++ ys)) rest.0
            ∙ ap (λ ys. x ∷ ys) (take_first-drop_first n xs),
        ((omega arith, omega (arith, length-take_first n xs)), rest.1),
      )

  -- For a size that is not 0 the chunks are the batch in its order, and each has at least one
  -- element and at most `size`.
  pub chunk_batch_slice_lem :
      (xs : List A) (size : ℕ)
      → 1 ≤ size
      → (concat (chunk_batch_slice xs size) ≡ xs) × All (Fits size) (chunk_batch_slice xs size)
  unfolding chunk_batch_slice
  chunk_batch_slice_lem xs (suc n) h = chunks_lem (length xs) n xs (omega arith)
  chunk_batch_slice_lem xs zero h = absurd (omega arith)
