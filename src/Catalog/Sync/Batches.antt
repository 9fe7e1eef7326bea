-- ===== src/Catalog/Sync/Batches.antt =====
-- The slices of `inBatches`.
use xtable_go.Prelude.{
  ℕ, zero, suc, ◌≤◌, ◌<◌, List, [], ◌∷◌, ◌++◌, ◌≡◌, refl, ap, ◌∙◌, arith, length, take, drop,
  flatten, All, take-append-drop, length-take-le, length-drop-le,
}
use xtable_go.Catalog.Sync.{batches}

module _ {ℓ} {A : Type ℓ} where
  length-drop-lt :
      (size : ℕ) (x : A) (xs : List A) → 0 < size → length (drop size (x ∷ xs)) ≤ length xs
  length-drop-lt (suc n) x xs h = length-drop-le n xs
  length-drop-lt zero x xs h = elim h [ ]

  -- Nothing is left out and nothing sent twice: the slices make up the list, in order.
  pub flatten-batches :
      (fuel size : ℕ) (l : List A) → length l ≤ fuel → 0 < size → flatten (batches fuel size l) ≡ l
  unfolding batches
  flatten-batches zero size [] h p = refl
  flatten-batches zero size (x ∷ xs) h p = absurd (omega arith)
  flatten-batches (suc fuel) size [] h p = refl
  flatten-batches (suc fuel) size (x ∷ xs) h p =
      ap (◌++◌ (take size (x ∷ xs)))
        (flatten-batches fuel size (drop size (x ∷ xs)) (omega (arith, length-drop-lt size x xs)) p)
      ∙ take-append-drop size (x ∷ xs)

  -- No slice is empty, and none is longer than the batch size.
  pub batches_bounds :
      (fuel size : ℕ) (l : List A)
      → 0 < size
      → All (λ batch. (0 < length batch) × (length batch ≤ size)) (batches fuel size l)
  unfolding batches
  batches_bounds zero size l p = tt
  batches_bounds (suc fuel) size [] p = tt
  batches_bounds (suc fuel) (suc n) (x ∷ xs) p =
      ((omega arith, omega (arith, length-take-le n xs)), batches_bounds fuel (suc n) (drop n xs) p)
  batches_bounds (suc fuel) zero (x ∷ xs) p = elim p [ ]
