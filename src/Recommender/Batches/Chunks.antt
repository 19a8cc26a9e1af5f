-- ===== src/Recommender/Batches/Chunks.antt =====
-- A list cut into batches: the description that the batch loops are held against.
use cs.Base.{
  ℕ, zero, suc, ◌+◌, ◌≤◌, ◌<◌, ◌≡◌, refl, sym, ap, ◌∙◌, inl, inr, List, [], ◌∷◌, ◌++◌, arith,
}
use cs.Base.Lists.{length, take, drop, length-take, length-drop, take-append-drop}
use cs.Base.All.{All, In, IsDistinct}

-- Pieces of `size` elements, and a last one of what is left; at most `fuel` of them.
unfoldable pub chunks : {A : Type 0} → ℕ → ℕ → List A → List (List A)
chunks zero size xs = []
chunks (suc fuel) size [] = []
chunks (suc fuel) size (x ∷ xs) = take size (x ∷ xs) ∷ chunks fuel size (drop size (x ∷ xs))

unfoldable pub flatten : {A : Type 0} → List (List A) → List A
flatten [] = []
flatten (x ∷ xs) = x ++ flatten xs

module _ {A : Type 0} where
  -- The pieces make up the list, if there is fuel for its length.
  pub flatten-chunks :
      (fuel size : ℕ) (xs : List A)
      → 0 < size
      → length xs ≤ fuel
      → flatten (chunks fuel size xs) ≡ xs
  unfolding flatten chunks
  flatten-chunks zero size [] p h = refl
  flatten-chunks zero size (x ∷ xs) p h = absurd (omega arith)
  flatten-chunks (suc fuel) size [] p h = refl
  flatten-chunks (suc fuel) size (x ∷ xs) p h =
      ap (◌++◌ (take size (x ∷ xs)))
        (flatten-chunks fuel size (drop size (x ∷ xs)) p (omega (arith, length-drop size (x ∷ xs))))
      ∙ take-append-drop size (x ∷ xs)

  -- No piece is empty, and none is longer than `size`.
  pub chunks-sizes :
      (fuel size : ℕ) (xs : List A)
      → 0 < size
      → All (λ c. (0 < length c) × (length c ≤ size)) (chunks fuel size xs)
  unfolding chunks
  chunks-sizes zero size xs p = tt
  chunks-sizes (suc fuel) size [] p = tt
  chunks-sizes (suc fuel) size (x ∷ xs) p =
      (omega (arith, length-take size (x ∷ xs)), chunks-sizes fuel size (drop size (x ∷ xs)) p)

  In-drop : (a : A) (n : ℕ) (xs : List A) → In a (drop n xs) → In a xs
  In-drop a zero xs h = h
  In-drop a (suc n) [] h = h
  In-drop a (suc n) (x ∷ xs) h = inr (In-drop a n xs h)

  In-take : (a : A) (n : ℕ) (xs : List A) → In a (take n xs) → In a xs
  In-take a zero xs h = absurd h
  In-take a (suc n) [] h = h
  In-take a (suc n) (x ∷ xs) (inl e) = inl e
  In-take a (suc n) (x ∷ xs) (inr h) = inr (In-take a n xs h)

  IsDistinct-drop : (n : ℕ) (xs : List A) → IsDistinct xs → IsDistinct (drop n xs)
  IsDistinct-drop zero xs d = d
  IsDistinct-drop (suc n) [] d = d
  IsDistinct-drop (suc n) (x ∷ xs) d = IsDistinct-drop n xs d.1

  IsDistinct-take : (n : ℕ) (xs : List A) → IsDistinct xs → IsDistinct (take n xs)
  IsDistinct-take zero xs d = tt
  IsDistinct-take (suc n) [] d = d
  IsDistinct-take (suc n) (x ∷ xs) d = (λ h. d.0 (In-take x n xs h), IsDistinct-take n xs d.1)

  -- The pieces of a list without repetition have none.
  pub chunks-IsDistinct :
      (fuel size : ℕ) (xs : List A) → IsDistinct xs → All IsDistinct (chunks fuel size xs)
  unfolding chunks
  chunks-IsDistinct zero size xs d = tt
  chunks-IsDistinct (suc fuel) size [] d = tt
  chunks-IsDistinct (suc fuel) size (x ∷ xs) d = (
    IsDistinct-take size (x ∷ xs) d,
    chunks-IsDistinct fuel size (drop size (x ∷ xs)) (IsDistinct-drop size (x ∷ xs) d),
  )

  drop-nil : (n : ℕ) → drop {A = A} n [] ≡ []
  drop-nil zero = refl
  drop-nil (suc n) = refl

  -- The end of a list from an index on, and what is left after one piece.
  pub drop-add : (i n : ℕ) (xs : List A) → drop n (drop i xs) ≡ drop (i + n) xs
  drop-add zero n xs = ap (λ k. drop k xs) (omega arith)
  drop-add (suc i) n [] = drop-nil n ∙ sym (drop-nil (suc i + n))
  drop-add (suc i) n (x ∷ xs) =
      drop-add i n xs
      ∙ ap (λ k. drop k (x ∷ xs)) (let e : suc (i + n) ≡ suc i + n = omega arith in e)

  pub drop_past : (i : ℕ) (xs : List A) → length xs ≤ i → drop i xs ≡ []
  drop_past zero [] h = refl
  drop_past zero (x ∷ xs) h = absurd (omega arith)
  drop_past (suc i) [] h = refl
  drop_past (suc i) (x ∷ xs) h = drop_past i xs (omega arith)

  -- `chunks` matches on the list, the loops test an index.
  pub chunks_of_pos :
      (fuel size : ℕ) (xs : List A)
      → 0 < length xs
      → chunks (suc fuel) size xs ≡ take size xs ∷ chunks fuel size (drop size xs)
  unfolding chunks
  chunks_of_pos fuel size [] h = absurd (omega arith)
  chunks_of_pos fuel size (x ∷ xs) h = refl

  pub chunks_of_nil : (fuel size : ℕ) (xs : List A) → xs ≡ [] → chunks fuel size xs ≡ []
  unfolding chunks
  chunks_of_nil zero size xs h = refl
  chunks_of_nil (suc fuel) size [] h = refl
  chunks_of_nil (suc fuel) size (x ∷ xs) h = cc
