-- ===== src/Recommender/Sort.antt =====
-- `slices.SortFunc` of Go's standard library, by its documentation: for a comparison that is a strict
-- weak order the result is the same elements, ascending. It need not be stable.
use mathlib.Core.List.{Perm}
use cs.Base.{ℕ, ◌≡◌, ◌≢◌, List, [], ◌∷◌}
use cs.Base.All.{All}

-- The sign of a comparison's result.
pub data Sign : Type 0 where
  neg null posi : Sign

-- `cmp a b` negative is an order, and being incomparable an equivalence, with zero as the result; the
-- result is positive where the arguments in the other order give a negative one.
pub record IsStrictWeak {A : Type 0} (cmp : A → A → Sign) : Type 0 where
  pub irreflexive : (a : A) → cmp a a ≢ neg
  pub asymmetric : (a b : A) → cmp a b ≡ neg → cmp b a ≢ neg
  pub transitive : (a b c : A) → cmp a b ≡ neg → cmp b c ≡ neg → cmp a c ≡ neg
  pub incomparable : (a b : A) → cmp a b ≢ neg → cmp b a ≢ neg → cmp a b ≡ null
  pub positive : (a b : A) → cmp b a ≡ neg → cmp a b ≡ posi
  pub cotransitive : (a b c : A) → cmp a b ≢ neg → cmp b c ≢ neg → cmp a c ≢ neg

-- No element is less than one before it.
abbrev pub IsAscending : {A : Type 0} → (A → A → Sign) → List A → Type 0
IsAscending cmp [] = Unit
IsAscending cmp (x ∷ xs) = All (λ y. cmp y x ≢ neg) xs × IsAscending cmp xs

-- Pointers are numbers.
pub record SortFunc : Type 0 where
  pub sort : (ℕ → ℕ → Sign) → List ℕ → List ℕ
  pub sort-perm : (cmp : ℕ → ℕ → Sign) (xs : List ℕ) → IsStrictWeak cmp → Perm (sort cmp xs) xs
  pub sort-IsAscending :
      (cmp : ℕ → ℕ → Sign) (xs : List ℕ) → IsStrictWeak cmp → IsAscending cmp (sort cmp xs)
