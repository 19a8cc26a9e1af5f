-- ===== src/Recommender/Tests/Insertion.antt =====
-- Insertion sort, as a function that keeps what `slices.SortFunc` promises.
use mathlib.Core.List.{Perm}
use mathlib.Core.List.Perm
use cs.Base.{ℕ, ◌≡◌, refl, ◌≢◌, List, [], ◌∷◌}
use cs.Base.All.{All}
use cs.Recommender.Sort.{Sign, neg, null, posi, IsStrictWeak, IsAscending, SortFunc}

-- `x` before `y`, unless `y` is less.
unfoldable pub put_at : Sign → ℕ → ℕ → List ℕ → List ℕ → List ℕ
put_at neg x y ys inserted = y ∷ inserted
put_at null x y ys inserted = x ∷ y ∷ ys
put_at posi x y ys inserted = x ∷ y ∷ ys

unfoldable pub insert : (ℕ → ℕ → Sign) → ℕ → List ℕ → List ℕ
unfolding put_at
insert cmp x [] = x ∷ []
insert cmp x (y ∷ ys) = put_at (cmp y x) x y ys (insert cmp x ys)

unfoldable pub sort : (ℕ → ℕ → Sign) → List ℕ → List ℕ
unfolding insert
sort cmp [] = []
sort cmp (x ∷ xs) = insert cmp x (sort cmp xs)

put_at-perm :
    (s : Sign) (x y : ℕ) (ys inserted : List ℕ)
    → Perm inserted (x ∷ ys)
    → Perm (put_at s x y ys inserted) (x ∷ y ∷ ys)
unfolding put_at
put_at-perm neg x y ys inserted p = Perm.trans (Perm.cons y p) (Perm.swap x y ys)
put_at-perm null x y ys inserted p = Perm.refl (x ∷ y ∷ ys)
put_at-perm posi x y ys inserted p = Perm.refl (x ∷ y ∷ ys)

put_at-All :
    (P : ℕ → Type 0) (s : Sign) (x y : ℕ) (ys inserted : List ℕ)
    → P x
    → All P (y ∷ ys)
    → All P inserted
    → All P (put_at s x y ys inserted)
unfolding put_at
put_at-All P neg x y ys inserted p h i = (h.0, i)
put_at-All P null x y ys inserted p h i = (p, h)
put_at-All P posi x y ys inserted p h i = (p, h)

module _ (cmp : ℕ → ℕ → Sign) where
  insert-perm : (x : ℕ) (ys : List ℕ) → Perm (insert cmp x ys) (x ∷ ys)
  unfolding insert
  insert-perm x [] = Perm.refl (x ∷ [])
  insert-perm x (y ∷ ys) = put_at-perm (cmp y x) x y ys (insert cmp x ys) (insert-perm x ys)

  pub sort-perm : (xs : List ℕ) → Perm (sort cmp xs) xs
  unfolding sort
  sort-perm [] = Perm.refl []
  sort-perm (x ∷ xs) = Perm.trans (insert-perm x (sort cmp xs)) (Perm.cons x (sort-perm xs))

  insert-All : (P : ℕ → Type 0) (x : ℕ) (ys : List ℕ) → P x → All P ys → All P (insert cmp x ys)
  unfolding insert
  insert-All P x [] p h = (p, tt)
  insert-All P x (y ∷ ys) p h =
      put_at-All P (cmp y x) x y ys (insert cmp x ys) p h (insert-All P x ys p h.1)

  module _ (w : IsStrictWeak cmp) where
    All-above :
        (x y : ℕ) (ys : List ℕ)
        → cmp y x ≢ neg
        → All (λ z. cmp z y ≢ neg) ys
        → All (λ z. cmp z x ≢ neg) ys
    All-above x y [] n h = tt
    All-above x y (z ∷ ys) n h = (w.cotransitive z y x h.0 n, All-above x y ys n h.1)

    put_at-IsAscending :
        (s : Sign) (x y : ℕ) (ys inserted : List ℕ)
        → cmp y x ≡ s
        → IsAscending cmp (y ∷ ys)
        → (cmp y x ≡ neg → All (λ z. cmp z y ≢ neg) inserted)
        → IsAscending cmp inserted
        → IsAscending cmp (put_at s x y ys inserted)
    unfolding put_at
    put_at-IsAscending neg x y ys inserted e a h i = (h e, i)
    put_at-IsAscending null x y ys inserted e a h i =
        let n : cmp y x ≢ neg = λ f. cc in ((n, All-above x y ys n a.0), a)
    put_at-IsAscending posi x y ys inserted e a h i =
        let n : cmp y x ≢ neg = λ f. cc in ((n, All-above x y ys n a.0), a)

    insert-IsAscending :
        (x : ℕ) (ys : List ℕ) → IsAscending cmp ys → IsAscending cmp (insert cmp x ys)
    unfolding insert
    insert-IsAscending x [] a = (tt, tt)
    insert-IsAscending x (y ∷ ys) a =
        put_at-IsAscending (cmp y x) x y ys (insert cmp x ys) refl a
          (λ e. insert-All (λ z. cmp z y ≢ neg) x ys (w.asymmetric y x e) a.0)
          (insert-IsAscending x ys a.1)

    pub sort-IsAscending : (xs : List ℕ) → IsAscending cmp (sort cmp xs)
    unfolding sort
    sort-IsAscending [] = tt
    sort-IsAscending (x ∷ xs) = insert-IsAscending x (sort cmp xs) (sort-IsAscending xs)

abbrev pub insertion_sort : SortFunc
insertion_sort = record {
  sort = sort;
  sort-perm = λ cmp xs w. sort-perm cmp xs;
  sort-IsAscending = λ cmp xs w. sort-IsAscending cmp w xs;
}
