-- ===== src/Recommender/Ranks/Descending.antt =====
-- The videos in the order in which `GetTopVideos` of
-- lab1/video_rec_service/server_lib/server_lib.go puts them.
use mathlib.Core.Logic.{∥∥₁_elim}
use mathlib.Core.List.{Perm, Permᴰ}
use native.Mathlib.Nat.{ℕ_set}
use cs.Base.{
  ℕ, zero, suc, ◌+◌, ◌≤◌, ◌≡◌, ◌≢◌, refl, ap₂, ◌∙◌, inl, inr, Bool, true, List, [], ◌∷◌, arith,
}
use cs.Base.Tests.{if◌then◌else◌, ltb, ◌==◌, ==_iff, Bool-cases, ltb→lt, ltb_false→le}
use cs.Base.Lists.{take}
use cs.Base.All.{All, All-of}
use cs.Videos.{VideoInfo}
use cs.Recommender.Sort.{neg, IsAscending, SortFunc}
use cs.Recommender.Ranks.{
  RankMap, get_video_ranks, get_video_ranks-at, by_rank, by_rank-neg, by_rank-IsStrictWeak,
}

-- No later element has a higher rank.
abbrev pub IsDescending : (ℕ → ℕ) → List ℕ → Type 0
IsDescending rank_of [] = Unit
IsDescending rank_of (x ∷ xs) = All (λ y. rank_of y ≤ rank_of x) xs × IsDescending rank_of xs

-- The first `limit` videos of an order, and all of them for the limit zero.
abbrev pub IsCutOff : ℕ → List ℕ → List ℕ → Type 0
IsCutOff zero order videos = videos ≡ order
IsCutOff (suc limit) order videos = videos ≡ take (suc limit) order

-- How many elements fail a test.
misses : (ℕ → Bool) → List ℕ → ℕ
misses f [] = 0
misses f (x ∷ xs) = (if f x then 0 else 1) + misses f xs

misses-Permᴰ : (f : ℕ → Bool) {xs ys : List ℕ} → Permᴰ xs ys → misses f xs ≡ misses f ys
unfolding misses
misses-Permᴰ f Permᴰ.nil = refl
misses-Permᴰ f (Permᴰ.cons e d) = ap₂ (λ a b. (if f a then 0 else 1) + b) e (misses-Permᴰ f d)
misses-Permᴰ f (Permᴰ.swap {a} {b} {a'} {b'} {l} e g) =
    exchange (if f a then 0 else 1) (if f b then 0 else 1) (misses f l)
    ∙ ap₂ (λ y z. (if f y then 0 else 1) + ((if f z then 0 else 1) + misses f l)) g e
  where
    exchange : (a b c : ℕ) → a + (b + c) ≡ b + (a + c)
    exchange a b c = omega arith
misses-Permᴰ f (Permᴰ.trans d d') = misses-Permᴰ f d ∙ misses-Permᴰ f d'

misses_none : (f : ℕ → Bool) (xs : List ℕ) → All (λ x. f x ≡ true) xs → misses f xs ≡ 0
unfolding misses
misses_none f [] h = refl
misses_none f (x ∷ xs) (h, hs) = rw h (omega (arith, misses_none f xs hs))

misses-All : (f : ℕ → Bool) (xs : List ℕ) → misses f xs ≡ 0 → All (λ x. f x ≡ true) xs
unfolding misses
misses-All f [] h = tt
misses-All f (x ∷ xs) h = elim (Bool-cases (f x)) [
  | inl t ↦
      let q : misses f (x ∷ xs) ≡ 0 + misses f xs = rw t refl in
      (t, misses-All f xs (omega (arith, q, h)))
  | inr e ↦ let q : misses f (x ∷ xs) ≡ 1 + misses f xs = rw e refl in absurd (omega (arith, q, h))
]

All-Perm :
    (f : ℕ → Bool) (xs ys : List ℕ)
    → Perm xs ys
    → All (λ x. f x ≡ true) ys
    → All (λ x. f x ≡ true) xs
All-Perm f xs ys p h =
    misses-All f xs (∥∥₁_elim p (ℕ_set _ _) (λ d. misses-Permᴰ f d) ∙ misses_none f ys h)

-- An order by a map of ranks is one by the ranks that the map agrees with.
IsAscending-IsDescending :
    (ranks : RankMap) (rank_of : ℕ → ℕ) (xs : List ℕ)
    → All (λ x. (ranks x == rank_of x) ≡ true) xs
    → IsAscending (by_rank ranks) xs
    → IsDescending rank_of xs
IsAscending-IsDescending ranks rank_of [] a h = tt
IsAscending-IsDescending ranks rank_of (x ∷ xs) (a, as') (h, hs) =
    (below xs as' h, IsAscending-IsDescending ranks rank_of xs as' hs)
  where
    at_most :
        (y : ℕ) → (ranks y == rank_of y) ≡ true → by_rank ranks y x ≢ neg → rank_of y ≤ rank_of x
    at_most y e n = elim (Bool-cases (ltb (ranks x) (ranks y))) [
      | inl k ↦ absurd (n ((by_rank-neg ranks y x).1 (ltb→lt _ _ k)))
      | inr k ↦ omega (
        arith,
        ltb_false→le _ _ k,
        (==_iff (ranks y) (rank_of y)).0 e,
        (==_iff (ranks x) (rank_of x)).0 a,
      )
    ]

    below :
        (ys : List ℕ)
        → All (λ y. (ranks y == rank_of y) ≡ true) ys
        → All (λ y. by_rank ranks y x ≢ neg) ys
        → All (λ y. rank_of y ≤ rank_of x) ys
    below [] e n = tt
    below (y ∷ ys) (e, es) (n, ns) = (at_most y e n, below ys es ns)

-- The videos that `slices.SortFunc` returns are in descending order of their ranks.
pub sort-IsDescending :
    (sort_func : SortFunc) (deref : ℕ → VideoInfo) (rank : List (ℕ × ℕ) → List (ℕ × ℕ) → ℕ)
    (coeffs : List (ℕ × ℕ)) (infos : List ℕ)
    → IsDescending
        (λ v. rank coeffs (deref v).video_coefficients)
        (sort_func.sort (by_rank (get_video_ranks deref rank coeffs infos)) infos)
sort-IsDescending sort_func deref rank coeffs infos =
    let ranks = get_video_ranks deref rank coeffs infos in
    let rank_of : ℕ → ℕ = λ v. rank coeffs (deref v).video_coefficients in
    let agree : ℕ → Bool = λ v. ranks v == rank_of v in
    IsAscending-IsDescending ranks rank_of (sort_func.sort (by_rank ranks) infos)
      (All-Perm agree (sort_func.sort (by_rank ranks) infos) infos
        (sort_func.sort-perm (by_rank ranks) infos (by_rank-IsStrictWeak ranks))
        (All-of (λ v. agree v ≡ true) infos
          (λ v m.
            (==_iff (ranks v) (rank_of v)).1 (get_video_ranks-at deref rank coeffs infos v m))))
      (sort_func.sort-IsAscending (by_rank ranks) infos (by_rank-IsStrictWeak ranks))
