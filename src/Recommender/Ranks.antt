-- ===== src/Recommender/Ranks.antt =====
-- The ranks of the fetched videos, and their order: `getVideoRanks` and the comparison of
-- `GetTopVideos` in lab1/video_rec_service/server_lib/server_lib.go.
pub mod Descending
use cs.Base.{ℕ, ◌≤◌, ◌<◌, ◌≡◌, ◌≢◌, ◌↔◌, ◌⊎◌, inl, inr, sym, ◌∙◌, List, [], ◌∷◌, arith}
use cs.Base.Tests.{if◌then◌else◌, ltb, ◌==◌, Bool-cases, ==_iff, ltb→lt, ltb_false→le}
use cs.Base.All.{In}
use cs.Videos.{VideoInfo}
use cs.Recommender.Sort.{Sign, neg, null, posi, IsStrictWeak}

-- `map[*vpb.VideoInfo]uint64`; a missing key reads as zero.
abbrev pub RankMap : Type 0
RankMap = ℕ → ℕ

module _ (deref : ℕ → VideoInfo) (rank : List (ℕ × ℕ) → List (ℕ × ℕ) → ℕ)
    (coeffs : List (ℕ × ℕ)) where
  -- The loop of `getVideoRanks` from a map.
  pub rank_loop : List ℕ → RankMap → RankMap
  rank_loop [] ranks = ranks
  rank_loop (video ∷ videos) ranks =
      rank_loop videos
        (λ v. if video == v then rank coeffs (deref video).video_coefficients else ranks v)

  pub get_video_ranks : List ℕ → RankMap
  unfolding rank_loop
  get_video_ranks videos = rank_loop videos (λ v. 0)

  rank_loop-at :
      (videos : List ℕ) (ranks : RankMap) (v : ℕ)
      → In v videos ⊎ (ranks v ≡ rank coeffs (deref v).video_coefficients)
      → rank_loop videos ranks v ≡ rank coeffs (deref v).video_coefficients
  unfolding rank_loop
  rank_loop-at [] ranks v (inl f) = absurd f
  rank_loop-at [] ranks v (inr e) = e
  rank_loop-at (video ∷ videos) ranks v h =
      rank_loop-at videos _ v (elim (Bool-cases (video == v)) [
        | inl e ↦ inr (rw e (rw ((==_iff video v).0 e)))
        | inr e ↦ elim h [
          | inl m ↦ elim m [ inl p ↦ cc (sym ((==_iff video v).1 (sym p)) ∙ e) | inr m' ↦ inl m' ]
          | inr q ↦ inr (rw e q)
        ]
      ])

  -- Every video of the list is mapped to its rank.
  pub get_video_ranks-at :
      (videos : List ℕ) (v : ℕ)
      → In v videos
      → get_video_ranks videos v ≡ rank coeffs (deref v).video_coefficients
  unfolding get_video_ranks
  get_video_ranks-at videos v m = rank_loop-at videos (λ v. 0) v (inl m)

-- The comparison that `GetTopVideos` sorts by: the higher rank first.
pub by_rank : RankMap → ℕ → ℕ → Sign
by_rank ranks a b =
    if ltb (ranks b) (ranks a) then neg else (if ranks a == ranks b then null else posi)

pub by_rank-neg :
    (ranks : RankMap) (a b : ℕ)
    → (by_rank ranks a b ≡ neg → ranks b < ranks a) × (ranks b < ranks a → by_rank ranks a b ≡ neg)
unfolding by_rank
by_rank-neg ranks a b = (λ e. ground arith, λ e. ground arith)

-- What `SortFunc` asks of it.
by_rank-null : (ranks : RankMap) (a b : ℕ) → ranks a ≡ ranks b → by_rank ranks a b ≡ null
unfolding by_rank
by_rank-null ranks a b e = ground arith

by_rank-posi : (ranks : RankMap) (a b : ℕ) → ranks a < ranks b → by_rank ranks a b ≡ posi
unfolding by_rank
by_rank-posi ranks a b e = ground arith

pub by_rank-IsStrictWeak : (ranks : RankMap) → IsStrictWeak (by_rank ranks)
by_rank-IsStrictWeak ranks = record {
  irreflexive = λ a e. absurd (omega (arith, (by_rank-neg ranks a a).0 e));
  asymmetric =
      λ a b e f. absurd (omega (arith, (by_rank-neg ranks a b).0 e, (by_rank-neg ranks b a).0 f));
  transitive = λ a b c e f.
      (by_rank-neg ranks a c).1
        (omega (arith, (by_rank-neg ranks a b).0 e, (by_rank-neg ranks b c).0 f));
  incomparable = λ a b e f. by_rank-null ranks a b (equal a b e f);
  positive = λ a b e. by_rank-posi ranks a b ((by_rank-neg ranks b a).0 e);
  cotransitive = λ a b c e f g. not_both a b c ((by_rank-neg ranks a c).0 g) e f;
}
  where
    at_most : (a b : ℕ) → by_rank ranks a b ≢ neg → ranks a ≤ ranks b
    at_most a b e = elim (Bool-cases (ltb (ranks b) (ranks a))) [
      | inl k ↦ absurd (e ((by_rank-neg ranks a b).1 (ltb→lt _ _ k)))
      | inr k ↦ ltb_false→le _ _ k
    ]

    equal : (a b : ℕ) → by_rank ranks a b ≢ neg → by_rank ranks b a ≢ neg → ranks a ≡ ranks b
    equal a b e f = omega (arith, at_most a b e, at_most b a f)

    not_both :
        (a b c : ℕ) → ranks c < ranks a → by_rank ranks a b ≢ neg → by_rank ranks b c ≢ neg → ⊥
    not_both a b c h e f = elim (Bool-cases (ltb (ranks b) (ranks a))) [
      | inl k ↦ e ((by_rank-neg ranks a b).1 (ltb→lt _ _ k))
      | inr k ↦ f ((by_rank-neg ranks b c).1 (omega (arith, ltb_false→le _ _ k)))
    ]

-- The comparison is what `SortFunc` asks for: a strict weak order, zero exactly on videos that it does not order and
-- positive where the other order of the arguments is negative; and it is negative exactly if the first video has the
-- higher rank.
pub by_rank_lem :
    (ranks : RankMap)
    → IsStrictWeak (by_rank ranks) × ((a b : ℕ) → (by_rank ranks a b ≡ neg) ↔ (ranks b < ranks a))
by_rank_lem ranks = (by_rank-IsStrictWeak ranks, λ a b. by_rank-neg ranks a b)
