-- ===== src/Recommender/Batches/Rounds.antt =====
-- The batch loops of `GetTopVideos` send the pieces of their list in order, one query for each.
use cs.Base.{
  ℕ, zero, suc, ◌+◌, ◌-◌, ◌<◌, ◌≡◌, refl, sym, ap, ◌∙◌, inl, inr, Bool, false, List, [], ◌∷◌, ◌++◌,
  arith,
}
use cs.Base.Tests.{ltb, Bool-cases, ltb→lt, ltb_false→le}
use cs.Base.Lists.{length, take, drop, length-drop, take_all}
use cs.Grpc.{Result, ok, err}
use cs.Recommender.Monad.{M, ◌>>=◌, pure, then_do-ext}
use cs.Recommender.State.{Backend, State}
use cs.Recommender.Batches.{
  append_liked, batch, user_batch, user_loop, video_batch, video_loop, next_or_fallback,
}
use cs.Recommender.Batches.Chunks.{chunks, drop-add, drop_past, chunks_of_pos, chunks_of_nil}

-- The slice that a round takes is a piece of the list.
pub batch-eq :
    (size : ℕ) (ids : List ℕ) (i : ℕ) → i < length ids → batch size ids i ≡ take size (drop i ids)
unfolding batch
batch-eq size ids i h = elim (Bool-cases (ltb (length ids) (i + size))) [
  | inl e ↦ rw e (
      take_all (length ids - i) (drop i ids) (omega (arith, length-drop i ids))
      ∙ sym (take_all size (drop i ids) (omega (arith, length-drop i ids, ltb→lt _ _ e))))
  | inr e ↦ rw e (ap (λ k. take k (drop i ids)) (omega arith))
]

module _ (b : Backend) where
  open b use {World}

  -- One query after another, for given pieces.
  unfoldable pub each_users : ℕ → ℕ → List (List ℕ) → List ℕ → M (State World) (List ℕ)
  each_users client user_id [] videos_to_rank st = pure videos_to_rank st
  each_users client user_id (c ∷ cs) videos_to_rank st =
      (user_batch b client user_id c >>= λ infos.
      each_users client user_id cs (append_liked infos videos_to_rank))
        st

  unfoldable pub each_videos : ℕ → List (List ℕ) → List ℕ → M (State World) (List ℕ × Bool)
  each_videos client [] video_infos st = pure (video_infos, false) st
  each_videos client (c ∷ cs) video_infos st =
      next_or_fallback b (λ infos. each_videos client cs (video_infos ++ infos))
        (video_batch b client c st)

  -- The loop over the users is one query for each piece, if a batch has room for an id and the fuel is
  -- above the length.
  pub user_loop-each :
      (fuel size client user_id : ℕ) (ids : List ℕ) (i : ℕ) (acc : List ℕ) (st : State World)
      → 0 < size
      → length ids - i < fuel
      → user_loop b fuel size client user_id ids i acc st
        ≡ each_users client user_id (chunks fuel size (drop i ids)) acc st
  unfolding user_loop each_users
  user_loop-each zero size client user_id ids i acc st p h = absurd (omega arith)
  user_loop-each (suc fuel) size client user_id ids i acc st p h =
      elim (Bool-cases (ltb i (length ids))) [
        | inl e ↦
            rw (e, user_loop)
              (rw
                (
                  batch-eq size ids i (ltb→lt _ _ e),
                  chunks_of_pos fuel size (drop i ids)
                      (omega (arith, length-drop i ids, ltb→lt _ _ e)),
                )
                (then_do-ext _ _ (user_batch b client user_id (take size (drop i ids)) st)
                  (λ infos t.
                    user_loop-each fuel size client user_id ids (i + size) (append_liked infos acc)
                      t p (omega (arith, ltb→lt _ _ e))
                    ∙ ap
                        (λ z.
                          each_users client user_id (chunks fuel size z) (append_liked infos acc) t)
                        (sym (drop-add i size ids)))))
        | inr e ↦
            rw (e, user_loop)
              (rw
                (chunks_of_nil (suc fuel) size (drop i ids) (drop_past i ids (ltb_false→le _ _ e))))
      ]

  next-ext :
      (k k' : List ℕ → M (State World) (List ℕ × Bool)) (r : Result (List ℕ) × State World)
      → ((infos : List ℕ) (t : State World) → k infos t ≡ k' infos t)
      → next_or_fallback b k r ≡ next_or_fallback b k' r
  unfolding next_or_fallback
  next-ext k k' (ok infos, t) h = h infos t
  next-ext k k' (err e, t) h = refl

  -- The same for the loop over the videos.
  pub video_loop-each :
      (fuel size client : ℕ) (ids : List ℕ) (i : ℕ) (acc : List ℕ) (st : State World)
      → 0 < size
      → length ids - i < fuel
      → video_loop b fuel size client ids i acc st
        ≡ each_videos client (chunks fuel size (drop i ids)) acc st
  unfolding video_loop each_videos
  video_loop-each zero size client ids i acc st p h = absurd (omega arith)
  video_loop-each (suc fuel) size client ids i acc st p h = elim (Bool-cases (ltb i (length ids))) [
    | inl e ↦
        rw (e, video_loop)
          (rw
            (
              batch-eq size ids i (ltb→lt _ _ e),
              chunks_of_pos fuel size (drop i ids) (omega (arith, length-drop i ids, ltb→lt _ _ e)),
            )
            (next-ext _ _ (video_batch b client (take size (drop i ids)) st) (λ infos t.
              video_loop-each fuel size client ids (i + size) (acc ++ infos) t p
                (omega (arith, ltb→lt _ _ e))
              ∙ ap (λ z. each_videos client (chunks fuel size z) (acc ++ infos) t)
                  (sym (drop-add i size ids)))))
    | inr e ↦
        rw (e, video_loop)
          (rw (chunks_of_nil (suc fuel) size (drop i ids) (drop_past i ids (ltb_false→le _ _ e))))
  ]
