-- ===== src/Recommender/Batches.antt =====
-- The two loops of `GetTopVideos` in lab1/video_rec_service/server_lib/server_lib.go that query a
-- service batch by batch. The fuel bounds the rounds; `Rounds` shows how much is enough.
pub mod Chunks
pub mod Rounds
use cs.Base.{ℕ, zero, suc, ◌+◌, ◌-◌, Bool, true, false, not, List, [], ◌∷◌, ◌++◌}
use cs.Base.Tests.{if◌then◌else◌, ltb, ◌==◌}
use cs.Base.Lists.{length, take, drop}
use cs.Grpc.{Result, ok, err, Status, Message}
use cs.Users.{UserInfo}
use cs.Recommender.Monad.{Exit, done, failed, panicked, unfinished, M, ◌>>=◌, pure, fail}
use cs.Recommender.State.{
  Backend, Server, State, Options, add64, count_video_error, wrap, with_retry, query_users,
}

-- `videosToRank = append(videosToRank, userInfo.GetLikedVideos()...)` for each user.
unfoldable pub append_liked : List UserInfo → List ℕ → List ℕ
append_liked [] videos_to_rank = videos_to_rank
append_liked (user_info ∷ infos) videos_to_rank =
    append_liked infos (videos_to_rank ++ user_info.liked_videos)

-- `ids[i:end]`, with `end` cut off at the length.
unfoldable pub batch : ℕ → List ℕ → ℕ → List ℕ
batch size ids i =
    let end = if ltb (length ids) (i + size) then length ids else i + size in
    take (end - i) (drop i ids)

-- The cached videos, or the error if there are none.
unfoldable pub use_cache : {W : Type 0} → Status → List ℕ → State W → Exit (List ℕ × Bool) × State W
use_cache e [] st = (failed (wrap Message.no_cached_videos e), st)
use_cache e (v ∷ top_videos) st = (done (v ∷ top_videos, true), st)

-- After the second query failed and was counted: the error, if the fallback is disabled, or the cache.
unfoldable pub fall_back : {W : Type 0} → Bool → Status → State W → Exit (List ℕ × Bool) × State W
fall_back true e st = (failed (wrap Message.video_query e), st)
fall_back false e st = use_cache e st.server.top_videos (record st {
  server = record st.server { stale_responses = add64 st.server.stale_responses 1 };
})

unfoldable pub fallback : {W : Type 0} → Status → State W → Exit (List ℕ × Bool) × State W
fallback e st =
    fall_back st.server.options.disable_fallback e
      (record st { server = count_video_error st.server })

module _ (b : Backend) where
  open b use {World, get_user, get_video}

  -- The query for the users of one batch: it is retried whatever the options say.
  unfoldable pub user_batch : ℕ → ℕ → List ℕ → M (State World) (List UserInfo)
  user_batch client user_id ids =
      query_users true (get_user client ids) (Message.subscribed_query user_id)

  -- The loop over the users that the target is subscribed to.
  unfoldable pub user_loop : ℕ → ℕ → ℕ → ℕ → List ℕ → ℕ → List ℕ → M (State World) (List ℕ)
  user_loop zero size client user_id ids i videos_to_rank st = (unfinished, st)
  user_loop (suc fuel) size client user_id ids i videos_to_rank st = elim (ltb i (length ids)) [
    | false ↦ pure videos_to_rank st
    | true ↦
        (user_batch client user_id (batch size ids i) >>= λ infos.
        user_loop fuel size client user_id ids (i + size) (append_liked infos videos_to_rank))
          st
  ]

  -- One batch of videos: its records, or the failure of both attempts.
  unfoldable pub video_batch : ℕ → List ℕ → State World → Result (List ℕ) × State World
  video_batch client ids st =
      let (r, w') =
        with_retry (not st.server.options.disable_retry) (get_video client ids) st.world in
      (r, record st { world = w' })

  -- A round goes on with the fetched records, or ends in the fallback.
  unfoldable pub next_or_fallback :
      (List ℕ → M (State World) (List ℕ × Bool))
      → Result (List ℕ) × State World
      → Exit (List ℕ × Bool) × State World
  next_or_fallback k (ok infos, st) = k infos st
  next_or_fallback k (err e, st) = fallback e st

  -- The loop over the videos to rank: the pointers fetched, and whether they are stale.
  unfoldable pub video_loop : ℕ → ℕ → ℕ → List ℕ → ℕ → List ℕ → M (State World) (List ℕ × Bool)
  video_loop zero size client ids i video_infos st = (unfinished, st)
  video_loop (suc fuel) size client ids i video_infos st = elim (ltb i (length ids)) [
    | false ↦ pure (video_infos, false) st
    | true ↦
        next_or_fallback
          (λ infos. video_loop fuel size client ids (i + size) (video_infos ++ infos))
          (video_batch client (batch size ids i) st)
  ]
