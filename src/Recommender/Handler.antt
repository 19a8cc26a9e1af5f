-- ===== src/Recommender/Handler.antt =====
-- `GetTopVideos`, `GetStats` and the cache's refresh in
-- lab1/video_rec_service/server_lib/server_lib.go.
pub mod Keeps
pub mod Errors
pub mod Counters
pub mod Sources
pub mod Answers
pub mod Served
pub mod Healthy
use cs.Base.{
  ℕ, zero, suc, ◌+◌, ◌-◌, ◌/◌, ◌%◌, ◌^◌, Bool, true, false, not, ◌&&◌, Option, none, some, List, [],
  ◌∷◌,
}
use cs.Base.Tests.{if◌then◌else◌, ltb, ◌==◌}
use cs.Base.Lists.{length, get_elem?, take}
use cs.Base.Int.{ℤ, pos, negsuc}
use cs.Grpc.{Result, ok, err, Status, Message, Code}
use cs.Users.{UserInfo}
use cs.Videos.{TrendingVideos}
use cs.Dedup.{deduplicate_ids}
use cs.Recommender.Monad.{Exit, done, failed, panicked, unfinished, M, ◌>>=◌, fail, or_panic}
use cs.Recommender.State.{
  Backend, Server, State, Options, add64, get_next_user_client, get_next_video_client, query_users,
}
use cs.Recommender.Sort.{SortFunc}
use cs.Recommender.Ranks.{get_video_ranks, by_rank}
use cs.Recommender.Batches.{user_loop, video_loop}

-- `pb.GetTopVideosResponse`
pub record Response : Type 0 where
  pub videos : List ℕ
  pub stale_response : Bool

abbrev pub bad_limit : Status
bad_limit = record { code = Code.invalid_argument; message = Message.negative_limit }

-- At most `limit` videos; zero asks for all.
pub cut : ℕ → List ℕ → List ℕ
cut limit infos = if not (limit == 0) && ltb limit (length infos) then take limit infos else infos

-- What a request adds to the counters when it comes in.
pub enter : Server → Server
enter s = record s {
  total_requests = add64 s.total_requests 1;
  active_requests = add64 s.active_requests 1;
}

-- The deferred functions; `^uint64(0)` is 2^64 - 1.
pub leave : ℕ → Server → Server
leave elapsed s = record s {
  total_time_ms = add64 s.total_time_ms elapsed;
  active_requests = add64 s.active_requests (2 ^ 64 - 1);
}

module _ (b : Backend) where
  open b use {World, get_user, get_video, get_trending_videos, clock_ns, deref, rank, sort_func}

  -- The videos in the order of their ranks.
  pub sorted : List (ℕ × ℕ) → List ℕ → List ℕ
  sorted coeffs infos = sort_func.sort (by_rank (get_video_ranks deref rank coeffs infos)) infos

  -- `slices.SortFunc` sorts in place, and a stale response shares its array with the cache.
  pub present : ℕ → List (ℕ × ℕ) → List ℕ × Bool → M (State World) Response
  unfolding cut sorted
  present limit coeffs (infos, stale) st = (
    done (record { videos = cut limit (sorted coeffs infos); stale_response = stale }),
    if stale
        then record st { server = record st.server { top_videos = sorted coeffs infos } }
        else st,
  )

  -- From the ids of the liked videos on.
  pub rank_videos : ℕ → List (ℕ × ℕ) → List ℕ → M (State World) Response
  unfolding present
  rank_videos limit coeffs ids st =
      (get_next_video_client >>= λ client.
      video_loop b (suc (length ids)) st.server.options.max_batch_size client ids 0 []
      >>= present limit coeffs)
        st

  -- From the record of the target user on.
  pub rank_for : ℕ → ℕ → ℕ → UserInfo → M (State World) Response
  unfolding rank_videos
  rank_for user_id limit client target st =
      (user_loop b (suc (length target.subscribed_to)) st.server.options.max_batch_size client
            user_id target.subscribed_to 0 []
          >>= λ ids. rank_videos limit target.user_coefficients (deduplicate_ids ids))
        st

  -- The body of the handler, between its counters.
  pub find_videos : ℕ → ℤ → M (State World) Response
  unfolding rank_for
  find_videos user_id (negsuc n) st = fail bad_limit st
  find_videos user_id (pos limit) st =
      (get_next_user_client >>= λ client.
      query_users (not st.server.options.disable_retry) (get_user client (user_id ∷ []))
        (Message.user_query user_id)
      >>= λ users. or_panic (get_elem? users 0) >>= rank_for user_id limit client)
        st

  pub get_top_videos : ℕ → ℤ → M (State World) Response
  unfolding find_videos enter leave
  get_top_videos user_id limit st =
      let (r, st') = find_videos user_id limit (record st { server = enter st.server }) in
      (
        r,
        record st' {
          server = leave ((clock_ns st'.world - clock_ns st.world) / 10 ^ 6) st'.server;
        },
      )

  -- One round of `ContinuallyRefreshCache`; a failed query leaves the cache as it was, until the next
  -- round.
  pub refresh_with : ℕ → Result TrendingVideos × World → State World → State World
  refresh_with client (err e, w') st = record st { world = w' }
  refresh_with client (ok trending, w') st =
      let (r, w'') = get_video client trending.videos w' in
      elim r [
        | err e ↦ record st { world = w'' }
        | ok infos ↦ record { server = record st.server { top_videos = infos }; world = w'' }
      ]

  pub refresh_round : M (State World) (Unit {0})
  unfolding refresh_with
  refresh_round st =
      (get_next_video_client >>= λ client st'.
      (done tt, refresh_with client (get_trending_videos client st'.world) st'))
        st

  pub refresh_rounds : ℕ → M (State World) (Unit {0})
  unfolding refresh_round
  refresh_rounds zero st = (done tt, st)
  refresh_rounds (suc n) st = (refresh_round >>= λ _. refresh_rounds n) st

  -- The first `n` rounds of the loop, unless the fallback is disabled.
  pub continually_refresh_cache : ℕ → M (State World) (Unit {0})
  unfolding refresh_rounds
  continually_refresh_cache n st =
      if st.server.options.disable_fallback then (done tt, st) else refresh_rounds n st

-- `pb.GetStatsResponse`, with the average latency as the two numbers that are divided.
pub record Stats : Type 0 where
  pub total_requests : ℕ
  pub total_errors : ℕ
  pub active_requests : ℕ
  pub user_service_errors : ℕ
  pub video_service_errors : ℕ
  pub average_latency_ms : ℕ × ℕ
  pub stale_responses : ℕ

pub get_stats : Server → Stats
get_stats s = record {
  total_requests = s.total_requests;
  total_errors = s.total_errors;
  active_requests = s.active_requests;
  user_service_errors = s.user_service_errors;
  video_service_errors = s.video_service_errors;
  average_latency_ms = (s.total_time_ms, s.total_requests);
  stale_responses = s.stale_responses;
}
