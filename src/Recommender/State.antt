-- ===== src/Recommender/State.antt =====
-- The state of the video recommendation service, lab1/video_rec_service/server_lib/server_lib.go, its
-- client pools and its queries. A request is
-- modelled from its entry to its return, with no other request between; the counters are atomic in
-- the source. What the service calls is the interface `Backend`; a client of a pool and a pointer
-- to a `VideoInfo` are numbers.
use cs.Base.{ℕ, ◌+◌, ◌%◌, ◌^◌, Bool, true, false, none, some, List, []}
use cs.Base.Lists.{get_elem?, replicate}
use cs.Grpc.{Result, ok, err, Status, Message}
use cs.Users.{UserInfo}
use cs.Videos.{VideoInfo, TrendingVideos}
use cs.Recommender.Monad.{Exit, done, failed, panicked, M}
use cs.Recommender.Sort.{SortFunc}

pub record Options : Type 0 where
  pub max_batch_size : ℕ
  pub client_pool_size : ℕ
  pub disable_fallback : Bool
  pub disable_retry : Bool

-- The clients behind the pools, the monotonic clock in nanoseconds, the memory of `VideoInfo`s (which nothing
-- here writes), `BcryptRanker.Rank` and `slices.SortFunc`.
pub record Backend : Type 1 where
  pub World : Type 0
  pub get_user : ℕ → List ℕ → World → Result (List UserInfo) × World
  pub get_video : ℕ → List ℕ → World → Result (List ℕ) × World
  pub get_trending_videos : ℕ → World → Result TrendingVideos × World
  pub clock_ns : World → ℕ
  pub deref : ℕ → VideoInfo
  pub rank : List (ℕ × ℕ) → List (ℕ × ℕ) → ℕ
  pub sort_func : SortFunc

pub record Server : Type 0 where
  pub options : Options
  pub user_service_client_pool : List ℕ
  pub video_service_client_pool : List ℕ
  pub user_service_idx : ℕ
  pub video_service_idx : ℕ
  pub total_requests : ℕ
  pub total_errors : ℕ
  pub active_requests : ℕ
  pub user_service_errors : ℕ
  pub video_service_errors : ℕ
  pub total_time_ms : ℕ
  pub stale_responses : ℕ
  pub top_videos : List ℕ

pub record State (World : Type 0) : Type 0 where
  pub server : Server
  pub world : World

-- `atomic.Uint64.Add`
abbrev pub add64 : ℕ → ℕ → ℕ
add64 a b = (a + b) % 2 ^ 64

-- `MakeVideoRecServiceServerWithMocks`: each pool holds its one mock client as often as asked.
unfoldable pub make_with_mocks : Options → ℕ → ℕ → Server
make_with_mocks options mock_user_client mock_video_client = record {
  options = options;
  user_service_client_pool = replicate options.client_pool_size mock_user_client;
  video_service_client_pool = replicate options.client_pool_size mock_video_client;
  user_service_idx = 0;
  video_service_idx = 0;
  total_requests = 0;
  total_errors = 0;
  active_requests = 0;
  user_service_errors = 0;
  video_service_errors = 0;
  total_time_ms = 0;
  stale_responses = 0;
  top_videos = [];
}

-- The counters of a failed query to each service.
abbrev pub count_user_error : Server → Server
count_user_error s = record s {
  total_errors = add64 s.total_errors 1;
  user_service_errors = add64 s.user_service_errors 1;
}

abbrev pub count_video_error : Server → Server
count_video_error s = record s {
  total_errors = add64 s.total_errors 1;
  video_service_errors = add64 s.video_service_errors 1;
}

-- `status.Errorf(st.Code(), …, st.Message())`: the code is passed on, the message wrapped.
abbrev pub wrap : (Message → Message) → Status → Status
wrap f e = record { code = e.code; message = f e.message }

module _ {W : Type 0} where
  -- An index out of range panics before the remainder by the pool's size is taken.
  unfoldable pub get_next_user_client : M (State W) ℕ
  get_next_user_client st =
      elim (get_elem? st.server.user_service_client_pool st.server.user_service_idx) [
        | none ↦ (panicked, st)
        | some client ↦ (
          done client,
          record st {
            server = record st.server {
              user_service_idx =
                  (st.server.user_service_idx + 1) % st.server.options.client_pool_size;
            };
          },
        )
      ]

  unfoldable pub get_next_video_client : M (State W) ℕ
  get_next_video_client st =
      elim (get_elem? st.server.video_service_client_pool st.server.video_service_idx) [
        | none ↦ (panicked, st)
        | some client ↦ (
          done client,
          record st {
            server = record st.server {
              video_service_idx =
                  (st.server.video_service_idx + 1) % st.server.options.client_pool_size;
            };
          },
        )
      ]

  -- A call, and once more if it failed and `again` holds.
  unfoldable pub retry : {A : Type 0} → Bool → (W → Result A × W) → Result A × W → Result A × W
  retry again call (ok a, w) = (ok a, w)
  retry true call (err e, w) = call w
  retry false call (err e, w) = (err e, w)

  unfoldable pub with_retry : {A : Type 0} → Bool → (W → Result A × W) → W → Result A × W
  with_retry again call w = retry again call (call w)

  -- What the service makes of the outcome: it counts a failure and passes it on.
  unfoldable pub settle_users :
      (Message → Message) → State W → Result (List UserInfo) × W → Exit (List UserInfo) × State W
  settle_users f st (ok infos, w) = (done infos, record st { world = w })
  settle_users f st (err e, w) =
      (failed (wrap f e), record { server = count_user_error st.server; world = w })

  -- A query to the user service.
  unfoldable pub query_users :
      Bool → (W → Result (List UserInfo) × W) → (Message → Message) → M (State W) (List UserInfo)
  query_users again call f st = settle_users f st (with_retry again call st.world)
