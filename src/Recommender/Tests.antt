-- ===== src/Recommender/Tests.antt =====
-- The recommendation service against backends that answer from two tables.
mod Insertion
use cs.Base.{
  ℕ, suc, ◌+◌, ◌*◌, ◌^◌, ◌<◌, ◌≡◌, refl, Bool, true, false, Option, none, some, List, [], ◌∷◌,
  arith, inl, inr, ap, ◌↔◌,
}
use cs.Base.Tests.{if◌then◌else◌, ltb, ◌==◌}
use cs.Base.Lists.{drop}
use cs.Base.Int.{pos}
use cs.Base.All.{In}
use cs.Grpc.{Result, ok, err, Status, Code, Message}
use cs.Recommender.Monad.{done, failed}
use cs.Recommender.Connect.{make_server}
use cs.Recommender.Connect.Pools.{IsPooled, Made, make_server-Made, get_next_client-IsPooled}
use cs.Users.{UserInfo}
use cs.Users.Tests.{ann, bob, cay, users}
use cs.Videos.{VideoInfo, TrendingVideos}
use cs.Lookup.{collect}
use cs.Lookup.Laws.{collect-Records}
use cs.Recommender.Sort.{neg, IsStrictWeak}
use cs.Recommender.State.{
  Options, Backend, Server, State, make_with_mocks, get_next_user_client, get_next_video_client,
  query_users, settle_users, count_user_error, wrap,
}
use cs.Recommender.Ranks.{RankMap, get_video_ranks, get_video_ranks-at, by_rank, by_rank_lem}
use cs.Dedup.Order.{firsts, remove}
use cs.Recommender.Batches.{append_liked, user_batch, user_loop, video_batch, video_loop}
use cs.Recommender.Batches.Chunks.{chunks}
use cs.Recommender.Batches.Rounds.{each_users, each_videos, user_loop-each, video_loop-each}
use cs.Recommender.Handler.{cut, sorted, get_top_videos}
use cs.Recommender.Handler.Answers.{Ends, get_top_videos-Ends}
use cs.Recommender.Handler.Served.{Serves}
use cs.Recommender.Handler.Healthy.{IsReady, Best, get_top_videos-ok}
use Insertion.{insertion_sort}

abbrev videos : ℕ → Option ℕ
videos id = if ltb id 200 then some id else none

-- The sum of the weights, as a stand-in for the ranker.
abbrev total : List (ℕ × ℕ) → ℕ
total [] = 0
total ((_, weight) ∷ coeffs) = weight + total coeffs

-- Every call takes one millisecond.
abbrev backend : Backend
backend = record {
  World = ℕ;
  get_user = λ client ids w. (collect users ids [], suc w);
  get_video = λ client ids w. (collect videos ids [], suc w);
  get_trending_videos =
      λ client w. (ok (record { videos = 100 ∷ []; expiration_time_s = 60 }), suc w);
  clock_ns = λ w. w * 10 ^ 6;
  deref = λ v. record { video_id = v; video_coefficients = (4, v) ∷ [] };
  rank = λ u v. total u * total v;
  sort_func = insertion_sort;
}

backend-Serves : Serves backend 2 users videos
backend-Serves = record {
  serves_users = λ client ids infos w p q r.
      (suc w, ap (λ z. (z, suc w)) (collect-Records users ids infos [] r));
  serves_videos = λ client ids infos w p q d r.
      (suc w, ap (λ z. (z, suc w)) (collect-Records videos ids infos [] r));
}

abbrev options : Options
options = record {
  max_batch_size = 2;
  client_pool_size = 3;
  disable_fallback = false;
  disable_retry = false;
}

abbrev ready : State ℕ
ready = record { server = make_with_mocks options 0 0; world = 50 }

get_top_videos-ok_example :
    Best backend 2 users videos backend-Serves 2 ann.user_coefficients
      (100 ∷ 101 ∷ 102 ∷ [])
      ready
      (get_top_videos backend 1 (pos 2) ready)
unfolding make_with_mocks firsts remove
get_top_videos-ok_example =
    get_top_videos-ok backend 2 users videos backend-Serves 1 2 ann (bob ∷ cay ∷ [])
      (100 ∷ 101 ∷ 102 ∷ []) ready (omega arith)
      (record { batches = refl; user_client = omega arith; video_client = omega arith }) refl refl
      refl

get_top_videos-Ends_example :
    Ends backend 1 2 ready.server.top_videos (get_top_videos backend 1 (pos 2) ready)
get_top_videos-Ends_example = get_top_videos-Ends backend 1 2 ready

by_rank_lem_example :
    IsStrictWeak (by_rank (λ v. v)) × ((a b : ℕ) → (by_rank (λ v. v) a b ≡ neg) ↔ (b < a))
by_rank_lem_example = by_rank_lem (λ v. v)

user_loop-each_example :
    user_loop backend 4 2 0 1 (2 ∷ 3 ∷ 1 ∷ []) 0 [] ready
    ≡ each_users backend 0 1 (chunks 4 2 (drop 0 (2 ∷ 3 ∷ 1 ∷ []))) [] ready
user_loop-each_example =
    user_loop-each backend 4 2 0 1 (2 ∷ 3 ∷ 1 ∷ []) 0 [] ready (omega arith) (omega arith)

video_loop-each_example :
    video_loop backend 4 2 0 (7 ∷ 8 ∷ 9 ∷ []) 0 [] ready
    ≡ each_videos backend 0 (chunks 4 2 (drop 0 (7 ∷ 8 ∷ 9 ∷ []))) [] ready
video_loop-each_example =
    video_loop-each backend 4 2 0 (7 ∷ 8 ∷ 9 ∷ []) 0 [] ready (omega arith) (omega arith)

-- A failure.
abbrev down : Status
down = record { code = Code.internal; message = Message.injected_error }

-- The first dial fails, the later ones give connections in turn.
abbrev dial : ℕ → Result ℕ × ℕ
dial w = (if w == 0 then err down else ok w, suc w)

make_server-Made_example :
    Made options (make_server options dial dial 0).0
    × Made options (ok (make_with_mocks options 8 9))
make_server-Made_example = make_server-Made options dial dial 0 8 9 (omega arith)

get_next_client-IsPooled_example :
    ((c : ℕ) × (t : State ℕ) × (get_next_user_client ready ≡ (done c, t)) × IsPooled t.server)
    × ((c : ℕ) × (t : State ℕ) × (get_next_video_client ready ≡ (done c, t)) × IsPooled t.server)
unfolding make_with_mocks
get_next_client-IsPooled_example = get_next_client-IsPooled ready (record {
  user_pool = refl;
  video_pool = refl;
  user_place = omega arith;
  video_place = omega arith;
})
