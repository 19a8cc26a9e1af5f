-- ===== src/Videos/Tests.antt =====
-- The video service at work; a video is its id.
use cs.Base.{ℕ, ◌≡◌, refl, Option, none, some, List, [], ◌∷◌, arith}
use cs.Base.Tests.{if◌then◌else◌, ltb}
use cs.Base.All.{IsDistinct}
use cs.Grpc.{Result, ok, returns}
use cs.Injector.{clear_injection_config, set_injection_config, make_failure_injector}
use cs.Injector.Tests.{counter, flaky}
use cs.Injector.Laws.{maybe_inject-clear}
use cs.Videos.{
  VideoServiceServer, TrendingVideos, get_video, get_trending_videos, make_video_service_server,
  default_video_service_options,
}
use cs.Videos.Laws.{Answer, get_video-Answer, get_trending_videos_lem}

abbrev videos : ℕ → Option ℕ
videos id = if ltb id 200 then some id else none

abbrev server : VideoServiceServer ℕ
server = record {
  options = default_video_service_options;
  fi = flaky;
  videos = videos;
  top_videos = 1 ∷ 2 ∷ [];
}

get_video-Answer_example :
    (r : Result (List ℕ)) × (get_video counter
        (record server { fi = clear_injection_config server.fi })
        (7 ∷ 8 ∷ 7 ∷ [])
        5
      ≡ (returns r, 5))
    × Answer server (7 ∷ 8 ∷ 7 ∷ []) r
get_video-Answer_example = get_video-Answer counter server (7 ∷ 8 ∷ 7 ∷ []) 5

get_trending_videos_example :
    (t : TrendingVideos) × (get_trending_videos counter
        (make_video_service_server default_video_service_options videos (7 ∷ 8 ∷ 7 ∷ []))
        1000
        5
      ≡ (returns (ok t), 5))
    × IsDistinct t.videos
    × (t.expiration_time_s ≡ 1060)
unfolding default_video_service_options make_video_service_server set_injection_config
    clear_injection_config
get_trending_videos_example =
    get_trending_videos_lem counter default_video_service_options videos (7 ∷ 8 ∷ 7 ∷ []) 1000 60 5
      5 refl (omega arith) (maybe_inject-clear counter make_failure_injector 5)
