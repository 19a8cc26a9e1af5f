-- ===== src/Videos.antt =====
-- lab1/video_service/server_lib/server_lib.go: the video service, and the mock client of
-- lab1/video_service/mock_client/mock_client.go. The random database of `makeRandomVideos` is an
-- argument, and so is the clock's reading, in seconds.
pub mod Laws
mod Tests
use cs.Base.{
  ℕ, suc, ◌+◌, ◌-◌, ◌%◌, ◌^◌, ◌<◌, Bool, true, false, not, Option, none, some, List, [], ◌∷◌,
}
use cs.Base.Tests.{if◌then◌else◌, ltb, ◌==◌}
use cs.Base.Lists.{length}
use cs.Base.Int.{ℤ, pos, negsuc}
use cs.Grpc.{Result, ok, err, Status, Message, Code, Call, returns, blocks, panics}
use cs.Injector.{
  Rand, FailureInjector, InjectionConfig, Injection, should_error, omits_response, maybe_inject,
  make_failure_injector, set_injection_config, set_injection_config_pb,
}
use cs.Dedup.{deduplicate_ids}
use cs.Lookup.{collect}
use cs.Users.{injected, empty_ids, too_many}

-- `pb.VideoInfo`, in the fields that are computed with.
pub record VideoInfo : Type 0 where
  pub video_id : ℕ
  pub video_coefficients : List (ℕ × ℕ)

pub record VideoServiceOptions : Type 0 where
  pub seed : ℤ
  pub ttl_seconds : ℤ
  pub sleep_ns : ℤ
  pub failure_rate : ℤ
  pub response_omission_rate : ℤ
  pub max_batch_size : ℕ

pub default_video_service_options : VideoServiceOptions
default_video_service_options = record {
  seed = pos 42;
  ttl_seconds = pos 60;
  sleep_ns = pos 0;
  failure_rate = pos 0;
  response_omission_rate = pos 0;
  max_batch_size = 50;
}

-- The map holds pointers; `V` is what a pointer to a `VideoInfo` is.
pub record VideoServiceServer (V : Type 0) : Type 0 where
  pub options : VideoServiceOptions
  pub fi : FailureInjector
  pub videos : ℕ → Option V
  pub top_videos : List ℕ

-- `videos` and `drawn` are what `makeRandomVideos` fills its map and its list of top videos with; the
-- list is deduplicated before it is returned.
pub make_video_service_server :
    {V : Type 0} → VideoServiceOptions → (ℕ → Option V) → List ℕ → VideoServiceServer V
make_video_service_server options videos drawn = record {
  options = options;
  fi =
      set_injection_config options.sleep_ns options.failure_rate options.response_omission_rate
        make_failure_injector;
  videos = videos;
  top_videos = deduplicate_ids drawn;
}

abbrev pub duplicated : Status
duplicated = record { code = Code.invalid_argument; message = Message.duplicate_ids }

module _ {V : Type 0} where
  -- `GetVideo` after `MaybeInject` let it go on.
  pub answer_video : VideoServiceServer V → List ℕ → Result (List V)
  answer_video db video_ids =
      if length video_ids == 0
      then err empty_ids
      else (if ltb db.options.max_batch_size (length video_ids)
          then err (too_many db.options.max_batch_size)
          else (if not (length (deduplicate_ids video_ids) == length video_ids)
              then err duplicated
              else collect db.videos video_ids []))

  pub respond_video :
      {S : Type 0} → VideoServiceServer V → List ℕ → Injection × S → Call (List V) × S
  unfolding answer_video
  respond_video db video_ids (Injection.panics, s) = (panics, s)
  respond_video db video_ids (omits_response, s) = (blocks, s)
  respond_video db video_ids (should_error true, s) = (returns (err injected), s)
  respond_video db video_ids (should_error false, s) = (returns (answer_video db video_ids), s)

  pub get_video :
      (rand : Rand) → VideoServiceServer V → List ℕ → rand.State → Call (List V) × rand.State
  unfolding respond_video
  get_video rand db video_ids s = respond_video db video_ids (maybe_inject rand db.fi s)

-- `pb.GetTrendingVideosResponse`
pub record TrendingVideos : Type 0 where
  pub videos : List ℕ
  pub expiration_time_s : ℕ

-- `uint64(time.Now().Unix() + db.options.TtlSeconds)`, for times and durations of 64 bits.
pub expiration : ℕ → ℤ → ℕ
expiration now (pos ttl) = (now + ttl) % 2 ^ 64
expiration now (negsuc n) = (now + (2 ^ 64 - suc n)) % 2 ^ 64

module _ {V : Type 0} where
  pub respond_trending :
      {S : Type 0} → VideoServiceServer V → ℕ → Injection × S → Call TrendingVideos × S
  unfolding expiration
  respond_trending db now (Injection.panics, s) = (panics, s)
  respond_trending db now (omits_response, s) = (blocks, s)
  respond_trending db now (should_error true, s) = (returns (err injected), s)
  respond_trending db now (should_error false, s) = (
    returns (
        ok (record {
          videos = db.top_videos;
          expiration_time_s = expiration now db.options.ttl_seconds;
        })),
    s,
  )

  pub get_trending_videos :
      (rand : Rand) → VideoServiceServer V → ℕ → rand.State → Call TrendingVideos × rand.State
  unfolding respond_trending
  get_trending_videos rand db now s = respond_trending db now (maybe_inject rand db.fi s)

  pub set_config : VideoServiceServer V → InjectionConfig → VideoServiceServer V
  set_config db config = record db { fi = set_injection_config_pb config db.fi }

-- The mock client of the tests holds a server and hands its calls on.
pub record MockVideoServiceClient (V : Type 0) : Type 0 where
  pub in_mem_server : VideoServiceServer V

module _ {V : Type 0} where
  pub mock_get_video :
      (rand : Rand) → MockVideoServiceClient V → List ℕ → rand.State → Call (List V) × rand.State
  unfolding get_video
  mock_get_video rand client req s = get_video rand client.in_mem_server req s

  pub mock_get_trending_videos :
      (rand : Rand) → MockVideoServiceClient V → ℕ → rand.State → Call TrendingVideos × rand.State
  unfolding get_trending_videos
  mock_get_trending_videos rand client now s = get_trending_videos rand client.in_mem_server now s

  pub mock_set_config : MockVideoServiceClient V → InjectionConfig → MockVideoServiceClient V
  unfolding set_config
  mock_set_config client config = record { in_mem_server = set_config client.in_mem_server config }
