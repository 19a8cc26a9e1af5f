-- ===== src/Recommender/Connect.antt =====
-- `MakeVideoRecServiceServer` of lab1/video_rec_service/server_lib/server_lib.go: the connections of
-- the two client pools. `grpc.NewClient` is an argument for each address, a connection is a number,
-- and a client is its connection.
pub mod Pools
use cs.Base.{ℕ, zero, suc, Bool, not, List, [], ◌∷◌, ◌++◌}
use cs.Grpc.{Result, ok, err, Status, Message, Code}
use cs.Recommender.State.{Options, Server, retry, with_retry}

abbrev pub no_connection : (Message → Message) → Status → Status
no_connection f e = record { code = Code.unavailable; message = f e.message }

-- The server with its two pools, and all counters zero.
pub pooled : Options → List ℕ → List ℕ → Server
pooled options user_clients video_clients = record {
  options = options;
  user_service_client_pool = user_clients;
  video_service_client_pool = video_clients;
  user_service_idx = 0;
  video_service_idx = 0;
  total_requests = 0;
  total_errors = 0;
  active_requests = 0;
  user_service_errors = 0;
  video_service_errors = 0;
  total_time_ms = 0;
  stale_responses = 0;
  top_videos = [];
}

module _ {W : Type 0} where
  -- What follows a dial: the next one, or the error.
  pub and_then :
      {A B : Type 0} → (Message → Message) → (A → W → Result B × W) → Result A × W → Result B × W
  and_then f k (ok a, w) = k a w
  and_then f k (err e, w) = (err (no_connection f e), w)

  -- The loop over the pool's places, after the connections made so far.
  pub connect :
      ℕ → Bool → (W → Result ℕ × W) → (Message → Message) → List ℕ → W → Result (List ℕ) × W
  unfolding and_then
  connect zero again dial f conns w = (ok conns, w)
  connect (suc n) again dial f conns w =
      and_then f (λ conn. connect n again dial f (conns ++ conn ∷ [])) (with_retry again dial w)

  -- An error of a loop is the function's error.
  pub or_return : {A B : Type 0} → (A → W → Result B × W) → Result A × W → Result B × W
  or_return k (ok a, w) = k a w
  or_return k (err e, w) = (err e, w)

  pub make_server : Options → (W → Result ℕ × W) → (W → Result ℕ × W) → W → Result Server × W
  unfolding connect or_return pooled
  make_server options dial_user dial_video w =
      or_return
        (λ user_conns w'.
          or_return (λ video_conns w''. (ok (pooled options user_conns video_conns), w''))
            (connect options.client_pool_size (not options.disable_retry) dial_video
              Message.no_video_service [] w'))
        (connect options.client_pool_size (not options.disable_retry) dial_user
          Message.no_user_service [] w)
