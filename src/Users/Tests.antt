-- ===== src/Users/Tests.antt =====
-- The user service at work.
use cs.Base.{ℕ, ◌≡◌, Option, none, some, List, [], ◌∷◌}
use cs.Base.Tests.{if◌then◌else◌, ◌==◌}
use cs.Base.Int.{pos}
use cs.Grpc.{Result, returns}
use cs.Injector.{clear_injection_config}
use cs.Injector.Tests.{counter, flaky}
use cs.Users.{UserInfo, UserServiceServer, UserServiceOptions, get_user}
use cs.Users.Laws.{Answer, get_user-Answer}

-- User 1 has the feature 4, follows 2 and 3 and likes the video 100.
abbrev pub ann : UserInfo
ann = record {
  user_id = 1;
  user_coefficients = (4, 10) ∷ [];
  subscribed_to = 2 ∷ 3 ∷ [];
  liked_videos = 100 ∷ [];
}

abbrev pub bob : UserInfo
bob = record {
  user_id = 2;
  user_coefficients = [];
  subscribed_to = [];
  liked_videos = 100 ∷ 101 ∷ [];
}

abbrev pub cay : UserInfo
cay = record {
  user_id = 3;
  user_coefficients = [];
  subscribed_to = [];
  liked_videos = 102 ∷ 101 ∷ [];
}

abbrev pub users : ℕ → Option UserInfo
users id =
    if id == 1
    then some ann
    else (if id == 2 then some bob else (if id == 3 then some cay else none))

abbrev options : UserServiceOptions
options = record {
  seed = pos 42;
  sleep_ns = pos 0;
  failure_rate = pos 0;
  response_omission_rate = pos 0;
  max_batch_size = 2;
}

abbrev server : UserServiceServer
server = record { options = options; fi = clear_injection_config flaky; users = users }

get_user-Answer_example :
    (r : Result (List UserInfo)) × (get_user counter
        (record server { fi = clear_injection_config server.fi })
        (2 ∷ 7 ∷ [])
        5
      ≡ (returns r, 5))
    × Answer server (2 ∷ 7 ∷ []) r
get_user-Answer_example = get_user-Answer counter server (2 ∷ 7 ∷ []) 5
