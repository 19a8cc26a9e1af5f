-- ===== src/Users.antt =====
-- lab1/user_service/server_lib/server_lib.go: the user service, and the mock client of
-- lab1/user_service/mock_client/mock_client.go, which calls the server in memory. The generated
-- protobuf messages are records of the fields that are read; the random database that
-- `makeRandomUsers` fills with the package gofakeit is an argument.
pub mod Laws
pub mod Tests
use cs.Base.{ℕ, ◌<◌, Bool, true, false, Option, none, some, List, [], ◌∷◌}
use cs.Base.Tests.{if◌then◌else◌, ltb, ◌==◌}
use cs.Base.Lists.{length}
use cs.Base.Int.{ℤ, pos, negsuc}
use cs.Grpc.{Result, ok, err, Status, Message, Code, Call, returns, blocks, panics}
use cs.Injector.{
  Rand, FailureInjector, InjectionConfig, Injection, should_error, omits_response, maybe_inject,
  make_failure_injector, set_injection_config, set_injection_config_pb,
}
use cs.Lookup.{collect}

-- `pb.UserInfo`; the coefficients are a Go map from feature to weight, as a list of its entries.
pub record UserInfo : Type 0 where
  pub user_id : ℕ
  pub user_coefficients : List (ℕ × ℕ)
  pub subscribed_to : List ℕ
  pub liked_videos : List ℕ

pub record UserServiceOptions : Type 0 where
  pub seed : ℤ
  pub sleep_ns : ℤ
  pub failure_rate : ℤ
  pub response_omission_rate : ℤ
  pub max_batch_size : ℕ

pub default_user_service_options : UserServiceOptions
default_user_service_options = record {
  seed = pos 42;
  sleep_ns = pos 0;
  failure_rate = pos 0;
  response_omission_rate = pos 0;
  max_batch_size = 50;
}

pub record UserServiceServer : Type 0 where
  pub options : UserServiceOptions
  pub fi : FailureInjector
  pub users : ℕ → Option UserInfo

-- `users` is what `makeRandomUsers` returns.
pub make_user_service_server : UserServiceOptions → (ℕ → Option UserInfo) → UserServiceServer
make_user_service_server options users = record {
  options = options;
  fi =
      set_injection_config options.sleep_ns options.failure_rate options.response_omission_rate
        make_failure_injector;
  users = users;
}

abbrev pub injected : Status
injected = record { code = Code.internal; message = Message.injected_error }

abbrev pub empty_ids : Status
empty_ids = record { code = Code.invalid_argument; message = Message.empty_request }

abbrev pub too_many : ℕ → Status
too_many n = record { code = Code.invalid_argument; message = Message.batch_too_large n }

-- The handler after `MaybeInject` let it go on.
pub answer_user : UserServiceServer → List ℕ → Result (List UserInfo)
answer_user db user_ids =
    if length user_ids == 0
    then err empty_ids
    else (if ltb db.options.max_batch_size (length user_ids)
        then err (too_many db.options.max_batch_size)
        else collect db.users user_ids [])

-- The handler from the injector's verdict on.
pub respond_user :
    {S : Type 0} → UserServiceServer → List ℕ → Injection × S → Call (List UserInfo) × S
unfolding answer_user
respond_user db user_ids (Injection.panics, s) = (panics, s)
respond_user db user_ids (omits_response, s) = (blocks, s)
respond_user db user_ids (should_error true, s) = (returns (err injected), s)
respond_user db user_ids (should_error false, s) = (returns (answer_user db user_ids), s)

pub get_user :
    (rand : Rand) → UserServiceServer → List ℕ → rand.State → Call (List UserInfo) × rand.State
unfolding respond_user
get_user rand db user_ids s = respond_user db user_ids (maybe_inject rand db.fi s)

pub set_config : UserServiceServer → InjectionConfig → UserServiceServer
set_config db config = record db { fi = set_injection_config_pb config db.fi }

-- The mock client of the tests holds a server and hands its calls on.
pub record MockUserServiceClient : Type 0 where
  pub in_mem_server : UserServiceServer

pub mock_get_user :
    (rand : Rand) → MockUserServiceClient → List ℕ → rand.State → Call (List UserInfo) × rand.State
unfolding get_user
mock_get_user rand client req s = get_user rand client.in_mem_server req s

pub mock_set_config : MockUserServiceClient → InjectionConfig → MockUserServiceClient
unfolding set_config
mock_set_config client config = record { in_mem_server = set_config client.in_mem_server config }
