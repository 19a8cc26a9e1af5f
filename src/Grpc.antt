-- ===== src/Grpc.antt =====
-- What the services of lab1 use of gRPC statuses: a code and a message, and the two ways in which a
-- handler or a client's call ends. gRPC itself is not part of the repository.
use cs.Base.{ℕ}

-- The codes that the services name, and all others by number.
pub data Code : Type 0 where
  internal invalid_argument not_found unavailable : Code
  other : ℕ → Code

-- One constructor for each format string of the services, with its arguments.
pub data Message : Type 0 where
  injected_error : Message
  empty_request : Message
  batch_too_large : ℕ → Message
  duplicate_ids : Message
  missing_id : ℕ → Message
  negative_limit : Message
  user_query : ℕ → Message → Message
  subscribed_query : ℕ → Message → Message
  video_query : Message → Message
  no_cached_videos : Message → Message
  no_user_service : Message → Message
  no_video_service : Message → Message
  text : ℕ → Message

pub record Status : Type 0 where
  pub code : Code
  pub message : Message

pub data Result (A : Type 0) : Type 0 where
  ok : A → Result A
  err : Status → Result A

-- How a call of a handler ends: it returns, blocks forever or panics.
pub data Call (A : Type 0) : Type 0 where
  returns : Result A → Call A
  blocks : Call A
  panics : Call A
