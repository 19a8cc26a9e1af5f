-- ===== src/Recommender.antt =====
-- lab1/video_rec_service/server_lib/server_lib.go: the video recommendation service, in parts.
pub mod Monad
pub mod Sort
pub mod State
pub mod Connect
pub mod Ranks
pub mod Batches
pub mod Handler
mod Tests
