-- ===== src/Recommender/Handler/Counters.antt =====
-- The counters of the recommendation service over one request.
use cs.Recommender.State.{State}
