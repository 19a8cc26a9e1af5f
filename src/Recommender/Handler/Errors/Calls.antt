-- ===== src/Recommender/Handler/Errors/Calls.antt =====
-- What the calls in `GetTopVideos` of lab1/video_rec_service/server_lib/server_lib.go count as errors:
-- its clients, its queries for users and the fallback.
use cs.Base.{ℕ, ◌≡◌, ap, inl, inr, Bool, true, false, Option, none, some, List, [], ◌∷◌}
use cs.Base.Tests.{if◌then◌else◌, Option-cases}
use cs.Base.Lists.{get_elem?}
use cs.Grpc.{Result, ok, err, Status, Message}
use cs.Users.{UserInfo}
use cs.Recommender.Monad.{Exit, done, failed, panicked, unfinished, M, then_do, or_panic}
use cs.Recommender.State.{
  State, add64, get_next_user_client, get_next_video_client, with_retry, settle_users, query_users,
}
use cs.Recommender.Batches.{fall_back, fallback, use_cache}

-- A part of the handler that found the number `n` of errors, and may end with a stale value: it counts one error if it
-- fails or the value is stale, and otherwise none.
abbrev pub Errors : {W A : Type 0} → (A → Bool) → ℕ → Exit A × State W → Type 0
Errors stale n (done a, t) = t.server.total_errors ≡ (if stale a then add64 n 1 else n)
Errors stale n (failed e, t) = t.server.total_errors ≡ add64 n 1
Errors stale n (panicked, t) = t.server.total_errors ≡ n
Errors stale n (unfinished, t) = t.server.total_errors ≡ n

abbrev pub fresh : {A : Type 0} → A → Bool
fresh a = false

pub bind-Errors :
    {W A B : Type 0} (stale : B → Bool) (n : ℕ) (k : A → M (State W) B) (r : Exit A × State W)
    → Errors fresh n r
    → ((a : A) (t : State W) → t.server.total_errors ≡ n → Errors stale n (k a t))
    → Errors stale n (then_do k r)
bind-Errors stale n k (done a, t) h hk = hk a t h
bind-Errors stale n k (failed e, t) h hk = h
bind-Errors stale n k (panicked, t) h hk = h
bind-Errors stale n k (unfinished, t) h hk = h

pub or_panic-Errors :
    {W A : Type 0} (o : Option A) (n : ℕ) (t : State W)
    → t.server.total_errors ≡ n
    → Errors fresh n (or_panic o t)
or_panic-Errors none n t h = h
or_panic-Errors (some a) n t h = h

module _ {W : Type 0} where
  pub user_client-Errors :
      (n : ℕ) (st : State W) → st.server.total_errors ≡ n → Errors fresh n (get_next_user_client st)
  unfolding get_next_user_client
  user_client-Errors n st h =
      elim (Option-cases
        (get_elem? st.server.user_service_client_pool st.server.user_service_idx)) [
          | inl e ↦ rw (e, get_next_user_client) h
          | inr (c, e) ↦ rw (e, get_next_user_client) h
        ]

  pub video_client-Errors :
      (n : ℕ) (st : State W)
      → st.server.total_errors ≡ n
      → Errors fresh n (get_next_video_client st)
  unfolding get_next_video_client
  video_client-Errors n st h =
      elim (Option-cases
        (get_elem? st.server.video_service_client_pool st.server.video_service_idx)) [
          | inl e ↦ rw (e, get_next_video_client) h
          | inr (c, e) ↦ rw (e, get_next_video_client) h
        ]

  settle_users-Errors :
      (f : Message → Message) (n : ℕ) (st : State W) (r : Result (List UserInfo) × W)
      → st.server.total_errors ≡ n
      → Errors fresh n (settle_users f st r)
  unfolding settle_users
  settle_users-Errors f n st (ok infos, w) h = h
  settle_users-Errors f n st (err e, w) h = ap (λ z. add64 z 1) h

  pub query_users-Errors :
      (again : Bool) (call : W → Result (List UserInfo) × W) (f : Message → Message) (n : ℕ)
      (st : State W)
      → st.server.total_errors ≡ n
      → Errors fresh n (query_users again call f st)
  unfolding query_users
  query_users-Errors again call f n st h =
      settle_users-Errors f n st (with_retry again call st.world) h

  -- The fallback comes after the error was counted.
  use_cache-Errors :
      (e : Status) (top : List ℕ) (n : ℕ) (st : State W)
      → st.server.total_errors ≡ add64 n 1
      → Errors (λ r. r.1) n (use_cache e top st)
  unfolding use_cache
  use_cache-Errors e [] n st h = h
  use_cache-Errors e (v ∷ top) n st h = h

  fall_back-Errors :
      (d : Bool) (e : Status) (n : ℕ) (st : State W)
      → st.server.total_errors ≡ add64 n 1
      → Errors (λ r. r.1) n (fall_back d e st)
  unfolding fall_back
  fall_back-Errors true e n st h = h
  fall_back-Errors false e n st h = use_cache-Errors e st.server.top_videos n _ h

  pub fallback-Errors :
      (e : Status) (n : ℕ) (st : State W)
      → st.server.total_errors ≡ n
      → Errors (λ r. r.1) n (fallback e st)
  unfolding fallback
  fallback-Errors e n st h =
      fall_back-Errors st.server.options.disable_fallback e n _ (ap (λ z. add64 z 1) h)
