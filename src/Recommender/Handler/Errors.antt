-- ===== src/Recommender/Handler/Errors.antt =====
-- What `GetTopVideos` of lab1/video_rec_service/server_lib/server_lib.go counts as an error.
pub mod Calls
use cs.Base.{ℕ, zero, suc, ◌+◌, ◌≡◌, refl, inl, inr, Bool, true, false, not, List, [], ◌∷◌, ◌++◌}
use cs.Base.Tests.{ltb, Bool-cases}
use cs.Base.Lists.{length, get_elem?}
use cs.Base.Int.{ℤ, pos, negsuc}
use cs.Grpc.{Result, ok, err, Message}
use cs.Users.{UserInfo}
use cs.Dedup.{deduplicate_ids}
use cs.Recommender.Monad.{Exit, done, failed, panicked, unfinished, M, then_do, or_panic}
use cs.Recommender.State.{Backend, State, get_next_user_client, get_next_video_client, query_users}
use cs.Recommender.Batches.{
  user_batch, user_loop, video_batch, video_loop, next_or_fallback, append_liked, batch,
}
use cs.Recommender.Handler.{
  Response, bad_limit, enter, leave, present, rank_videos, rank_for, find_videos, get_top_videos,
}
use cs.Recommender.Handler.Errors.Calls.{
  Errors, fresh, bind-Errors, or_panic-Errors, user_client-Errors, video_client-Errors,
  query_users-Errors, fallback-Errors,
}

module _ (b : Backend) where
  open b use {World, get_user}

  user_loop-Errors :
      (fuel size client user_id : ℕ) (ids : List ℕ) (i : ℕ) (acc : List ℕ) (n : ℕ)
      (st : State World)
      → st.server.total_errors ≡ n
      → Errors fresh n (user_loop b fuel size client user_id ids i acc st)
  unfolding user_loop user_batch
  user_loop-Errors zero size client user_id ids i acc n st h = h
  user_loop-Errors (suc fuel) size client user_id ids i acc n st h =
      elim (Bool-cases (ltb i (length ids))) [
        | inl e ↦
            rw (e, user_loop)
              (bind-Errors fresh n _ (user_batch b client user_id (batch size ids i) st)
                (query_users-Errors true (get_user client (batch size ids i)) _ n st h)
                (λ infos t.
                  user_loop-Errors fuel size client user_id ids (i + size) (append_liked infos acc)
                    n t))
        | inr e ↦ rw (e, user_loop) h
      ]

  next-Errors :
      (k : List ℕ → M (State World) (List ℕ × Bool)) (n : ℕ) (r : Result (List ℕ) × State World)
      → r.1.server.total_errors ≡ n
      → ((infos : List ℕ) (t : State World)
          → t.server.total_errors ≡ n
          → Errors (λ r. r.1) n (k infos t))
      → Errors (λ r. r.1) n (next_or_fallback b k r)
  unfolding next_or_fallback
  next-Errors k n (ok infos, t) h hk = hk infos t h
  next-Errors k n (err e, t) h hk = fallback-Errors e n t h

  video_loop-Errors :
      (fuel size client : ℕ) (ids : List ℕ) (i : ℕ) (acc : List ℕ) (n : ℕ) (st : State World)
      → st.server.total_errors ≡ n
      → Errors (λ r. r.1) n (video_loop b fuel size client ids i acc st)
  unfolding video_loop video_batch
  video_loop-Errors zero size client ids i acc n st h = h
  video_loop-Errors (suc fuel) size client ids i acc n st h =
      elim (Bool-cases (ltb i (length ids))) [
        | inl e ↦
            rw (e, video_loop)
              (next-Errors _ n (video_batch b client (batch size ids i) st) h
                (λ infos t. video_loop-Errors fuel size client ids (i + size) (acc ++ infos) n t))
        | inr e ↦ rw (e, video_loop) h
      ]

  -- Sorting and cutting change no counter.
  present-Errors :
      (limit : ℕ) (coeffs : List (ℕ × ℕ)) (n : ℕ) (r : Exit (List ℕ × Bool) × State World)
      → Errors (λ r. r.1) n r
      → Errors (λ resp. resp.stale_response) n (then_do (present b limit coeffs) r)
  unfolding present
  present-Errors limit coeffs n (done (infos, true), t) h = h
  present-Errors limit coeffs n (done (infos, false), t) h = h
  present-Errors limit coeffs n (failed e, t) h = h
  present-Errors limit coeffs n (panicked, t) h = h
  present-Errors limit coeffs n (unfinished, t) h = h

  rank_videos-Errors :
      (limit : ℕ) (coeffs : List (ℕ × ℕ)) (ids : List ℕ) (n : ℕ) (st : State World)
      → st.server.total_errors ≡ n
      → Errors (λ resp. resp.stale_response) n (rank_videos b limit coeffs ids st)
  unfolding rank_videos
  rank_videos-Errors limit coeffs ids n st h =
      bind-Errors _ n _ (get_next_video_client st) (video_client-Errors n st h) λ client t h'.
        present-Errors limit coeffs n
          (video_loop b (suc (length ids)) st.server.options.max_batch_size client ids 0 [] t)
          (video_loop-Errors (suc (length ids)) st.server.options.max_batch_size client ids 0 [] n t
            h')

  rank_for-Errors :
      (user_id limit client : ℕ) (target : UserInfo) (n : ℕ) (st : State World)
      → st.server.total_errors ≡ n
      → Errors (λ resp. resp.stale_response) n (rank_for b user_id limit client target st)
  unfolding rank_for
  rank_for-Errors user_id limit client target n st h =
      bind-Errors _ n _
        (user_loop b (suc (length target.subscribed_to)) st.server.options.max_batch_size client
          user_id target.subscribed_to 0 [] st)
        (user_loop-Errors (suc (length target.subscribed_to)) st.server.options.max_batch_size
          client user_id target.subscribed_to 0 [] n st h)
        (λ ids t. rank_videos-Errors limit target.user_coefficients (deduplicate_ids ids) n t)

  -- What a request adds to the number of errors: a negative limit is refused and not counted; any other request that
  -- fails counts one error, and so does one that is answered from the cache.
  abbrev pub RequestErrors : ℤ → ℕ → Exit Response × State World → Type 0
  RequestErrors (negsuc k) n r = (r.0 ≡ failed bad_limit) × (r.1.server.total_errors ≡ n)
  RequestErrors (pos limit) n r = Errors (λ resp. resp.stale_response) n r

  pub find_videos-Errors :
      (user_id : ℕ) (limit : ℤ) (n : ℕ) (st : State World)
      → st.server.total_errors ≡ n
      → RequestErrors limit n (find_videos b user_id limit st)
  unfolding find_videos
  find_videos-Errors user_id (negsuc k) n st h = (refl, h)
  find_videos-Errors user_id (pos limit) n st h =
      bind-Errors _ n _ (get_next_user_client st) (user_client-Errors n st h) λ client t h'.
        bind-Errors _ n _
          (query_users (not st.server.options.disable_retry) (get_user client (user_id ∷ []))
            (Message.user_query user_id) t)
          (query_users-Errors (not st.server.options.disable_retry) (get_user client (user_id ∷ []))
            (Message.user_query user_id) n t h')
          λ users u h''.
            bind-Errors _ n _ (or_panic (get_elem? users 0) u)
              (or_panic-Errors (get_elem? users 0) n u h'')
              (λ target v. rank_for-Errors user_id limit client target n v)

  leave-Errors :
      (limit : ℤ) (n elapsed : ℕ) (r : Exit Response × State World)
      → RequestErrors limit n r
      → RequestErrors limit n (r.0, record r.1 { server = leave elapsed r.1.server })
  unfolding leave
  leave-Errors (negsuc k) n elapsed r h = h
  leave-Errors (pos limit) n elapsed (done resp, t) h = h
  leave-Errors (pos limit) n elapsed (failed e, t) h = h
  leave-Errors (pos limit) n elapsed (panicked, t) h = h
  leave-Errors (pos limit) n elapsed (unfinished, t) h = h

  pub get_top_videos-Errors :
      (user_id : ℕ) (limit : ℤ) (st : State World)
      → RequestErrors limit st.server.total_errors (get_top_videos b user_id limit st)
  unfolding get_top_videos enter
  get_top_videos-Errors user_id limit st =
      leave-Errors limit st.server.total_errors _
        (find_videos b user_id limit (record st { server = enter st.server }))
        (find_videos-Errors user_id limit st.server.total_errors
          (record st { server = enter st.server }) refl)
