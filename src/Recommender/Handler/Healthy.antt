-- ===== src/Recommender/Handler/Healthy.antt =====
-- A request to the recommendation service whose backends answer: what the whole handler computes.
use mathlib.Core.Path.{subst}
use mathlib.Core.List.{Perm, append-nil, append_assoc}
use cs.Base.{
  ℕ, ◌+◌, ◌%◌, ◌<◌, ◌≡◌, refl, sym, ap, ◌∙◌, ◌++◌, false, not, Option, some, List, [], ◌∷◌, arith,
}
use cs.Base.Lists.{length, get_elem?, get_elem?_present}
use cs.Base.Int.{pos}
use cs.Base.All.{IsDistinct}
use cs.Grpc.{Message}
use cs.Users.{UserInfo}
use cs.Dedup.{deduplicate_ids}
use cs.Dedup.Laws.{deduplicate_ids-IsDistinct}
use cs.Dedup.Order.{firsts, deduplicate_ids-eq-firsts}
use cs.Recommender.Ranks.{get_video_ranks, by_rank, by_rank-IsStrictWeak}
use cs.Recommender.Ranks.Descending.{IsDescending, IsCutOff, sort-IsDescending}
use cs.Recommender.Handler.Answers.{cut-IsCutOff}
use cs.Lookup.Laws.{Records}
use cs.Recommender.Monad.{Exit, done, ◌>>=◌, then_do, or_panic}
use cs.Recommender.State.{Backend, Server, State, get_next_user_client, get_next_video_client}
use cs.Recommender.Batches.{append_liked}
use cs.Recommender.Handler.{
  Response, cut, enter, leave, sorted, present, rank_videos, rank_for, find_videos, get_top_videos,
}
use cs.Recommender.Handler.Served.{Serves, query_users-ok, user_loop-ok, video_loop-ok}

-- All that the users like, in the order of the users.
abbrev pub liked : List UserInfo → List ℕ
liked [] = []
liked (user ∷ users) = user.liked_videos ++ liked users

append_liked-liked :
    (users : List UserInfo) (ids : List ℕ) → append_liked users ids ≡ ids ++ liked users
unfolding append_liked
append_liked-liked [] ids = sym (append-nil ids)
append_liked-liked (user ∷ users) ids =
    append_liked-liked users (ids ++ user.liked_videos)
    ∙ append_assoc ids user.liked_videos (liked users)

module _ (b : Backend) (size : ℕ) (users : ℕ → Option UserInfo) (videos : ℕ → Option ℕ)
    (sv : Serves b size users videos) where
  open b use {World, get_user, get_video, deref, rank, sort_func}

  -- The server is ready for batches of `size`, and its next clients are in their pools.
  pub record IsReady (s : Server) : Type 0 where
    pub batches : s.options.max_batch_size ≡ size
    pub user_client : s.user_service_idx < length s.user_service_client_pool
    pub video_client : s.video_service_idx < length s.video_service_client_pool

  -- A request that ends with the videos `vs`, not stale, and without a counted error.
  abbrev pub Answered : State World → List ℕ → Exit Response × State World → Type 0
  Answered st vs r =
      (r.0 ≡ done (record { videos = vs; stale_response = false }))
      × (r.1.server.total_errors ≡ st.server.total_errors)

  rank_videos-ok :
      (limit : ℕ) (coeffs : List (ℕ × ℕ)) (ids infos : List ℕ) (st : State World)
      → 0 < size
      → st.server.options.max_batch_size ≡ size
      → st.server.video_service_idx < length st.server.video_service_client_pool
      → IsDistinct ids
      → Records videos ids infos
      → Answered st (cut limit (sorted b coeffs infos)) (rank_videos b limit coeffs ids st)
  unfolding rank_videos get_next_video_client present
  rank_videos-ok limit coeffs ids infos st p bs vc d r =
      let (client, e) =
        get_elem?_present st.server.video_service_client_pool st.server.video_service_idx vc in
      rw (e, rank_videos, get_next_video_client)
        (subst
          (λ z.
            Answered st (cut limit (sorted b coeffs infos)) (then_do (present b limit coeffs) z))
          (sym
            (video_loop-ok b size users videos sv st.server.options.max_batch_size client ids infos
              _ bs p d r).1)
          (refl, refl))

  rank_for-ok :
      (user_id limit client : ℕ) (target : UserInfo) (subscribed : List UserInfo) (infos : List ℕ)
      (st : State World)
      → 0 < size
      → st.server.options.max_batch_size ≡ size
      → st.server.video_service_idx < length st.server.video_service_client_pool
      → Records users target.subscribed_to subscribed
      → Records videos (deduplicate_ids (append_liked subscribed [])) infos
      → Answered st
          (cut limit (sorted b target.user_coefficients infos))
          (rank_for b user_id limit client target st)
  unfolding rank_for
  rank_for-ok user_id limit client target subscribed infos st p bs vc ru rv =
      let ids = append_liked subscribed [] in
      let (w', q) =
        user_loop-ok b size users videos sv st.server.options.max_batch_size client user_id
          target.subscribed_to subscribed st bs p ru in
      subst
        (λ z.
          Answered st (cut limit (sorted b target.user_coefficients infos))
            (then_do (λ ids. rank_videos b limit target.user_coefficients (deduplicate_ids ids)) z))
        (sym q)
        (rank_videos-ok limit target.user_coefficients (deduplicate_ids ids) infos
          (record st { world = w' }) p bs vc (deduplicate_ids-IsDistinct ids).0 rv)

  -- The state in which the first query is sent.
  abbrev called : State World → State World
  called st = record st {
    server = record st.server {
      user_service_idx = (st.server.user_service_idx + 1) % st.server.options.client_pool_size;
    };
  }

  find_videos-ok :
      (user_id limit : ℕ) (target : UserInfo) (subscribed : List UserInfo) (infos : List ℕ)
      (st : State World)
      → 0 < size
      → IsReady st.server
      → users user_id ≡ some target
      → Records users target.subscribed_to subscribed
      → Records videos (deduplicate_ids (append_liked subscribed [])) infos
      → Answered st
          (cut limit (sorted b target.user_coefficients infos))
          (find_videos b user_id (pos limit) st)
  unfolding find_videos get_next_user_client
  find_videos-ok user_id limit target subscribed infos st p ready t ru rv =
      let (client, e) =
        get_elem?_present st.server.user_service_client_pool st.server.user_service_idx
          ready.user_client in
      let (w', q) =
        sv.serves_users client (user_id ∷ []) (target ∷ []) st.world (omega arith) (omega arith)
          (ap (λ z. z ∷ []) t) in
      rw (e, find_videos, get_next_user_client)
        (subst
          (λ z.
            Answered st (cut limit (sorted b target.user_coefficients infos)) (
              then_do (λ users. or_panic (get_elem? users 0) >>= rank_for b user_id limit client)
                z))
          (sym (
            query_users-ok b size users videos sv (not st.server.options.disable_retry)
              (get_user client (user_id ∷ [])) (Message.user_query user_id) (target ∷ [])
              (called st) w' q))
          (rank_for-ok user_id limit client target subscribed infos
            (record (called st) { world = w' }) p ready.batches ready.video_client ru rv))

  -- The order and the cut that the response shows: `infos` in descending order of the ranks that
  -- `coeffs` give them, and the first `limit` of these.
  pub record Best (limit : ℕ) (coeffs : List (ℕ × ℕ)) (infos : List ℕ) (st : State World)
      (r : Exit Response × State World) : Type 0 where
    pub response : Response
    pub order : List ℕ
    pub returned : r.0 ≡ done response
    pub fresh : response.stale_response ≡ false
    pub same_videos : Perm order infos
    pub descending : IsDescending (λ v. rank coeffs (deref v).video_coefficients) order
    pub first_videos : IsCutOff limit order response.videos
    pub no_error : r.1.server.total_errors ≡ st.server.total_errors

  -- Let the backends answer every request that keeps to their rules (at least one id, at most `size`,
  -- and for videos no id twice) by the records of two tables, and let the server use batches of
  -- `size`, which is not zero. Then a request for a user of the table all of whose subscriptions, and
  -- all of whose subscriptions' liked videos, are in the tables returns exactly those videos, each
  -- once, the ones with the higher ranks by the user's coefficients first, and of these the first
  -- `limit`, or all for the limit zero; it is not stale and counts no error.
  pub get_top_videos-ok :
      (user_id limit : ℕ) (target : UserInfo) (subscribed : List UserInfo) (infos : List ℕ)
      (st : State World)
      → 0 < size
      → IsReady st.server
      → users user_id ≡ some target
      → Records users target.subscribed_to subscribed
      → Records videos (firsts (liked subscribed)) infos
      → Best limit target.user_coefficients infos st (get_top_videos b user_id (pos limit) st)
  unfolding get_top_videos enter leave sorted
  get_top_videos-ok user_id limit target subscribed infos st p ready t ru rv =
      let ids =
        deduplicate_ids-eq-firsts (append_liked subscribed [])
        ∙ ap firsts (append_liked-liked subscribed []) in
      let (d, e) =
        find_videos-ok user_id limit target subscribed infos
          (record st { server = enter st.server }) p
          (record {
            batches = ready.batches;
            user_client = ready.user_client;
            video_client = ready.video_client;
          })
          t ru (subst (λ z. Records videos z infos) (sym ids) rv) in
      let coeffs = target.user_coefficients in
      let ranks = get_video_ranks deref rank coeffs infos in
      record {
        response = record { videos = cut limit (sorted b coeffs infos); stale_response = false };
        order = sorted b coeffs infos;
        returned = d;
        fresh = refl;
        same_videos = sort_func.sort-perm (by_rank ranks) infos (by_rank-IsStrictWeak ranks);
        descending = sort-IsDescending sort_func deref rank coeffs infos;
        first_videos = cut-IsCutOff limit (sorted b coeffs infos);
        no_error = e;
      }
