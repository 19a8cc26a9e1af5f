-- ===== src/Recommender/Handler/Answers.antt =====
-- The responses of `GetTopVideos`: which videos they hold, in which order, and what becomes of the
-- cache.
use mathlib.Core.List.{Perm}
use cs.Base.{
  ℕ, zero, suc, ◌≤◌, ◌≡◌, refl, sym, ◌∙◌, ◌≢◌, ◌⊎◌, inl, inr, Bool, true, false, not, List, [], ◌∷◌,
  arith,
}
use cs.Base.Lists.{length, get_elem?, length-take, take_all}
use cs.Base.Int.{pos}
use cs.Base.All.{All}
use cs.Grpc.{Message}
use cs.Users.{UserInfo}
use cs.Dedup.{deduplicate_ids}
use cs.Recommender.Monad.{Exit, done, failed, panicked, unfinished, M, ◌>>=◌, then_do, or_panic}
use cs.Recommender.State.{Backend, State, get_next_user_client, get_next_video_client, query_users}
use cs.Base.Tests.{◌==◌, ltb, Bool-cases, ltb_false→le}
use cs.Recommender.Sort.{Sign}
use cs.Recommender.Ranks.Descending.{IsDescending, IsCutOff, sort-IsDescending}
use cs.Recommender.Ranks.{get_video_ranks, by_rank, by_rank-IsStrictWeak}
use cs.Recommender.Batches.{user_loop, video_loop}
use cs.Recommender.Handler.{
  Response, cut, enter, leave, sorted, present, rank_videos, rank_for, find_videos, get_top_videos,
}
use cs.Recommender.Handler.Keeps.{
  get_next_user_client-Keeps, get_next_video_client-Keeps, or_panic-Keeps, query_users-Keeps,
  user_loop-Keeps,
}
use cs.Recommender.Handler.Sources.{
  IsFetched, IsOfTarget, Fetched, query_users-from, or_panic-from, video_loop-Fetched,
}

-- The limit, unless it is zero, bounds the length.
length-cut : (limit : ℕ) (infos : List ℕ) → limit ≢ 0 → length (cut limit infos) ≤ limit
unfolding cut
length-cut limit infos h = ground (arith, length-take limit infos)

pub cut-IsCutOff : (limit : ℕ) (infos : List ℕ) → IsCutOff limit infos (cut limit infos)
unfolding cut
cut-IsCutOff zero infos = refl
cut-IsCutOff (suc limit) infos =
    let asked : (suc limit == 0) ≡ false = ground arith in
    elim (Bool-cases (ltb (suc limit) (length infos))) [
      | inl e ↦ rw (asked, e) refl
      | inr e ↦ rw (asked, e) (sym (take_all (suc limit) infos (ltb_false→le _ _ e)))
    ]

module _ (b : Backend) where
  open b use {World, deref, rank, sort_func}

  -- A response made of `infos`: they are put in descending order of the ranks that the target's
  -- coefficients give them, and the first `limit` of these are shown, or all for the limit zero. A
  -- stale response is made of the cached videos, and leaves the cache in the order of this request;
  -- another is made of fetched videos, and leaves it as it was.
  pub record Presented (user_id limit : ℕ) (cache : List ℕ) (resp : Response) (after : List ℕ)
      : Type 0 where
    pub coeffs : List (ℕ × ℕ)
    pub source : IsOfTarget b user_id coeffs
    pub infos : List ℕ
    pub order : List ℕ
    pub videos : IsCutOff limit order resp.videos
    pub bound : limit ≢ 0 → length resp.videos ≤ limit
    pub perm : Perm order infos
    pub descending : IsDescending (λ v. rank coeffs (deref v).video_coefficients) order
    pub cached :
        ((resp.stale_response ≡ true) × (infos ≡ cache) × (after ≡ order))
        ⊎ ((resp.stale_response ≡ false) × All (IsFetched b) infos × (after ≡ cache))

  -- How a part of the handler ends, for the cache that it found.
  abbrev pub Ends : ℕ → ℕ → List ℕ → Exit Response × State World → Type 0
  Ends user_id limit cache (done resp, t) = Presented user_id limit cache resp t.server.top_videos
  Ends user_id limit cache (failed e, t) = t.server.top_videos ≡ cache
  Ends user_id limit cache (panicked, t) = t.server.top_videos ≡ cache
  Ends user_id limit cache (unfinished, t) = t.server.top_videos ≡ cache

  bind-Ends :
      {A : Type 0} (user_id limit : ℕ) (cache : List ℕ) (m : M (State World) A)
      (k : A → M (State World) Response) (s : State World)
      → (m s).1.server.top_videos ≡ cache
      → ((a : A) (t : State World)
          → m s ≡ (done a, t)
          → t.server.top_videos ≡ cache
          → Ends user_id limit cache (k a t))
      → Ends user_id limit cache ((m >>= k) s)
  bind-Ends {A} user_id limit cache m k s h hk = go (m s) refl h
    where
      go :
          (r : Exit A × State World)
          → m s ≡ r
          → r.1.server.top_videos ≡ cache
          → Ends user_id limit cache (then_do k r)
      go (done a, t) e h = hk a t e h
      go (failed f, t) e h = h
      go (panicked, t) e h = h
      go (unfinished, t) e h = h

  present-Presented :
      (user_id limit : ℕ) (coeffs : List (ℕ × ℕ)) (cache infos : List ℕ) (stale : Bool)
      (t : State World)
      → IsOfTarget b user_id coeffs
      → t.server.top_videos ≡ cache
      → ((stale ≡ true) × (infos ≡ cache)) ⊎ ((stale ≡ false) × All (IsFetched b) infos)
      → Ends user_id limit cache (present b limit coeffs (infos, stale) t)
  unfolding present sorted
  present-Presented user_id limit coeffs cache infos stale t src h k = record {
    coeffs = coeffs;
    source = src;
    infos = infos;
    order = order;
    videos = cut-IsCutOff limit order;
    bound = length-cut limit order;
    perm = sort_func.sort-perm cmp infos (by_rank-IsStrictWeak _);
    descending = sort-IsDescending sort_func deref rank coeffs infos;
    cached = elim k [ inl (e, f) ↦ inl (e, f, rw e refl) | inr (e, f) ↦ inr (e, f, rw e h) ];
  }
    where
      cmp : ℕ → ℕ → Sign
      cmp = by_rank (get_video_ranks deref rank coeffs infos)

      order : List ℕ
      order = sort_func.sort cmp infos

  present-Ends :
      (user_id limit : ℕ) (coeffs : List (ℕ × ℕ)) (cache : List ℕ)
      (r : Exit (List ℕ × Bool) × State World)
      → IsOfTarget b user_id coeffs
      → Fetched b cache r
      → Ends user_id limit cache (then_do (present b limit coeffs) r)
  present-Ends user_id limit coeffs cache (done (infos, stale), t) src h =
      present-Presented user_id limit coeffs cache infos stale t src h.0 h.1
  present-Ends user_id limit coeffs cache (failed e, t) src h = h
  present-Ends user_id limit coeffs cache (panicked, t) src h = h
  present-Ends user_id limit coeffs cache (unfinished, t) src h = h

  rank_videos-Ends :
      (user_id limit : ℕ) (coeffs : List (ℕ × ℕ)) (ids cache : List ℕ) (st : State World)
      → IsOfTarget b user_id coeffs
      → st.server.top_videos ≡ cache
      → Ends user_id limit cache (rank_videos b limit coeffs ids st)
  unfolding rank_videos
  rank_videos-Ends user_id limit coeffs ids cache st src h =
      bind-Ends user_id limit cache get_next_video_client _ st
        ((get_next_video_client-Keeps st).cache ∙ h)
        λ client t _ h'.
          present-Ends user_id limit coeffs cache
            (video_loop b (suc (length ids)) st.server.options.max_batch_size client ids 0 [] t) src
            (video_loop-Fetched b cache (suc (length ids)) st.server.options.max_batch_size client
              ids 0 [] t tt h')

  rank_for-Ends :
      (user_id limit client : ℕ) (target : UserInfo) (cache : List ℕ) (st : State World)
      → IsOfTarget b user_id target.user_coefficients
      → st.server.top_videos ≡ cache
      → Ends user_id limit cache (rank_for b user_id limit client target st)
  unfolding rank_for
  rank_for-Ends user_id limit client target cache st src h =
      bind-Ends user_id limit cache
        (user_loop b (suc (length target.subscribed_to)) st.server.options.max_batch_size client
          user_id target.subscribed_to 0 [])
        _ st
        ((user_loop-Keeps b (suc (length target.subscribed_to)) st.server.options.max_batch_size
            client user_id target.subscribed_to 0 [] st).cache
          ∙ h)
        (λ ids t _.
          rank_videos-Ends user_id limit target.user_coefficients (deduplicate_ids ids) cache t src)

  find_videos-Ends :
      (user_id limit : ℕ) (cache : List ℕ) (st : State World)
      → st.server.top_videos ≡ cache
      → Ends user_id limit cache (find_videos b user_id (pos limit) st)
  unfolding find_videos
  find_videos-Ends user_id limit cache st h =
      bind-Ends user_id limit cache get_next_user_client _ st
        ((get_next_user_client-Keeps st).cache ∙ h)
        λ client t _ h'.
          bind-Ends user_id limit cache
            (query_users (not st.server.options.disable_retry) (b.get_user client (user_id ∷ []))
              (Message.user_query user_id))
            _ t
            ((query_users-Keeps (not st.server.options.disable_retry)
                (b.get_user client (user_id ∷ [])) (Message.user_query user_id) t).cache
              ∙ h')
            λ users u q h''.
              let (w1, w2, g) = query_users-from b _ _ _ _ _ _ q in
              bind-Ends user_id limit cache (or_panic (get_elem? users 0))
                (rank_for b user_id limit client) u
                ((or_panic-Keeps (get_elem? users 0) u).cache ∙ h'')
                (λ target v o. rank_for-Ends user_id limit client target cache v (record {
                  client = client;
                  before = w1;
                  after = w2;
                  users = users;
                  target = target;
                  asked = g;
                  first = or_panic-from b (get_elem? users 0) target u v o;
                  same = refl;
                }))

  leave-Ends :
      (user_id limit : ℕ) (cache : List ℕ) (elapsed : ℕ) (r : Exit Response × State World)
      → Ends user_id limit cache r
      → Ends user_id limit cache (r.0, record r.1 { server = leave elapsed r.1.server })
  unfolding leave
  leave-Ends user_id limit cache elapsed (done resp, t) h = h
  leave-Ends user_id limit cache elapsed (failed e, t) h = h
  leave-Ends user_id limit cache elapsed (panicked, t) h = h
  leave-Ends user_id limit cache elapsed (unfinished, t) h = h

  -- For a limit that is not negative: a response is made of videos that the video service returned, or
  -- if it is stale of the cached ones, in descending order of the ranks that the coefficients of the
  -- user service's answer for the target give them, and of these the first `limit` ones, or all for
  -- the limit zero; a stale response leaves the cache in this request's order, and a request that ends
  -- in any other way leaves the cache as it was.
  pub get_top_videos-Ends :
      (user_id limit : ℕ) (st : State World)
      → Ends user_id limit st.server.top_videos (get_top_videos b user_id (pos limit) st)
  unfolding get_top_videos enter
  get_top_videos-Ends user_id limit st =
      leave-Ends user_id limit st.server.top_videos _
        (find_videos b user_id (pos limit) (record st { server = enter st.server }))
        (find_videos-Ends user_id limit st.server.top_videos
          (record st { server = enter st.server }) refl)
