-- ===== src/Recommender/Handler/Sources.antt =====
-- Where the videos and the coefficients of a response of `GetTopVideos` come from.
use cs.Base.{
  ℕ, suc, ◌+◌, ◌≡◌, refl, ◌∙◌, ◌⊎◌, inl, inr, Bool, true, false, not, Option, none, some, ap, List,
  [], ◌∷◌, ◌++◌, zero,
}
use cs.Base.Tests.{ltb, Bool-cases}
use cs.Base.Lists.{length, get_elem?}
use cs.Base.All.{All, All-of, In}
use cs.Grpc.{Result, ok, err, Status, Message}
use cs.Users.{UserInfo}
use cs.Recommender.Monad.{Exit, done, failed, panicked, unfinished, M, or_panic}
use cs.Recommender.State.{Backend, State, retry, with_retry, settle_users, query_users}
use cs.Recommender.Batches.{
  video_loop, video_batch, next_or_fallback, fallback, fall_back, use_cache, batch,
}

module _ (b : Backend) where
  open b use {World}

  -- `v` stands in a response of the video service.
  abbrev pub IsFetched : ℕ → Type 0
  IsFetched v =
      (client : ℕ) × (ids : List ℕ) × (w : World) × (w' : World) × (infos : List ℕ) × (b.get_video
          client ids w
        ≡ (ok infos, w'))
      × In v infos

  -- The coefficients of the first user of a response to the query for the target.
  pub record IsOfTarget (user_id : ℕ) (coeffs : List (ℕ × ℕ)) : Type 0 where
    pub client : ℕ
    pub before : World
    pub after : World
    pub users : List UserInfo
    pub target : UserInfo
    pub asked : b.get_user client (user_id ∷ []) before ≡ (ok users, after)
    pub first : get_elem? users 0 ≡ some target
    pub same : target.user_coefficients ≡ coeffs

  -- What a call that may be repeated returns, one of its attempts returned.
  with_retry-from :
      {A : Type 0} (again : Bool) (call : World → Result A × World) (w : World) (a : A)
      → (with_retry again call w).0 ≡ ok a
      → (w1 : World) × (w2 : World) × (call w1 ≡ (ok a, w2))
  unfolding with_retry retry
  with_retry-from {A} again call w a h = go again (call w) refl h
    where
      go :
          (again : Bool) (r : Result A × World)
          → call w ≡ r
          → (retry again call r).0 ≡ ok a
          → (w1 : World) × (w2 : World) × (call w1 ≡ (ok a, w2))
      go again (ok a', w') e h = (w, w', e ∙ ap (λ z. (z, w')) h)
      go true (err f, w') e h = (w', (call w').1, ap (λ z. (z, (call w').1)) h)
      go false (err f, w') e h = cc

  pub query_users-from :
      (again : Bool) (call : World → Result (List UserInfo) × World) (f : Message → Message)
      (st t : State World) (users : List UserInfo)
      → query_users again call f st ≡ (done users, t)
      → (w1 : World) × (w2 : World) × (call w1 ≡ (ok users, w2))
  unfolding query_users settle_users
  query_users-from again call f st t users h = go (with_retry again call st.world) refl h
    where
      go :
          (r : Result (List UserInfo) × World)
          → with_retry again call st.world ≡ r
          → settle_users f st r ≡ (done users, t)
          → (w1 : World) × (w2 : World) × (call w1 ≡ (ok users, w2))
      go (ok infos, w) e h =
          let same : infos ≡ users = cc in
          with_retry-from again call st.world users (ap (λ z. z.0) e ∙ ap ok same)
      go (err x, w) e h = cc

  pub or_panic-from :
      {A : Type 0} (o : Option A) (a : A) (s t : State World)
      → or_panic o s ≡ (done a, t)
      → o ≡ some a
  or_panic-from none a s t h = cc
  or_panic-from (some a') a s t h = let same : a' ≡ a = cc in ap some same

  All-append : (xs ys : List ℕ) → All IsFetched xs → All IsFetched ys → All IsFetched (xs ++ ys)
  All-append [] ys h k = k
  All-append (x ∷ xs) ys h k = (h.0, All-append xs ys h.1 k)

  -- What the loop over the videos hands on: stale videos are those of the cache.
  abbrev pub Fetched : List ℕ → Exit (List ℕ × Bool) × State World → Type 0
  Fetched cache (done (infos, stale), t) =
      (t.server.top_videos ≡ cache)
      × (((stale ≡ true) × (infos ≡ cache)) ⊎ ((stale ≡ false) × All IsFetched infos))
  Fetched cache (failed e, t) = t.server.top_videos ≡ cache
  Fetched cache (panicked, t) = t.server.top_videos ≡ cache
  Fetched cache (unfinished, t) = t.server.top_videos ≡ cache

  use_cache-Fetched :
      (cache : List ℕ) (e : Status) (top : List ℕ) (t : State World)
      → t.server.top_videos ≡ cache
      → top ≡ cache
      → Fetched cache (use_cache e top t)
  unfolding use_cache
  use_cache-Fetched cache e [] t h k = h
  use_cache-Fetched cache e (v ∷ top) t h k = (h, inl (refl, k))

  fall_back-Fetched :
      (cache : List ℕ) (d : Bool) (e : Status) (t : State World)
      → t.server.top_videos ≡ cache
      → Fetched cache (fall_back d e t)
  unfolding fall_back
  fall_back-Fetched cache true e t h = h
  fall_back-Fetched cache false e t h = use_cache-Fetched cache e t.server.top_videos _ h h

  next-Fetched :
      (cache : List ℕ) (k : List ℕ → M (State World) (List ℕ × Bool))
      (r : Result (List ℕ) × State World)
      → r.1.server.top_videos ≡ cache
      → ((infos : List ℕ) → r.0 ≡ ok infos → All IsFetched infos)
      → ((infos : List ℕ) (t : State World)
          → t.server.top_videos ≡ cache
          → All IsFetched infos
          → Fetched cache (k infos t))
      → Fetched cache (next_or_fallback b k r)
  unfolding next_or_fallback fallback
  next-Fetched cache k (ok infos, t) h hr hk = hk infos t h (hr infos refl)
  next-Fetched cache k (err e, t) h hr hk =
      fall_back-Fetched cache t.server.options.disable_fallback e _ h

  pub video_loop-Fetched :
      (cache : List ℕ) (fuel size client : ℕ) (ids : List ℕ) (i : ℕ) (acc : List ℕ)
      (st : State World)
      → All IsFetched acc
      → st.server.top_videos ≡ cache
      → Fetched cache (video_loop b fuel size client ids i acc st)
  unfolding video_loop video_batch
  video_loop-Fetched cache zero size client ids i acc st a h = h
  video_loop-Fetched cache (suc fuel) size client ids i acc st a h =
      elim (Bool-cases (ltb i (length ids))) [
        | inl e ↦
            rw (e, video_loop)
              (next-Fetched cache _ (video_batch b client (batch size ids i) st) h
                (λ infos q.
                  let (w1, w2, g) =
                    with_retry-from (not st.server.options.disable_retry)
                      (b.get_video client (batch size ids i)) st.world infos q in
                  All-of IsFetched infos (λ v m. (client, batch size ids i, w1, w2, infos, g, m)))
                (λ infos t h' f.
                  video_loop-Fetched cache fuel size client ids (i + size) (acc ++ infos) t
                    (All-append acc infos a f) h'))
        | inr e ↦ rw (e, video_loop) (h, inr (refl, a))
      ]
