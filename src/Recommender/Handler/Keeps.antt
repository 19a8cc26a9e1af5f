-- ===== src/Recommender/Handler/Keeps.antt =====
-- What the queries and loops of a request to the recommendation service change of its state.
use cs.Base.{
  ℕ, zero, suc, ◌+◌, ◌%◌, ◌^◌, ◌≡◌, refl, ◌∙◌, inl, inr, Bool, true, false, Option, none, some,
  List, [], ◌∷◌, ◌++◌, arith,
}
use cs.Base.Tests.{ltb, Bool-cases, Option-cases}
use cs.Base.Lists.{length, get_elem?}
use cs.Grpc.{Result, ok, err, Status, Message}
use cs.Users.{UserInfo}
use cs.Recommender.Monad.{M, or_panic, bind-keeps}
use cs.Recommender.State.{
  Backend, Server, State, add64, count_user_error, count_video_error, get_next_user_client,
  get_next_video_client, with_retry, settle_users, query_users,
}
use cs.Recommender.Batches.{
  user_batch, user_loop, video_batch, video_loop, next_or_fallback, fall_back, fallback, use_cache,
  append_liked, batch,
}

-- Every counted error is counted for one of the two services.
abbrev pub IsBalanced : Server → Type 0
IsBalanced s = s.total_errors ≡ (s.user_service_errors + s.video_service_errors) % 2 ^ 64

-- What the parts of the handler do to the counters and the options, however they end.
pub record Counts (s t : Server) : Type 0 where
  pub options : t.options ≡ s.options
  pub requests : t.total_requests ≡ s.total_requests
  pub active : t.active_requests ≡ s.active_requests
  pub time : t.total_time_ms ≡ s.total_time_ms
  pub balanced : IsBalanced s → IsBalanced t

-- All parts but the last leave the cache alone too.
pub record Keeps (s t : Server) : Type 0 where
  pub counts : Counts s t
  pub cache : t.top_videos ≡ s.top_videos

pub Counts-trans : (s t u : Server) → Counts s t → Counts t u → Counts s u
Counts-trans s t u h k = record {
  options = k.options ∙ h.options;
  requests = k.requests ∙ h.requests;
  active = k.active ∙ h.active;
  time = k.time ∙ h.time;
  balanced = λ z. k.balanced (h.balanced z);
}

-- A change of other fields.
abbrev pub same :
    {s t : Server}
    → t.options ≡ s.options
    → t.total_requests ≡ s.total_requests
    → t.active_requests ≡ s.active_requests
    → t.total_time_ms ≡ s.total_time_ms
    → (IsBalanced s → IsBalanced t)
    → Counts s t
same o r a t b = record { options = o; requests = r; active = a; time = t; balanced = b }

pub Keeps-refl : (s : Server) → Keeps s s
Keeps-refl s = record { counts = same refl refl refl refl (λ h. h); cache = refl }

pub Keeps-trans : (s t u : Server) → Keeps s t → Keeps t u → Keeps s u
Keeps-trans s t u h k = record {
  counts = Counts-trans s t u h.counts k.counts;
  cache = k.cache ∙ h.cache;
}

pub count_user_error-Keeps : (s : Server) → Keeps s (count_user_error s)
count_user_error-Keeps s = record {
  counts = same refl refl refl refl (λ h. omega arith);
  cache = refl;
}

pub count_video_error-Keeps : (s : Server) → Keeps s (count_video_error s)
count_video_error-Keeps s = record {
  counts = same refl refl refl refl (λ h. omega arith);
  cache = refl;
}

module _ {W : Type 0} where
  abbrev pub StKeeps : State W → State W → Type 0
  StKeeps st st' = Keeps st.server st'.server

  abbrev pub StCounts : State W → State W → Type 0
  StCounts st st' = Counts st.server st'.server

  pub StCounts-trans : (s t u : State W) → StCounts s t → StCounts t u → StCounts s u
  StCounts-trans s t u = Counts-trans s.server t.server u.server

  pub StKeeps-trans : (s t u : State W) → StKeeps s t → StKeeps t u → StKeeps s u
  StKeeps-trans s t u = Keeps-trans s.server t.server u.server

  pub get_next_user_client-Keeps : (st : State W) → StKeeps st (get_next_user_client st).1
  unfolding get_next_user_client
  get_next_user_client-Keeps st =
      elim (Option-cases
        (get_elem? st.server.user_service_client_pool st.server.user_service_idx)) [
          | inl e ↦ rw (e, get_next_user_client) (Keeps-refl st.server)
          | inr (c, e) ↦
              rw (e, get_next_user_client)
                (record { counts = same refl refl refl refl (λ h. h); cache = refl })
        ]

  pub get_next_video_client-Keeps : (st : State W) → StKeeps st (get_next_video_client st).1
  unfolding get_next_video_client
  get_next_video_client-Keeps st =
      elim (Option-cases
        (get_elem? st.server.video_service_client_pool st.server.video_service_idx)) [
          | inl e ↦ rw (e, get_next_video_client) (Keeps-refl st.server)
          | inr (c, e) ↦
              rw (e, get_next_video_client)
                (record { counts = same refl refl refl refl (λ h. h); cache = refl })
        ]

  pub or_panic-Keeps : {A : Type 0} (o : Option A) (st : State W) → StKeeps st (or_panic o st).1
  or_panic-Keeps none st = Keeps-refl st.server
  or_panic-Keeps (some a) st = Keeps-refl st.server

  pub settle_users-Keeps :
      (f : Message → Message) (st : State W) (r : Result (List UserInfo) × W)
      → StKeeps st (settle_users f st r).1
  unfolding settle_users
  settle_users-Keeps f st (ok infos, w) = Keeps-refl st.server
  settle_users-Keeps f st (err e, w) = count_user_error-Keeps st.server

  pub query_users-Keeps :
      (again : Bool) (call : W → Result (List UserInfo) × W) (f : Message → Message) (st : State W)
      → StKeeps st (query_users again call f st).1
  unfolding query_users
  query_users-Keeps again call f st = settle_users-Keeps f st (with_retry again call st.world)

  pub use_cache-Keeps :
      (e : Status) (top : List ℕ) (st : State W) → StKeeps st (use_cache e top st).1
  unfolding use_cache
  use_cache-Keeps e [] st = Keeps-refl st.server
  use_cache-Keeps e (v ∷ top) st = Keeps-refl st.server

pub fall_back-Keeps :
    {W : Type 0} (d : Bool) (e : Status) (st : State W) → StKeeps st (fall_back d e st).1
unfolding fall_back
fall_back-Keeps true e st = Keeps-refl st.server
fall_back-Keeps false e st =
    Keeps-trans _ _ _ (count_stale-Keeps st.server) (use_cache-Keeps e st.server.top_videos _)
  where
    count_stale-Keeps :
        (s : Server) → Keeps s (record s { stale_responses = add64 s.stale_responses 1 })
    count_stale-Keeps s = record { counts = same refl refl refl refl (λ h. h); cache = refl }

pub fallback-Keeps : {W : Type 0} (e : Status) (st : State W) → StKeeps st (fallback e st).1
unfolding fallback
fallback-Keeps e st =
    Keeps-trans _ _ _ (count_video_error-Keeps st.server)
      (fall_back-Keeps st.server.options.disable_fallback e _)

module _ (b : Backend) where
  open b use {World, get_user}

  pub user_loop-Keeps :
      (fuel size client user_id : ℕ) (ids : List ℕ) (i : ℕ) (acc : List ℕ) (st : State World)
      → StKeeps st (user_loop b fuel size client user_id ids i acc st).1
  unfolding user_loop user_batch
  user_loop-Keeps zero size client user_id ids i acc st = Keeps-refl st.server
  user_loop-Keeps (suc fuel) size client user_id ids i acc st =
      elim (Bool-cases (ltb i (length ids))) [
        | inl e ↦
            rw (e, user_loop)
              (bind-keeps StKeeps StKeeps-trans (user_batch b client user_id (batch size ids i)) _
                st (query_users-Keeps true (get_user client (batch size ids i)) _ st)
                (λ infos t.
                  user_loop-Keeps fuel size client user_id ids (i + size) (append_liked infos acc)
                    t))
        | inr e ↦ rw (e, user_loop) (Keeps-refl st.server)
      ]

  pub next-Keeps :
      (k : List ℕ → M (State World) (List ℕ × Bool)) (r : Result (List ℕ) × State World)
      → ((infos : List ℕ) (t : State World) → StKeeps t (k infos t).1)
      → StKeeps r.1 (next_or_fallback b k r).1
  unfolding next_or_fallback
  next-Keeps k (ok infos, t) h = h infos t
  next-Keeps k (err e, t) h = fallback-Keeps e t

  pub video_loop-Keeps :
      (fuel size client : ℕ) (ids : List ℕ) (i : ℕ) (acc : List ℕ) (st : State World)
      → StKeeps st (video_loop b fuel size client ids i acc st).1
  unfolding video_loop video_batch
  video_loop-Keeps zero size client ids i acc st = Keeps-refl st.server
  video_loop-Keeps (suc fuel) size client ids i acc st = elim (Bool-cases (ltb i (length ids))) [
    | inl e ↦
        rw (e, video_loop)
          (next-Keeps _ (video_batch b client (batch size ids i) st)
            (λ infos t. video_loop-Keeps fuel size client ids (i + size) (acc ++ infos) t))
    | inr e ↦ rw (e, video_loop) (Keeps-refl st.server)
  ]
