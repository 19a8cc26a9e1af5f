-- ===== src/Recommender/Connect/Pools.antt =====
-- The client pools of lab1/video_rec_service/server_lib/server_lib.go: how they are filled, and that
-- taking clients in turn never leaves them.
use native.Mathlib.Nat.{mod-lt}
use cs.Base.{ℕ, zero, suc, ◌+◌, ◌%◌, ◌<◌, ◌≡◌, refl, Bool, not, List, [], ◌∷◌, ◌++◌, arith}
use cs.Base.Lists.{length, get_elem?_present, replicate, length-append, length-replicate}
use cs.Grpc.{Result, ok, err, Status, Message, Code}
use cs.Recommender.Monad.{done}
use cs.Recommender.State.{
  Options, Server, State, with_retry, make_with_mocks, get_next_user_client, get_next_video_client,
}
use cs.Recommender.Connect.{and_then, connect, or_return, pooled, make_server}

-- Both pools have their size, and the next places are in them.
pub record IsPooled (s : Server) : Type 0 where
  pub user_pool : length s.user_service_client_pool ≡ s.options.client_pool_size
  pub video_pool : length s.video_service_client_pool ≡ s.options.client_pool_size
  pub user_place : s.user_service_idx < s.options.client_pool_size
  pub video_place : s.video_service_idx < s.options.client_pool_size

-- A made server, or an error that says `Unavailable`.
pub data Made (options : Options) : Result Server → Type 0 where
  serves : (s : Server) → s.options ≡ options → IsPooled s → Made options (ok s)
  refused : (e : Status) → e.code ≡ Code.unavailable → Made options (err e)

-- A loop's connections, or its error.
data Connected (n : ℕ) : Result (List ℕ) → Type 0 where
  full : (conns : List ℕ) → length conns ≡ n → Connected n (ok conns)
  broken : (e : Status) → e.code ≡ Code.unavailable → Connected n (err e)

pooled-Made :
    (options : Options) (us vs : List ℕ)
    → 0 < options.client_pool_size
    → length us ≡ options.client_pool_size
    → length vs ≡ options.client_pool_size
    → Made options (ok (pooled options us vs))
unfolding pooled
pooled-Made options us vs h e f =
    serves (pooled options us vs) refl
      (record { user_pool = e; video_pool = f; user_place = h; video_place = h })

module _ {W : Type 0} where
  connect-Connected :
      (n : ℕ) (again : Bool) (dial : W → Result ℕ × W) (f : Message → Message) (conns : List ℕ)
      (w : W) (size : ℕ)
      → length conns + n ≡ size
      → Connected size (connect n again dial f conns w).0
  unfolding connect
  connect-Connected zero again dial f conns w size h = full conns (omega arith)
  connect-Connected (suc n) again dial f conns w size h =
      dialled (with_retry again dial w) λ conn w'.
        connect-Connected n again dial f (conns ++ conn ∷ []) w' size
          (omega (arith, length-append conns (conn ∷ [])))
    where
      dialled :
          (r : Result ℕ × W)
          → ((conn : ℕ) (w' : W)
              → Connected size (connect n again dial f (conns ++ conn ∷ []) w').0)
          → Connected size (and_then f (λ conn. connect n again dial f (conns ++ conn ∷ [])) r).0
      dialled (ok conn, w') k = k conn w'
      dialled (err e, w') k = broken _ refl

  or_return-Made :
      (options : Options) (size : ℕ) (k : List ℕ → W → Result Server × W) (r : Result (List ℕ) × W)
      → Connected size r.0
      → ((conns : List ℕ) (w : W) → length conns ≡ size → Made options (k conns w).0)
      → Made options (or_return k r).0
  unfolding or_return
  or_return-Made options size k (ok conns, w) (full _ e) h = h conns w e
  or_return-Made options size k (err e, w) (broken _ u) h = refused e u

  -- For a pool size above zero, `MakeVideoRecServiceServer` returns a server whose pools have that
  -- size, or an error with the code `Unavailable`; the constructor for tests returns such a server.
  pub make_server-Made :
      (options : Options) (dial_user dial_video : W → Result ℕ × W) (w : W) (user video : ℕ)
      → 0 < options.client_pool_size
      → Made options (make_server options dial_user dial_video w).0
        × Made options (ok (make_with_mocks options user video))
  unfolding make_server make_with_mocks pooled
  make_server-Made options dial_user dial_video w user video h = (
    or_return-Made options options.client_pool_size _
        (connect options.client_pool_size (not options.disable_retry) dial_user
          Message.no_user_service [] w)
        (connect-Connected options.client_pool_size _ dial_user _ [] w options.client_pool_size
          (omega arith))
        (λ us w' e.
          or_return-Made options options.client_pool_size _
            (connect options.client_pool_size (not options.disable_retry) dial_video
              Message.no_video_service [] w')
            (connect-Connected options.client_pool_size _ dial_video _ [] w'
              options.client_pool_size (omega arith))
            (λ vs w'' f. pooled-Made options us vs h e f)),
    pooled-Made options (replicate options.client_pool_size user)
        (replicate options.client_pool_size video) h (length-replicate _ user)
        (length-replicate _ video),
  )

  -- Both take the client at their place, and leave the pools as they should be: no request panics for
  -- want of a client.
  pub get_next_client-IsPooled :
      (st : State W)
      → IsPooled st.server
      → ((c : ℕ) × (t : State W) × (get_next_user_client st ≡ (done c, t)) × IsPooled t.server)
        × ((c : ℕ) × (t : State W) × (get_next_video_client st ≡ (done c, t)) × IsPooled t.server)
  unfolding get_next_user_client get_next_video_client
  get_next_client-IsPooled st p =
      let (c, e) =
        get_elem?_present s.user_service_client_pool s.user_service_idx
          (omega (arith, p.user_pool, p.user_place)) in
      let (d, f) =
        get_elem?_present s.video_service_client_pool s.video_service_idx
          (omega (arith, p.video_pool, p.video_place)) in
      (
        (
          c,
          record st {
            server = record s {
              user_service_idx = (s.user_service_idx + 1) % s.options.client_pool_size;
            };
          },
          rw (e, get_next_user_client) refl,
          record {
            user_pool = p.user_pool;
            video_pool = p.video_pool;
            user_place = mod-lt _ (omega (arith, p.user_place));
            video_place = p.video_place;
          },
        ),
        (
          d,
          record st {
            server = record s {
              video_service_idx = (s.video_service_idx + 1) % s.options.client_pool_size;
            };
          },
          rw (f, get_next_video_client) refl,
          record {
            user_pool = p.user_pool;
            video_pool = p.video_pool;
            user_place = p.user_place;
            video_place = mod-lt _ (omega (arith, p.video_place));
          },
        ),
      )
    where
      s : Server
      s = st.server
