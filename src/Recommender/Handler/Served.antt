-- ===== src/Recommender/Handler/Served.antt =====
-- The queries of the recommendation service to backends that answer.
use mathlib.Core.List.{append-nil, append_assoc}
use cs.Base.{
  ℕ, suc, ◌≤◌, ◌<◌, ◌≡◌, refl, sym, ap, ◌∙◌, Bool, true, false, not, Option, List, [], ◌∷◌, ◌++◌,
  arith,
}
use cs.Base.Lists.{length}
use cs.Base.All.{All, IsDistinct}
use cs.Grpc.{Result, ok, Message}
use cs.Users.{UserInfo}
use cs.Lookup.Laws.{Records, Records-append}
use cs.Recommender.Monad.{done, then_do}
use cs.Recommender.State.{Backend, State, retry, with_retry, query_users, settle_users}
use cs.Recommender.Batches.{
  append_liked, user_batch, user_loop, video_batch, video_loop, next_or_fallback,
}
use cs.Recommender.Batches.Chunks.{chunks, flatten, flatten-chunks, chunks-sizes, chunks-IsDistinct}
use cs.Recommender.Batches.Rounds.{each_users, each_videos, user_loop-each, video_loop-each}

-- The backends answer every request that keeps to their rules: at least one id, at most `size`, and
-- for videos no id twice.
pub record Serves (b : Backend) (size : ℕ) (users : ℕ → Option UserInfo) (videos : ℕ → Option ℕ)
    : Type 0 where
  pub serves_users :
      (client : ℕ) (ids : List ℕ) (infos : List UserInfo) (w : b.World)
      → 0 < length ids
      → length ids ≤ size
      → Records users ids infos
      → (w' : b.World) × (b.get_user client ids w ≡ (ok infos, w'))
  pub serves_videos :
      (client : ℕ) (ids infos : List ℕ) (w : b.World)
      → 0 < length ids
      → length ids ≤ size
      → IsDistinct ids
      → Records videos ids infos
      → (w' : b.World) × (b.get_video client ids w ≡ (ok infos, w'))

append_liked-append :
    (front back : List UserInfo) (acc : List ℕ)
    → append_liked (front ++ back) acc ≡ append_liked back (append_liked front acc)
unfolding append_liked
append_liked-append [] back acc = refl
append_liked-append (info ∷ front) back acc =
    append_liked-append front back (acc ++ info.liked_videos)

module _ (b : Backend) (size : ℕ) (users : ℕ → Option UserInfo) (videos : ℕ → Option ℕ)
    (sv : Serves b size users videos) where
  open b use {World, get_user, get_video}

  -- A first call that succeeds is not repeated.
  with_retry-ok :
      {A : Type 0} (again : Bool) (call : World → Result A × World) (a : A) (w w' : World)
      → call w ≡ (ok a, w')
      → with_retry again call w ≡ (ok a, w')
  unfolding with_retry retry
  with_retry-ok again call a w w' e = ap (retry again call) e

  pub query_users-ok :
      (again : Bool) (call : World → Result (List UserInfo) × World) (f : Message → Message)
      (infos : List UserInfo) (st : State World) (w' : World)
      → call st.world ≡ (ok infos, w')
      → query_users again call f st ≡ (done infos, record st { world = w' })
  unfolding query_users settle_users
  query_users-ok again call f infos st w' e =
      ap (settle_users f st) (with_retry-ok again call infos st.world w' e)

  each_users-ok :
      (client user_id : ℕ) (cs : List (List ℕ)) (infos : List UserInfo) (acc : List ℕ)
      (st : State World)
      → All (λ c. (0 < length c) × (length c ≤ size)) cs
      → Records users (flatten cs) infos
      → (w' : World) × (each_users b client user_id cs acc st
          ≡ (done (append_liked infos acc), record st { world = w' }))
  unfolding each_users flatten append_liked user_batch
  each_users-ok client user_id [] [] acc st sizes r = (st.world, refl)
  each_users-ok client user_id [] (info ∷ infos) acc st sizes r = cc
  each_users-ok client user_id (c ∷ cs) infos acc st sizes r =
      let (front, back, e, f, g) = Records-append users c (flatten cs) infos r in
      let (w1, q) = sv.serves_users client c front st.world sizes.0.0 sizes.0.1 f in
      let (w2, p) =
        each_users-ok client user_id cs back (append_liked front acc) (record st { world = w1 })
          sizes.1 g in
      (
        w2,
        ap (then_do (λ infos. each_users b client user_id cs (append_liked infos acc))) (
              query_users-ok true (get_user client c) (Message.subscribed_query user_id) front st w1
                q)
            ∙ p
            ∙ ap (λ z. (done z, record st { world = w2 }))
                (sym (append_liked-append front back acc) ∙ ap (λ z. append_liked z acc) (sym e)),
      )

  each_videos-ok :
      (client : ℕ) (cs : List (List ℕ)) (infos acc : List ℕ) (st : State World)
      → All (λ c. (0 < length c) × (length c ≤ size)) cs
      → All IsDistinct cs
      → Records videos (flatten cs) infos
      → (w' : World) × (each_videos b client cs acc st
          ≡ (done (acc ++ infos, false), record st { world = w' }))
  unfolding each_videos flatten video_batch next_or_fallback
  each_videos-ok client [] [] acc st sizes ds r =
      (st.world, ap (λ z. (done (z, false), st)) (sym (append-nil acc)))
  each_videos-ok client [] (info ∷ infos) acc st sizes ds r = cc
  each_videos-ok client (c ∷ cs) infos acc st sizes ds r =
      let (front, back, e, f, g) = Records-append videos c (flatten cs) infos r in
      let (w1, q) = sv.serves_videos client c front st.world sizes.0.0 sizes.0.1 ds.0 f in
      let (w2, p) =
        each_videos-ok client cs back (acc ++ front) (record st { world = w1 }) sizes.1 ds.1 g in
      (
        w2,
        ap
              (λ z.
                next_or_fallback b (λ infos. each_videos b client cs (acc ++ infos))
                  (z.0, record st { world = z.1 }))
              (with_retry-ok (not st.server.options.disable_retry) (get_video client c) front
                st.world w1 q)
            ∙ p
            ∙ ap (λ z. (done (z, false), record st { world = w2 }))
                (append_assoc acc front back ∙ ap (λ z. acc ++ z) (sym e)),
      )

  pub user_loop-ok :
      (n client user_id : ℕ) (ids : List ℕ) (infos : List UserInfo) (st : State World)
      → n ≡ size
      → 0 < size
      → Records users ids infos
      → (w' : World) × (user_loop b (suc (length ids)) n client user_id ids 0 [] st
          ≡ (done (append_liked infos []), record st { world = w' }))
  user_loop-ok n client user_id ids infos st en p r =
      let fuel = suc (length ids) in
      let (w', e) =
        each_users-ok client user_id (chunks fuel size ids) infos [] st
          (chunks-sizes fuel size ids p) (rw (flatten-chunks fuel size ids p (omega arith)) r) in
      (w', rw en (user_loop-each b fuel size client user_id ids 0 [] st p (omega arith) ∙ e))

  pub video_loop-ok :
      (n client : ℕ) (ids infos : List ℕ) (st : State World)
      → n ≡ size
      → 0 < size
      → IsDistinct ids
      → Records videos ids infos
      → (w' : World) × (video_loop b (suc (length ids)) n client ids 0 [] st
          ≡ (done (infos, false), record st { world = w' }))
  video_loop-ok n client ids infos st en p d r =
      let fuel = suc (length ids) in
      let (w', e) =
        each_videos-ok client (chunks fuel size ids) infos [] st (chunks-sizes fuel size ids p)
          (chunks-IsDistinct fuel size ids d)
          (rw (flatten-chunks fuel size ids p (omega arith)) r) in
      (w', rw en (video_loop-each b fuel size client ids 0 [] st p (omega arith) ∙ e))
