-- ===== src/Videos/Laws.antt =====
-- What `GetVideo` and `GetTrendingVideos` answer on each of their branches.
use cs.Base.{
  ℕ, ◌≤◌, ◌<◌, ◌+◌, ◌^◌, ◌≡◌, refl, ap, ◌≢◌, ◌⊎◌, inl, inr, true, false, not, Option, List, [], ◌∷◌,
  arith,
}
use cs.Base.Tests.{ltb, ◌==◌, Bool-cases, ltb→lt, ltb_false→le, ==_iff}
use cs.Base.Lists.{length}
use cs.Base.Int.{pos}
use cs.Base.All.{IsDistinct}
use cs.Grpc.{Result, ok, err, returns}
use cs.Injector.{Rand, maybe_inject, should_error, clear_injection_config}
use cs.Injector.Laws.{maybe_inject-clear}
use cs.Dedup.{deduplicate_ids}
use cs.Dedup.Laws.{deduplicate_ids-IsDistinct, length-deduplicate_ids}
use cs.Lookup.{collect, not_found}
use cs.Lookup.Laws.{Records, FirstMissing, collect-cases}
use cs.Users.{empty_ids, too_many}
use cs.Videos.{
  VideoServiceServer, VideoServiceOptions, answer_video, respond_video, get_video, duplicated,
  expiration, respond_trending, get_trending_videos, make_video_service_server, TrendingVideos,
}

-- The five ways in which `GetVideo` answers, each under its condition.
pub data Answer {V : Type 0} (db : VideoServiceServer V) (ids : List ℕ)
    : Result (List V) → Type 0 where
  is_empty : ids ≡ [] → Answer db ids (err empty_ids)
  is_too_large :
      ids ≢ []
      → db.options.max_batch_size < length ids
      → Answer db ids (err (too_many db.options.max_batch_size))
  is_repeated :
      ids ≢ []
      → length ids ≤ db.options.max_batch_size
      → ¬ IsDistinct ids
      → Answer db ids (err duplicated)
  is_missing :
      (id : ℕ)
      → ids ≢ []
      → length ids ≤ db.options.max_batch_size
      → IsDistinct ids
      → FirstMissing db.videos id ids
      → Answer db ids (err (not_found id))
  is_found :
      (infos : List V)
      → ids ≢ []
      → length ids ≤ db.options.max_batch_size
      → IsDistinct ids
      → Records db.videos ids infos
      → Answer db ids (ok infos)

module _ {V : Type 0} (db : VideoServiceServer V) (ids : List ℕ) where
  found-Answer :
      ids ≢ []
      → length ids ≤ db.options.max_batch_size
      → IsDistinct ids
      → Answer db ids (collect db.videos ids [])
  found-Answer n h d = elim (collect-cases db.videos ids []) [
    | inl (infos, r, e) ↦ rw e (is_found infos n h d r)
    | inr (id, m, e) ↦ rw e (is_missing id n h d m)
  ]

  -- The comparison of the lengths tells whether an id is repeated.
  repeated-cases :
      ((not (length (deduplicate_ids ids) == length ids) ≡ true) × (¬ IsDistinct ids))
      ⊎ ((not (length (deduplicate_ids ids) == length ids) ≡ false) × IsDistinct ids)
  repeated-cases = elim (Bool-cases (length (deduplicate_ids ids) == length ids)) [
    | inl e ↦ inr (ap not e, (length-deduplicate_ids ids).0.0 ((==_iff _ _).0 e))
    | inr e ↦ inl (
      ap not e,
      λ d. cc (
        (==_iff (length (deduplicate_ids ids)) (length ids)).1 ((length-deduplicate_ids ids).0.1 d),
        e,
      ),
    )
  ]

  answer_video-nonempty : ids ≢ [] → (length ids == 0) ≡ false → Answer db ids (answer_video db ids)
  unfolding answer_video
  answer_video-nonempty n z = elim (Bool-cases (ltb db.options.max_batch_size (length ids))) [
    | inl e ↦ rw (z, e) (is_too_large n (ltb→lt _ _ e))
    | inr e ↦ elim repeated-cases [
      | inl (r, d) ↦ rw (z, e, r) (is_repeated n (ltb_false→le _ _ e) d)
      | inr (r, d) ↦ rw (z, e, r) (found-Answer n (ltb_false→le _ _ e) d)
    ]
  ]

pub answer_video-Answer :
    {V : Type 0} (db : VideoServiceServer V) (ids : List ℕ) → Answer db ids (answer_video db ids)
unfolding answer_video
answer_video-Answer db [] = is_empty refl
answer_video-Answer db (id ∷ ids) = answer_video-nonempty db (id ∷ ids) (λ z. cc) (ground arith)

module _ (rand : Rand) {V : Type 0} (db : VideoServiceServer V) where
  open rand use {State}

  -- With the injector cleared, `GetVideo` draws no random number and answers: an empty request, one
  -- above the batch size and one that repeats an id are invalid, otherwise the first id that the
  -- table lacks is not found, and if there is none the response holds the records of all ids in the
  -- request's order.
  pub get_video-Answer :
      (ids : List ℕ) (s : State)
      → (r : Result (List V)) × (get_video rand
            (record db { fi = clear_injection_config db.fi })
            ids
            s
          ≡ (returns r, s))
        × Answer db ids r
  unfolding get_video answer_video
  get_video-Answer ids s = (
    answer_video db ids,
    ap (respond_video (record db { fi = clear_injection_config db.fi }) ids)
        (maybe_inject-clear rand db.fi s),
    answer_video-Answer db ids,
  )

-- The list of trending videos that a new server hands out asks for no id twice, so that a request for
-- all of them is not turned down as repeating one; and with a duration that is not negative and
-- times below 2^64 it expires exactly that much later.
pub get_trending_videos_lem :
    (rand : Rand) {V : Type 0} (options : VideoServiceOptions) (videos : ℕ → Option V)
    (drawn : List ℕ) (now ttl : ℕ) (s s' : rand.State)
    → options.ttl_seconds ≡ pos ttl
    → now + ttl < 2 ^ 64
    → maybe_inject rand (make_video_service_server options videos drawn).fi s
      ≡ (should_error false, s')
    → (t : TrendingVideos) × (get_trending_videos rand
          (make_video_service_server options videos drawn)
          now
          s
        ≡ (returns (ok t), s'))
      × IsDistinct t.videos
      × (t.expiration_time_s ≡ now + ttl)
unfolding get_trending_videos expiration make_video_service_server
get_trending_videos_lem rand options videos drawn now ttl s s' e h m = (
  record { videos = deduplicate_ids drawn; expiration_time_s = expiration now options.ttl_seconds },
  ap (respond_trending (make_video_service_server options videos drawn) now) m,
  (deduplicate_ids-IsDistinct drawn).0,
  rw e (omega arith),
)
