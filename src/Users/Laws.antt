-- ===== src/Users/Laws.antt =====
-- What `GetUser` answers on each of its branches.
use cs.Base.{ℕ, ◌≤◌, ◌<◌, ◌≡◌, refl, ap, ◌∙◌, ◌≢◌, inl, inr, false, List, [], ◌∷◌, arith}
use cs.Base.Tests.{ltb, ◌==◌, Bool-cases, ltb→lt, le→ltb_false, ltb_false→le}
use cs.Base.Lists.{length}
use cs.Grpc.{Result, ok, err, returns}
use cs.Injector.{Rand, maybe_inject, should_error, clear_injection_config}
use cs.Injector.Laws.{maybe_inject-clear}
use cs.Lookup.{collect, not_found}
use cs.Lookup.Laws.{Records, FirstMissing, collect-cases, collect-Records}
use cs.Users.{UserInfo, UserServiceServer, answer_user, respond_user, get_user, empty_ids, too_many}

-- The four ways in which the handler answers, each under its condition.
pub data Answer (db : UserServiceServer) (ids : List ℕ) : Result (List UserInfo) → Type 0 where
  is_empty : ids ≡ [] → Answer db ids (err empty_ids)
  is_too_large :
      db.options.max_batch_size < length ids
      → ids ≢ []
      → Answer db ids (err (too_many db.options.max_batch_size))
  is_missing :
      (id : ℕ)
      → ids ≢ []
      → length ids ≤ db.options.max_batch_size
      → FirstMissing db.users id ids
      → Answer db ids (err (not_found id))
  is_found :
      (infos : List UserInfo)
      → ids ≢ []
      → length ids ≤ db.options.max_batch_size
      → Records db.users ids infos
      → Answer db ids (ok infos)

found-Answer :
    (db : UserServiceServer) (ids : List ℕ)
    → ids ≢ []
    → length ids ≤ db.options.max_batch_size
    → Answer db ids (collect db.users ids [])
found-Answer db ids n h = elim (collect-cases db.users ids []) [
  | inl (infos, r, e) ↦ rw e (is_found infos n h r)
  | inr (id, m, e) ↦ rw e (is_missing id n h m)
]

pub answer_user-Answer :
    (db : UserServiceServer) (ids : List ℕ) → Answer db ids (answer_user db ids)
unfolding answer_user
answer_user-Answer db [] = is_empty refl
answer_user-Answer db (id ∷ ids) =
    elim (Bool-cases (ltb db.options.max_batch_size (length (id ∷ ids)))) [
      | inl e ↦ rw (none_empty, e) (is_too_large (ltb→lt _ _ e) (λ z. cc))
      | inr e ↦ rw (none_empty, e) (found-Answer db (id ∷ ids) (λ z. cc) (ltb_false→le _ _ e))
    ]
  where
    none_empty : (length (id ∷ ids) == 0) ≡ false
    none_empty = ground arith

module _ (rand : Rand) where
  open rand use {State}

  -- With the injector cleared, `GetUser` draws no random number and answers: an empty request and one
  -- above the batch size are invalid, otherwise an id that the table lacks, the first one, is not
  -- found, and if there is none the response holds the records of all ids in the request's order.
  pub get_user-Answer :
      (db : UserServiceServer) (ids : List ℕ) (s : State)
      → (r : Result (List UserInfo)) × (get_user rand
            (record db { fi = clear_injection_config db.fi })
            ids
            s
          ≡ (returns r, s))
        × Answer db ids r
  unfolding get_user answer_user
  get_user-Answer db ids s = (
    answer_user db ids,
    ap (respond_user (record db { fi = clear_injection_config db.fi }) ids)
        (maybe_inject-clear rand db.fi s),
    answer_user-Answer db ids,
  )

  -- A request within the batch size whose ids are all present gets their records.
  pub get_user-found :
      (db : UserServiceServer) (ids : List ℕ) (infos : List UserInfo) (s s' : State)
      → maybe_inject rand db.fi s ≡ (should_error false, s')
      → 0 < length ids
      → length ids ≤ db.options.max_batch_size
      → Records db.users ids infos
      → get_user rand db ids s ≡ (returns (ok infos), s')
  unfolding get_user answer_user
  get_user-found db ids infos s s' e h k r =
      ap (respond_user db ids) e
      ∙ ap (λ r. (returns r, s'))
          (rw (nonempty, le→ltb_false _ _ k, collect-Records db.users ids infos [] r))
    where
      nonempty : (length ids == 0) ≡ false
      nonempty = ground arith
