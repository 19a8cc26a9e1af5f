-- ===== src/Fetcher/Limit.antt =====
-- How many goroutines are in the fetcher of a `ParallelFetcher` of lab0/parallel_fetcher.go.
use cs.Base.{
  ℕ, zero, suc, ◌+◌, ◌≤◌, ◌<◌, ◌≡◌, refl, ap, subst, ◌∙◌, inl, inr, false, Option, none, some, List,
  [], ◌∷◌, arith,
}
use cs.Base.Tests.{ltb, Bool-cases, ltb→lt, ltb_false→le}
use cs.Fetcher.{
  Weighted, Pc, idle, acquiring, fetching, releasing, ParallelFetcher, Event, calls, acquires,
  releases, answers, update, who, new_parallel_fetcher, acquire_at, release_at, fetch_at,
  fetch_step, fetch_run,
}

-- The sum of the weights of the first `n` goroutines.
pub total : (Pc → ℕ) → ℕ → (ℕ → Pc) → ℕ
total w zero pc = 0
total w (suc n) pc = total w n pc + w (pc n)

-- A goroutine between `Acquire` and `Release`, and one in the fetcher's `Fetch`.
abbrev pub busy : Pc → ℕ
busy idle = 0
busy acquiring = 0
busy fetching = 1
busy (releasing a) = 1

abbrev pub inside : Pc → ℕ
inside idle = 0
inside acquiring = 0
inside fetching = 1
inside (releasing a) = 0

inside-busy : (p : Pc) → inside p ≤ busy p
inside-busy idle = omega arith
inside-busy acquiring = omega arith
inside-busy fetching = omega arith
inside-busy (releasing a) = omega arith

inside_le : (n : ℕ) (pc : ℕ → Pc) → total inside n pc ≤ total busy n pc
unfolding total
inside_le zero pc = omega arith
inside_le (suc n) pc = omega (arith, inside_le n pc, inside-busy (pc n))

total_outside :
    (n : ℕ) (pc : ℕ → Pc) (i : ℕ) (p : Pc) → n ≤ i → total busy n (update pc i p) ≡ total busy n pc
unfolding total
total_outside zero pc i p h = refl
total_outside (suc n) pc i p h = ground (arith, total_outside n pc i p)

total_inside :
    (n : ℕ) (pc : ℕ → Pc) (i : ℕ) (p : Pc)
    → i < n
    → total busy n (update pc i p) + busy (pc i) ≡ total busy n pc + busy p
unfolding total
total_inside zero pc i p h = absurd (omega arith)
total_inside (suc n) pc i p h = elim (Bool-cases (ltb i n)) [
  | inl e ↦ ground (arith, total_inside n pc i p (ltb→lt i n e), ltb→lt i n e)
  | inr e ↦ ground (arith, total_outside n pc i p (ltb_false→le i n e), ltb_false→le i n e)
]

total_le : (i n : ℕ) (pc : ℕ → Pc) → n ≤ i → total busy n pc ≤ total busy i pc
unfolding total
total_le zero zero pc h = omega arith
total_le zero (suc n) pc h = absurd (omega arith)
total_le (suc i) n pc h = elim (Bool-cases (ltb i n)) [
  | inl e ↦
      let top : suc i ≡ n = omega (arith, ltb→lt i n e) in
      subst (λ z. total busy z pc ≤ total busy i pc + busy (pc i)) top (omega arith)
  | inr e ↦ omega (arith, total_le i n pc (ltb_false→le i n e))
]

module _ (sm : Weighted) where
  record Inv (limit : ℕ) (s : ParallelFetcher sm.State) : Type 0 where
    pub sized : sm.size s.sem ≡ limit
    pub within : sm.held s.sem ≤ limit
    pub most : (n : ℕ) → total busy n s.pc ≤ sm.held s.sem
    pub calm : s.panicked ≡ false

  -- The goroutines after one of them moved, and what is held then.
  most_update :
      (pc : ℕ → Pc) (i n : ℕ) (p : Pc) (h h' : ℕ)
      → ((n : ℕ) → total busy n pc ≤ h)
      → h + busy p ≡ h' + busy (pc i)
      → total busy n (update pc i p) ≤ h'
  unfolding total
  most_update pc i n p h h' m e = elim (Bool-cases (ltb i n)) [
    | inl b ↦ omega (arith, total_inside n pc i p (ltb→lt i n b), m n)
    | inr b ↦ omega (
      arith,
      total_outside n pc i p (ltb_false→le i n b),
      total_le i n pc (ltb_false→le i n b),
      m (suc i),
    )
  ]

  -- A move that leaves the semaphore alone.
  move-Inv :
      (limit : ℕ) (s : ParallelFetcher sm.State) (i : ℕ) (p : Pc)
      → busy (s.pc i) ≡ busy p
      → Inv limit s
      → Inv limit (record s { pc = update s.pc i p })
  move-Inv limit s i p e v = record {
    sized = v.sized;
    within = v.within;
    most = λ n. most_update s.pc i n p (sm.held s.sem) (sm.held s.sem) v.most (omega (arith, e));
    calm = v.calm;
  }

  acquire_at-Inv :
      (limit i : ℕ) (o : Option sm.State) (s : ParallelFetcher sm.State)
      → s.pc i ≡ acquiring
      → sm.acquire s.sem ≡ o
      → Inv limit s
      → Inv limit (acquire_at sm i o s)
  unfolding acquire_at
  acquire_at-Inv limit i none s p e v = v
  acquire_at-Inv limit i (some sem') s p e v =
      let (free, one_more, same) = sm.acquire-held s.sem sem' e in
      record {
        sized = same ∙ v.sized;
        within = omega (arith, free, one_more, v.sized);
        most = λ n.
            most_update s.pc i n fetching (sm.held s.sem) (sm.held sem') v.most
              (omega (arith, one_more, ap busy p));
        calm = v.calm;
      }

  release_at-Inv :
      (limit i : ℕ) (answer : Option ℕ) (o : Option sm.State) (s : ParallelFetcher sm.State)
      → s.pc i ≡ releasing answer
      → sm.release s.sem ≡ o
      → Inv limit s
      → Inv limit (release_at sm i answer o s)
  unfolding release_at total
  release_at-Inv limit i answer none s p e v =
      let (s', f) = sm.release_some s.sem (omega (arith, v.most (suc i), ap busy p)) in cc
  release_at-Inv limit i answer (some sem') s p e v =
      let (one_less, same) = sm.release-held s.sem sem' e in
      record {
        sized = same ∙ v.sized;
        within = omega (arith, one_less, v.within);
        most = λ n.
            most_update s.pc i n idle (sm.held s.sem) (sm.held sem') v.most
              (omega (arith, one_less, ap busy p));
        calm = v.calm;
      }

  fetch_at-Inv :
      (limit : ℕ) (pc : Pc) (e : Event) (s : ParallelFetcher sm.State)
      → s.pc (who e) ≡ pc
      → Inv limit s
      → Inv limit (fetch_at sm pc e s)
  unfolding fetch_at
  fetch_at-Inv limit idle (calls i) s p v = move-Inv limit s i acquiring (ap busy p) v
  fetch_at-Inv limit idle (acquires i) s p v = v
  fetch_at-Inv limit idle (answers i a) s p v = v
  fetch_at-Inv limit idle (releases i) s p v = v
  fetch_at-Inv limit acquiring (calls i) s p v = v
  fetch_at-Inv limit acquiring (acquires i) s p v =
      acquire_at-Inv limit i (sm.acquire s.sem) s p refl v
  fetch_at-Inv limit acquiring (answers i a) s p v = v
  fetch_at-Inv limit acquiring (releases i) s p v = v
  fetch_at-Inv limit fetching (calls i) s p v = v
  fetch_at-Inv limit fetching (acquires i) s p v = v
  fetch_at-Inv limit fetching (answers i a) s p v = move-Inv limit s i (releasing a) (ap busy p) v
  fetch_at-Inv limit fetching (releases i) s p v = v
  fetch_at-Inv limit (releasing a) (calls i) s p v = v
  fetch_at-Inv limit (releasing a) (acquires i) s p v = v
  fetch_at-Inv limit (releasing a) (answers i b) s p v = v
  fetch_at-Inv limit (releasing a) (releases i) s p v =
      release_at-Inv limit i a (sm.release s.sem) s p refl v

  run-Inv :
      (limit : ℕ) (events : List Event) (s : ParallelFetcher sm.State)
      → Inv limit s
      → Inv limit (fetch_run sm events s)
  unfolding fetch_run fetch_step
  run-Inv limit [] s v = v
  run-Inv limit (e ∷ events) s v =
      run-Inv limit events (fetch_step sm e s) (fetch_at-Inv limit (s.pc (who e)) e s refl v)

  total_idle : (n : ℕ) → total busy n (λ i. idle) ≡ 0
  unfolding total
  total_idle zero = refl
  total_idle (suc n) = omega (arith, total_idle n)

  new-Inv : (limit : ℕ) → Inv limit (new_parallel_fetcher sm limit)
  unfolding new_parallel_fetcher
  new-Inv limit =
      let (e, z) = sm.new-held limit in
      record {
        sized = e;
        within = omega (arith, z);
        most = λ n. omega (arith, total_idle n);
        calm = refl;
      }

  -- However many goroutines call `Fetch`, and in whatever order they run, at most as many as the limit
  -- are in the fetcher's `Fetch` at once, and no release panics.
  pub fetch_run_limit :
      (limit n : ℕ) (events : List Event)
      → (total inside n (fetch_run sm events (new_parallel_fetcher sm limit)).pc ≤ limit)
        × ((fetch_run sm events (new_parallel_fetcher sm limit)).panicked ≡ false)
  fetch_run_limit limit n events =
      let v = run-Inv limit events (new_parallel_fetcher sm limit) (new-Inv limit) in
      (
        omega (
          arith,
          inside_le n (fetch_run sm events (new_parallel_fetcher sm limit)).pc,
          v.most n,
          v.within,
        ),
        v.calm,
      )
