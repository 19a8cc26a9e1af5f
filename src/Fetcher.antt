-- ===== src/Fetcher.antt =====
-- lab0/parallel_fetcher.go: `Fetch` of a `ParallelFetcher`, called by any number of goroutines. The
-- package golang.org/x/sync/semaphore is the interface `Weighted`, and the fetcher's answers are an
-- argument.
pub mod Limit
mod Tests
use cs.Base.{
  ℕ, zero, suc, ◌+◌, ◌≤◌, ◌<◌, ◌≡◌, Bool, true, false, Option, none, some, List, [], ◌∷◌, ◌++◌,
}
use cs.Base.Tests.{◌==◌, if◌then◌else◌, ltb}

-- `semaphore.Weighted`: `held` of `size` are acquired. `Acquire(ctx, 1)` blocks, `none`, while all are;
-- `Release(1)` panics, `none`, if none is.
pub record Weighted : Type 1 where
  pub State : Type 0
  pub new_weighted : ℕ → State
  pub acquire : State → Option State
  pub release : State → Option State
  pub size : State → ℕ
  pub held : State → ℕ
  pub new-held : (n : ℕ) → (size (new_weighted n) ≡ n) × (held (new_weighted n) ≡ 0)
  pub acquire-held :
      (s s' : State)
      → acquire s ≡ some s'
      → (held s < size s) × (held s' ≡ suc (held s)) × (size s' ≡ size s)
  pub acquire_free : (s : State) → held s < size s → (s' : State) × (acquire s ≡ some s')
  pub release-held :
      (s s' : State) → release s ≡ some s' → (suc (held s') ≡ held s) × (size s' ≡ size s)
  pub release_some : (s : State) → 0 < held s → (s' : State) × (release s ≡ some s')

-- Where a goroutine stands in `Fetch`: outside, before `Acquire`, in the fetcher's `Fetch`, or before
-- `Release` with the fetcher's answer. The context is the background, so that `Acquire` does not fail.
pub data Pc : Type 0 where
  idle acquiring fetching : Pc
  releasing : Option ℕ → Pc

-- `answers` is what the underlying `Fetch` returned, by goroutine; `panicked` is a failed `Release`.
pub record ParallelFetcher (S : Type 0) : Type 0 where
  pub sem : S
  pub pc : ℕ → Pc
  pub answers : List (ℕ × Option ℕ)
  pub panicked : Bool

pub data Event : Type 0 where
  calls acquires releases : ℕ → Event
  answers : ℕ → Option ℕ → Event

abbrev pub update {ℓ} : {B : Type ℓ} → (ℕ → B) → ℕ → B → ℕ → B
update f i b j = if i == j then b else f j

abbrev pub who : Event → ℕ
who (calls i) = i
who (acquires i) = i
who (releases i) = i
who (answers i a) = i

module _ (sm : Weighted) where
  pub new_parallel_fetcher : ℕ → ParallelFetcher sm.State
  new_parallel_fetcher max_concurrency_limit = record {
    sem = sm.new_weighted max_concurrency_limit;
    pc = λ i. idle;
    answers = [];
    panicked = false;
  }

  pub acquire_at : ℕ → Option sm.State → ParallelFetcher sm.State → ParallelFetcher sm.State
  acquire_at i none s = s
  acquire_at i (some sem') s = record s { sem = sem'; pc = update s.pc i fetching }

  pub release_at :
      ℕ → Option ℕ → Option sm.State → ParallelFetcher sm.State → ParallelFetcher sm.State
  release_at i answer none s = record s { panicked = true }
  release_at i answer (some sem') s = record s {
    sem = sem';
    pc = update s.pc i idle;
    answers = s.answers ++ (i, answer) ∷ [];
  }

  -- What an event does to a goroutine at its place; it does nothing at another.
  pub fetch_at : Pc → Event → ParallelFetcher sm.State → ParallelFetcher sm.State
  unfolding acquire_at release_at
  fetch_at idle (calls i) s = record s { pc = update s.pc i acquiring }
  fetch_at acquiring (acquires i) s = acquire_at i (sm.acquire s.sem) s
  fetch_at fetching (answers i answer) s = record s { pc = update s.pc i (releasing answer) }
  fetch_at (releasing answer) (releases i) s = release_at i answer (sm.release s.sem) s
  fetch_at _ _ s = s

  pub fetch_step : Event → ParallelFetcher sm.State → ParallelFetcher sm.State
  unfolding fetch_at
  fetch_step e s = fetch_at (s.pc (who e)) e s

  pub fetch_run : List Event → ParallelFetcher sm.State → ParallelFetcher sm.State
  unfolding fetch_step
  fetch_run [] s = s
  fetch_run (e ∷ events) s = fetch_run events (fetch_step e s)
