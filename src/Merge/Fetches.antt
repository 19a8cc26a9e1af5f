-- ===== src/Merge/Fetches.antt =====
-- `MergeFetches` of lab0/merge_channels.go: a goroutine for each fetcher, a wait group for both, and
-- the function itself, which waits and then closes `out`. A fetcher is the list of what its calls
-- return, before the call that returns false.
pub mod Written
use mathlib.Core.List.{append-nil, append_assoc}
use cs.Base.{
  ℕ, zero, suc, ◌+◌, ◌-◌, ◌≡◌, refl, sym, ap, subst, ◌∙◌, Bool, true, false, List, [], ◌∷◌, ◌++◌,
  arith,
}
use cs.Base.Tests.{◌==◌, if◌then◌else◌}
use cs.Merge.{Side, left, right, put}
use cs.Merge.Flow.{IsMerge, IsMerge-snoc, IsMerge-nil, put-all, put-right}

-- Where a goroutine stands: before `Fetch`, in `out <- data`, or after `wg.Done()`.
pub data FetchPc (A : Type 0) : Type 0 where
  fetching finished : FetchPc A
  writing : A → FetchPc A

pub record Fetching (A : Type 0) : Type 0 where
  pub left_over : Side → List A
  pub pc : Side → FetchPc A
  pub out : List A
  pub wait_group : ℕ
  pub closed : Bool
  pub panicked : Bool

pub data FetchEvent : Type 0 where
  turns : Side → FetchEvent
  closes : FetchEvent

module _ {A : Type 0} where
  unfoldable pub start_fetches : (Side → List A) → Fetching A
  start_fetches items = record {
    left_over = items;
    pc = λ c. fetching;
    out = [];
    wait_group = 2;
    closed = false;
    panicked = false;
  }

  -- `Fetch()` and the test of its result.
  unfoldable pub fetch : List A → Side → Fetching A → Fetching A
  fetch [] c s = record s { pc = put s.pc c finished; wait_group = s.wait_group - 1 }
  fetch (x ∷ rest) c s = record s {
    left_over = put s.left_over c rest;
    pc = put s.pc c (writing x);
  }

  -- `out <- data`, which panics on a closed channel.
  unfoldable pub write : Bool → A → Side → Fetching A → Fetching A
  write true x c s = record s { panicked = true }
  write false x c s = record s { out = s.out ++ x ∷ []; pc = put s.pc c fetching }

  unfoldable pub turn : FetchPc A → Side → Fetching A → Fetching A
  unfolding fetch write
  turn fetching c s = fetch (s.left_over c) c s
  turn (writing x) c s = write s.closed x c s
  turn finished c s = s

  -- The wait group lets the function go on at zero.
  unfoldable pub close_at : ℕ → Fetching A → Fetching A
  close_at zero s = record s { closed = true }
  close_at (suc n) s = s

  -- `wg.Wait()` and the deferred `close(out)`.
  unfoldable pub fetch_step : FetchEvent → Fetching A → Fetching A
  unfolding turn close_at
  fetch_step (turns c) s = turn (s.pc c) c s
  fetch_step closes s = close_at s.wait_group s

  unfoldable pub fetch_run : List FetchEvent → Fetching A → Fetching A
  unfolding fetch_step
  fetch_run [] s = s
  fetch_run (e ∷ events) s = fetch_run events (fetch_step e s)
