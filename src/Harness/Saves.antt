-- ===== src/Harness/Saves.antt =====
-- What `crash1` and `start1` of lab3/raft/config.go do with the servers' persisters. Killing the old instance
-- changes no persister, and is left out.
pub mod Isolated
mod Tests
use cs.Base.{ℕ, zero, suc, Option, none, some, List, [], ◌∷◌}
use cs.Base.Range.{update}
use cs.Persister.{
  Heap, own, make_persister, copy, save_state_and_snapshot, read_raft_state, read_snapshot,
}

-- `saved`, a persister or nil for each server.
pub record Saves : Type 0 where
  pub heap : Heap
  pub saved : ℕ → Option ℕ

-- `cfg.saved[i] = cfg.saved[i].Copy()`, unless it is nil.
pub copy_saved : ℕ → Option ℕ → Saves → Saves
copy_saved i none s = s
copy_saved i (some p) s = record {
  heap = copy p s.heap;
  saved = update s.saved i (some s.heap.n_persisters);
}

-- The contents go into a persister of their own.
pub renew : ℕ → ℕ → Saves → Saves
renew i p s =
    let (raftlog, h) = read_raft_state p s.heap in
    let h1 = own (raftlog, h) in
    let (snapshot, h') = read_snapshot p h1 in
    let h2 = own (snapshot, h') in
    record {
      heap = save_state_and_snapshot h2.n_persisters raftlog snapshot (make_persister h2);
      saved = update s.saved i (some h2.n_persisters);
    }

pub renew_saved : ℕ → Option ℕ → Saves → Saves
unfolding renew
renew_saved i none s = s
renew_saved i (some p) s = renew i p s

pub crash_saved : ℕ → Saves → Saves
unfolding copy_saved renew_saved
crash_saved i s = let s' = copy_saved i (s.saved i) s in renew_saved i (s'.saved i) s'

-- `start1`'s persister for the new instance.
pub provide : ℕ → Option ℕ → Saves → Saves
unfolding copy_saved
provide i none s = record {
  heap = make_persister s.heap;
  saved = update s.saved i (some s.heap.n_persisters);
}
provide i (some p) s = copy_saved i (some p) s

pub start_saved : ℕ → Saves → Saves
unfolding crash_saved provide
start_saved i s = let s' = crash_saved i s in provide i (s'.saved i) s'
