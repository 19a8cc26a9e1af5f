-- ===== src/Persister.antt =====
-- lab3/raft/persister.go. A slice is the address of its array, and the nil slice is address 0, whose array stays empty.
pub mod Apart
mod Tests
use cs.Base.{ℕ, zero, suc, ◌+◌, Bool, true, false, Option, none, some, List, [], ◌∷◌}
use cs.Base.Tests.{if◌then◌else◌, ◌==◌}
use cs.Base.Lists.{length}
use cs.Base.Range.{update}

pub record Persister : Type 0 where
  pub raft_state : ℕ
  pub snapshot : ℕ

-- All persisters and arrays. `owned` are the slices that the callers hold: a caller can only write into these.
pub record Heap : Type 0 where
  pub arrays : ℕ → List ℕ
  pub next : ℕ
  pub owned : ℕ → Bool
  pub persisters : ℕ → Persister
  pub n_persisters : ℕ

unfoldable pub new_heap : Heap
new_heap = record {
  arrays = λ a. [];
  next = 1;
  owned = λ a. false;
  persisters = λ p. record { raft_state = 0; snapshot = 0 };
  n_persisters = 0;
}

-- The new slice is the first free address.
unfoldable pub clone : ℕ → Heap → ℕ × Heap
clone orig h =
    (h.next, record h { arrays = update h.arrays h.next (h.arrays orig); next = suc h.next })

unfoldable pub make_persister : Heap → Heap
make_persister h = record h {
  persisters = update h.persisters h.n_persisters (record { raft_state = 0; snapshot = 0 });
  n_persisters = suc h.n_persisters;
}

-- The copy shares the arrays.
unfoldable pub copy : ℕ → Heap → Heap
copy p h = record h {
  persisters = update h.persisters h.n_persisters (h.persisters p);
  n_persisters = suc h.n_persisters;
}

unfoldable pub save_raft_state : ℕ → ℕ → Heap → Heap
unfolding clone
save_raft_state p state h =
    let (a, h') = clone state h in
    record h' { persisters = update h'.persisters p (record (h'.persisters p) { raft_state = a }) }

unfoldable pub save_state_and_snapshot : ℕ → ℕ → ℕ → Heap → Heap
unfolding clone
save_state_and_snapshot p state snapshot h =
    let (a, h') = clone state h in
    let (b, h'') = clone snapshot h' in
    record h'' { persisters = update h''.persisters p (record { raft_state = a; snapshot = b }) }

unfoldable pub read_raft_state : ℕ → Heap → ℕ × Heap
unfolding clone
read_raft_state p h = clone (h.persisters p).raft_state h

unfoldable pub read_snapshot : ℕ → Heap → ℕ × Heap
unfolding clone
read_snapshot p h = clone (h.persisters p).snapshot h

pub raft_state_size : ℕ → Heap → ℕ
raft_state_size p h = length (h.arrays (h.persisters p).raft_state)

pub snapshot_size : ℕ → Heap → ℕ
snapshot_size p h = length (h.arrays (h.persisters p).snapshot)

-- What the callers do: `news` makes a slice, and `writes` overwrites one that they hold.
pub data Action : Type 0 where
  news : (bytes : List ℕ) → Action
  writes : (a : ℕ) → (bytes : List ℕ) → Action
  makes : Action
  copies : (p : ℕ) → Action
  saves : (p state : ℕ) → Action
  saves_both : (p state snapshot : ℕ) → Action
  reads : (p : ℕ) → Action
  reads_snapshot : (p : ℕ) → Action

-- The callers hold one slice more.
unfoldable pub own : ℕ × Heap → Heap
own r = record r.1 { owned = update r.1.owned r.0 true }

unfoldable pub allocate : List ℕ → Heap → ℕ × Heap
allocate bytes h = (h.next, record h { arrays = update h.arrays h.next bytes; next = suc h.next })

unfoldable pub write : Bool → ℕ → List ℕ → Heap → Heap
write false a bytes h = h
write true a bytes h = record h { arrays = update h.arrays a bytes }

unfoldable pub act : Action → Heap → Heap
unfolding own allocate write read_raft_state read_snapshot save_raft_state save_state_and_snapshot
    copy make_persister clone
act (news bytes) h = own (allocate bytes h)
act (writes a bytes) h = write (h.owned a) a bytes h
act makes h = make_persister h
act (copies p) h = copy p h
act (saves p state) h = save_raft_state p state h
act (saves_both p state snapshot) h = save_state_and_snapshot p state snapshot h
act (reads p) h = own (read_raft_state p h)
act (reads_snapshot p) h = own (read_snapshot p h)

unfoldable pub act_all : List Action → Heap → Heap
unfolding act
act_all [] h = h
act_all (a ∷ actions) h = act_all actions (act a h)
