-- ===== src/Queue/Shared/Moves.antt =====
-- `ConcurrentQueue` of lab0/queue.go: goroutines that call a queue under one mutex. A goroutine's
-- call is five moves (arrive, `mu.Lock()`, read the queue's fields, write what its method makes of
-- the values read, `mu.Unlock()`), which those of the others interleave with: two goroutines that
-- had read the fields before either wrote would lose an update. `history` lists the methods run so
-- far with their replies, in the order of their writes; no move reads it.
use cs.Base.{◌≡◌, Option, none, some, List, [], ◌∷◌, ◌++◌, ℕ}
use cs.Base.Tests.{◌==◌, if◌then◌else◌}
use cs.Queue.{Queue, new_queue}
use cs.Queue.Run.{Op, Reply, step}

-- Where a goroutine stands in `Push` or `Pop`.
pub data Pc (A : Type 0) : Type 0 where
  idle : Pc A
  locking : Op A → Pc A
  inside : Op A → Pc A
  working : Op A → Queue A → Pc A
  unlocking : Reply A → Pc A

pub record ConcurrentQueue (A : Type 0) : Type 0 where
  pub mu : Option ℕ
  pub q : Queue A
  pub pc : ℕ → Pc A
  pub history : List (Op A × Reply A)

abbrev pub update {ℓ} : {B : Type ℓ} → (ℕ → B) → ℕ → B → ℕ → B
update f i b j = if i == j then b else f j

module _ {A : Type 0} (dflt : A) where
  unfoldable pub new_concurrent_queue : ConcurrentQueue A
  new_concurrent_queue = record { mu = none; q = new_queue dflt; pc = λ i. idle; history = [] }

  -- `Lock` waits until the mutex is free. The method runs on the fields that it has read, whatever
  -- became of them meanwhile.
  pub data Move (s t : ConcurrentQueue A) : Type 0 where
    arrive :
        (i : ℕ) (o : Op A)
        → s.pc i ≡ idle
        → t ≡ record s { pc = update s.pc i (locking o) }
        → Move s t
    lock :
        (i : ℕ) (o : Op A)
        → s.pc i ≡ locking o
        → s.mu ≡ none
        → t ≡ record s { mu = some i; pc = update s.pc i (inside o) }
        → Move s t
    load :
        (i : ℕ) (o : Op A)
        → s.pc i ≡ inside o
        → t ≡ record s { pc = update s.pc i (working o s.q) }
        → Move s t
    store :
        (i : ℕ) (o : Op A) (q : Queue A) (r : Reply A) (q' : Queue A)
        → s.pc i ≡ working o q
        → step dflt o q ≡ some (r, q')
        → t ≡ record s {
          q = q';
          pc = update s.pc i (unlocking r);
          history = s.history ++ (o, r) ∷ [];
        }
        → Move s t
    unlock :
        (i : ℕ) (r : Reply A)
        → s.pc i ≡ unlocking r
        → t ≡ record s { mu = none; pc = update s.pc i idle }
        → Move s t

  pub data Reach : ConcurrentQueue A → Type 0 where
    start : Reach new_concurrent_queue
    next : {s t : ConcurrentQueue A} → Reach s → Move s t → Reach t
