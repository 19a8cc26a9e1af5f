-- ===== src/Queue/Tests.antt =====
-- The queue at work.
use cs.Base.{ℕ, ◌≡◌, refl, some, List, [], ◌∷◌, map}
use cs.Queue.{Queue, new_queue}
use cs.Queue.Valid.{Holds, new_queue-Holds}
use cs.Queue.Fifo.{push-Holds}
use cs.Queue.Run.{Reply, step, Op, pushes, pops, fifo_step, fifo_run, run, run_refines}
use cs.Queue.Shared.{mutual_exclusion, linearizable}
use cs.Queue.Shared.Moves.{
  locking, inside, ConcurrentQueue, update, new_concurrent_queue, arrive, lock, load, working,
  Reach, start, next,
}

-- A pop, then nine elements round the end of the buffer, which grows.
abbrev script : List (Op ℕ)
script =
    pushes 1
    ∷ pops
    ∷ pops
    ∷ pushes 2
    ∷ pushes 3
    ∷ pushes 4
    ∷ pushes 5
    ∷ pushes 6
    ∷ pushes 7
    ∷ pushes 8
    ∷ pushes 9
    ∷ pushes 10
    ∷ pops
    ∷ []

fifo_run-script : (fifo_run 0 script []).1 ≡ 3 ∷ 4 ∷ 5 ∷ 6 ∷ 7 ∷ 8 ∷ 9 ∷ 10 ∷ []
unfolding fifo_run fifo_step
fifo_run-script = refl

run_refines_example :
    (q : Queue ℕ) × (run 0 script (new_queue 0) ≡ some ((fifo_run 0 script []).0, q))
    × Holds q (fifo_run 0 script []).1
run_refines_example = run_refines 0 script

-- The queue after one push, as `push` leaves it.
abbrev one : Queue ℕ
one = (push-Holds 0 (new_queue 0) [] 7 (new_queue-Holds 0)).0

-- Goroutine 1 arrives with a push, and takes the mutex.
abbrev waiting : ConcurrentQueue ℕ
waiting = record (new_concurrent_queue 0) {
  pc = update (new_concurrent_queue {A = ℕ} 0).pc 1 (locking (pushes 7));
}

abbrev entered : ConcurrentQueue ℕ
entered = record waiting { mu = some 1; pc = update waiting.pc 1 (inside (pushes 7)) }

entered-Reach : Reach 0 entered
unfolding new_concurrent_queue
entered-Reach = next (next start (arrive 1 (pushes 7) refl refl)) (lock 1 (pushes 7) refl refl refl)

mutual_exclusion_example : ◌≡◌ {A = ℕ} 1 1
unfolding new_concurrent_queue
mutual_exclusion_example = mutual_exclusion 0 entered 1 1 entered-Reach tt tt

-- It has read the fields.
abbrev reading : ConcurrentQueue ℕ
reading = record entered { pc = update entered.pc 1 (working (pushes 7) entered.q) }

linearizable_example :
    ((fifo_run 0 (map (λ e. e.0) reading.history) []).0 ≡ map (λ e. e.1) reading.history)
    × Holds reading.q (fifo_run 0 (map (λ e. e.0) reading.history) []).1
    × ((i : ℕ) (o : Op ℕ) (q : Queue ℕ)
        → reading.pc i ≡ working o q
        → (r : Reply ℕ) × (q' : Queue ℕ) × (step 0 o q ≡ some (r, q')))
linearizable_example = linearizable 0 reading (next entered-Reach (load 1 (pushes 7) refl refl))
