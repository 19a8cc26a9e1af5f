-- ===== src/Semaphore/Alone.antt =====
-- One waiter of lab0/semaphore.go that runs while the others pause.
use cs.Base.{ℕ, ◌+◌, ◌-◌, ◌^◌, ◌<◌, ◌≡◌, refl, Bool, true, false, [], ◌∷◌, arith}
use cs.Base.Tests.{◌==◌, ==_iff, lt→ltb}
use cs.Semaphore.{
  looping, acquired, cancelled, loaded, turns, State, compare_and_swap, wait_turn, step, run,
}

itself : (i : ℕ) → (i == i) ≡ true
itself i = (==_iff i i).1 refl

wait_turn-loaded :
    (done : Bool) (v : ℕ) → 0 < v → v < 2 ^ 63 → wait_turn done (loaded v) v ≡ (acquired, v - 1, 1)
unfolding wait_turn compare_and_swap
wait_turn-loaded done v p h = rw (lt→ltb 0 v p, lt→ltb v (2 ^ 63) h, itself v) refl

-- From the top of the loop two steps are enough: with its context done the wait has returned its
-- error and left the counter alone; otherwise it has taken one from a counter above zero, and is
-- back at the top of its loop, with nothing changed, if there is none to take.
pub run_alone :
    (i : ℕ) (s : State)
    → s.pc i ≡ looping
    → s.v < 2 ^ 63
    → let t = run (turns i ∷ turns i ∷ []) s in
      (s.ctx_done i ≡ true → (t.pc i ≡ cancelled) × (t.v ≡ s.v))
      × (s.ctx_done i ≡ false → 0 < s.v → (t.pc i ≡ acquired) × (t.v + 1 ≡ s.v))
      × (s.ctx_done i ≡ false → s.v ≡ 0 → (t.pc i ≡ looping) × (t.v ≡ 0))
unfolding run step wait_turn compare_and_swap
run_alone i s p h = (
  λ d. (rw (itself i, p, d) refl, rw (itself i, p, d) refl),
  λ d k. (
    rw (itself i, p, d, wait_turn-loaded false s.v k h) refl,
    rw (itself i, p, d, wait_turn-loaded false s.v k h) (omega arith),
  ),
  λ d z. (rw (itself i, p, d, z) refl, rw (itself i, p, d, z) refl),
)
