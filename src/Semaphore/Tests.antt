-- ===== src/Semaphore/Tests.antt =====
-- The semaphore at work.
use cs.Base.{◌+◌, ◌<◌, ◌≡◌, refl, true, false, List, [], ◌∷◌, arith}
use cs.Semaphore.{
  looping, acquired, cancelled, Event, posts, waits, cancels, turns, State, new_semaphore, run,
  step, post, wait_turn, compare_and_swap,
}
use cs.Semaphore.Conserved.{count_posts, run_conserved}
use cs.Semaphore.Alone.{run_alone}

-- Two waiters load the same value; the second finds it changed.
abbrev race : List Event
race =
    posts
    ∷ waits 1
    ∷ waits 2
    ∷ turns 1
    ∷ turns 2
    ∷ turns 1
    ∷ turns 2
    ∷ posts
    ∷ cancels 2
    ∷ turns 2
    ∷ []

run-race : ((run race new_semaphore).pc 1 ≡ acquired) × ((run race new_semaphore).pc 2 ≡ cancelled)
unfolding run step post wait_turn compare_and_swap new_semaphore
run-race = (refl, refl)

run_conserved_example :
    (run race new_semaphore).v + (run race new_semaphore).granted ≡ count_posts race
unfolding count_posts
run_conserved_example = run_conserved race (omega arith)

abbrev stocked : State
stocked = record { v = 3; pc = λ i. looping; ctx_done = λ i. false; granted = 0 }

run_alone_example :
    (stocked.ctx_done 4 ≡ true
      → ((run (turns 4 ∷ turns 4 ∷ []) stocked).pc 4 ≡ cancelled)
        × ((run (turns 4 ∷ turns 4 ∷ []) stocked).v ≡ 3))
    × (stocked.ctx_done 4 ≡ false
        → 0 < 3
        → ((run (turns 4 ∷ turns 4 ∷ []) stocked).pc 4 ≡ acquired)
          × ((run (turns 4 ∷ turns 4 ∷ []) stocked).v + 1 ≡ 3))
    × (stocked.ctx_done 4 ≡ false
        → stocked.v ≡ 0
        → ((run (turns 4 ∷ turns 4 ∷ []) stocked).pc 4 ≡ looping)
          × ((run (turns 4 ∷ turns 4 ∷ []) stocked).v ≡ 0))
run_alone_example = run_alone 4 stocked refl (omega arith)
