-- ===== src/Semaphore/Conserved.antt =====
-- What the counter of lab0/semaphore.go stands for.
use cs.Base.{ℕ, suc, ◌+◌, ◌^◌, ◌<◌, ◌≡◌, Bool, true, false, List, [], ◌∷◌, ◌∙◌, arith}
use cs.Semaphore.{
  Pc, idle, looping, acquired, cancelled, loaded, Event, posts, waits, cancels, turns, State,
  new_semaphore, post, compare_and_swap, wait_turn, step, run,
}

-- How often a schedule posts.
unfoldable pub count_posts : List Event → ℕ
count_posts [] = 0
count_posts (posts ∷ events) = suc (count_posts events)
count_posts (waits i ∷ events) = count_posts events
count_posts (cancels i ∷ events) = count_posts events
count_posts (turns i ∷ events) = count_posts events

-- A step of `Wait` takes from the counter what it grants.
wait_turn_keeps :
    (done : Bool) (p : Pc) (v : ℕ) → (wait_turn done p v).1 + (wait_turn done p v).2 ≡ v
unfolding wait_turn compare_and_swap
wait_turn_keeps done idle v = omega arith
wait_turn_keeps done acquired v = omega arith
wait_turn_keeps done cancelled v = omega arith
wait_turn_keeps true looping v = omega arith
wait_turn_keeps false looping v = omega arith
wait_turn_keeps done (loaded val) v = ground arith

run_keeps :
    (events : List Event) (s : State)
    → s.v + s.granted + count_posts events < 2 ^ 63
    → (run events s).v + (run events s).granted ≡ s.v + s.granted + count_posts events
unfolding run step post count_posts
run_keeps [] s h = omega arith
run_keeps (posts ∷ events) s h = run_keeps events (step posts s) (omega arith) ∙ omega arith
run_keeps (waits i ∷ events) s h = run_keeps events (step (waits i) s) h
run_keeps (cancels i ∷ events) s h = run_keeps events (step (cancels i) s) h
run_keeps (turns i ∷ events) s h =
    let k = wait_turn_keeps (s.ctx_done i) (s.pc i) s.v in
    run_keeps events (step (turns i) s) (omega (arith, k)) ∙ omega (arith, k)

-- Under every schedule with fewer than 2^63 posts, the counter and the waits that returned without an
-- error add up to the posts: no post is lost, and none is used twice.
pub run_conserved :
    (events : List Event)
    → count_posts events < 2 ^ 63
    → (run events new_semaphore).v + (run events new_semaphore).granted ≡ count_posts events
unfolding new_semaphore
run_conserved events h = run_keeps events new_semaphore (omega arith) ∙ omega arith
