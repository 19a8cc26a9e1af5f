-- ===== src/Queue/Run.antt =====
-- Sequences of calls on the queue of lab0/queue.go, against the same calls on a plain list.
use cs.Base.{◌≡◌, refl, Bool, true, false, Option, none, some, List, [], ◌∷◌, ◌++◌}
use cs.Queue.{Queue, new_queue, push, pop, ◌>>=◌}
use cs.Queue.Valid.{Holds, new_queue-Holds}
use cs.Queue.Fifo.{push-Holds, pop-Holds, pop-empty}

-- A call, and what it returns.
pub data Op (A : Type 0) : Type 0 where
  pushes : A → Op A
  pops : Op A

pub data Reply (A : Type 0) : Type 0 where
  pushed : Reply A
  popped : A → Bool → Reply A

-- The list that a client has in mind: the oldest element first.
unfoldable pub fifo_step : {A : Type 0} → A → Op A → List A → Reply A × List A
fifo_step dflt (pushes t) xs = (pushed, xs ++ t ∷ [])
fifo_step dflt pops [] = (popped dflt false, [])
fifo_step dflt pops (x ∷ xs) = (popped x true, xs)

unfoldable pub fifo_run : {A : Type 0} → A → List (Op A) → List A → List (Reply A) × List A
unfolding fifo_step
fifo_run dflt [] xs = ([], xs)
fifo_run dflt (o ∷ ops) xs =
    let (r, xs') = fifo_step dflt o xs in let (rs, left) = fifo_run dflt ops xs' in (r ∷ rs, left)

module _ {A : Type 0} (dflt : A) where
  pub fifo_run-nil : (xs : List A) → fifo_run dflt [] xs ≡ ([], xs)
  unfolding fifo_run
  fifo_run-nil xs = refl

  -- One more call at the end of a run.
  pub fifo_run-snoc :
      (ops : List (Op A)) (o : Op A) (xs : List A)
      → fifo_run dflt (ops ++ o ∷ []) xs ≡ (
        (fifo_run dflt ops xs).0 ++ (fifo_step dflt o (fifo_run dflt ops xs).1).0 ∷ [],
        (fifo_step dflt o (fifo_run dflt ops xs).1).1,
      )
  unfolding fifo_run
  fifo_run-snoc [] o xs = refl
  fifo_run-snoc (p ∷ ops) o xs = rw (fifo_run-snoc ops o (fifo_step dflt p xs).1)

  pub step : Op A → Queue A → Option (Reply A × Queue A)
  step (pushes t) q = do q' ← push dflt q t; some (pushed, q')
  step pops q = elim (pop dflt q) [ none ↦ none | some ((a, b), q') ↦ some (popped a b, q') ]

  -- The calls in order; `none` if one of them panics.
  pub run : List (Op A) → Queue A → Option (List (Reply A) × Queue A)
  unfolding step
  run [] q = some ([], q)
  run (o ∷ ops) q = elim (step o q) [
    | none ↦ none
    | some (r, q') ↦ elim (run ops q') [ none ↦ none | some (rs, q'') ↦ some (r ∷ rs, q'') ]
  ]

  -- One call on a queue that holds `xs` does what it does to the list.
  pub step-Holds :
      (o : Op A) (q : Queue A) (xs : List A)
      → Holds q xs
      → (q' : Queue A) × (step o q ≡ some ((fifo_step dflt o xs).0, q'))
        × Holds q' (fifo_step dflt o xs).1
  unfolding step fifo_step
  step-Holds (pushes t) q xs h = let r = push-Holds dflt q xs t h in (r.0, rw (r.1, step), r.2)
  step-Holds pops q [] h = (q, rw (pop-empty dflt q h, step), h)
  step-Holds pops q (x ∷ xs) h = let r = pop-Holds dflt q x xs h in (r.0, rw (r.1, step), r.2)

  pub run-Holds :
      (ops : List (Op A)) (q : Queue A) (xs : List A)
      → Holds q xs
      → (q' : Queue A) × (run ops q ≡ some ((fifo_run dflt ops xs).0, q'))
        × Holds q' (fifo_run dflt ops xs).1
  unfolding run fifo_run
  run-Holds [] q xs h = (q, refl, h)
  run-Holds (o ∷ ops) q xs h =
      let s = step-Holds o q xs h in
      let r = run-Holds ops s.0 (fifo_step dflt o xs).1 s.2 in
      (r.0, rw (s.1, run) (rw (r.1, run)), r.2)

  -- Any calls on a new queue run without a panic, return what they return on a plain FIFO list that
  -- starts empty, and leave a valid queue that holds what that list holds.
  pub run_refines :
      (ops : List (Op A))
      → (q : Queue A) × (run ops (new_queue dflt) ≡ some ((fifo_run dflt ops []).0, q))
        × Holds q (fifo_run dflt ops []).1
  run_refines ops = run-Holds ops (new_queue dflt) [] (new_queue-Holds dflt)
