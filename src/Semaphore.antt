-- ===== src/Semaphore.antt =====
-- lab0/semaphore.go: the counting semaphore whose waiters poll an atomic counter. A schedule is a list
-- of events: one of them is one atomic step of one goroutine, or the end of a context. The 64 bits
-- of the counter are a number below 2^64, in two's complement.
pub mod Conserved
pub mod Alone
mod Tests
use cs.Base.{ℕ, suc, ◌+◌, ◌-◌, ◌%◌, ◌^◌, Bool, true, false, ◌&&◌, List, [], ◌∷◌}
use cs.Base.Tests.{if◌then◌else◌, ltb, ◌==◌}

-- Where a goroutine stands in `Wait`: at the top of its loop, with a loaded value, or returned.
pub data Pc : Type 0 where
  idle looping acquired cancelled : Pc
  loaded : ℕ → Pc

pub data Event : Type 0 where
  posts : Event
  waits cancels turns : ℕ → Event

-- `v` is the semaphore's counter. `ctx_done` are the contexts of the waiters; `granted` counts the
-- waits that returned nil, and no step reads it.
pub record State : Type 0 where
  pub v : ℕ
  pub pc : ℕ → Pc
  pub ctx_done : ℕ → Bool
  pub granted : ℕ

pub new_semaphore : State
new_semaphore = record { v = 0; pc = λ i. idle; ctx_done = λ i. false; granted = 0 }

-- `val > 0` of a signed number.
abbrev pub positive : ℕ → Bool
positive val = ltb 0 val && ltb val (2 ^ 63)

pub post : ℕ → ℕ
post v = (v + 1) % 2 ^ 64

-- `CompareAndSwap(val, val-1)`, and the way out of the loop if it swapped: the place, the counter, and
-- how many waits returned.
pub compare_and_swap : ℕ → ℕ → Pc × ℕ × ℕ
compare_and_swap v val = if v == val then (acquired, val - 1, 1) else (looping, v, 0)

-- The next atomic step of `Wait`.
pub wait_turn : Bool → Pc → ℕ → Pc × ℕ × ℕ
unfolding compare_and_swap
wait_turn done idle v = (idle, v, 0)
wait_turn done acquired v = (acquired, v, 0)
wait_turn done cancelled v = (cancelled, v, 0)
wait_turn true looping v = (cancelled, v, 0)
wait_turn false looping v = (loaded v, v, 0)
wait_turn done (loaded val) v = if positive val then compare_and_swap v val else (looping, v, 0)

abbrev pub update {ℓ} : {B : Type ℓ} → (ℕ → B) → ℕ → B → ℕ → B
update f i b j = if i == j then b else f j

pub step : Event → State → State
unfolding post wait_turn
step posts s = record s { v = post s.v }
step (waits i) s = record s { pc = update s.pc i looping }
step (cancels i) s = record s { ctx_done = update s.ctx_done i true }
step (turns i) s =
    let t = wait_turn (s.ctx_done i) (s.pc i) s.v in
    record s { pc = update s.pc i t.0; v = t.1; granted = s.granted + t.2 }

pub run : List Event → State → State
unfolding step
run [] s = s
run (e ∷ events) s = run events (step e s)
