-- ===== src/Merge/Tests.antt =====
-- Two channels, and two fetchers, merged.
use cs.Base.{ℕ, ◌<◌, ◌≡◌, refl, ◌⊎◌, ◌≢◌, true, false, List, [], ◌∷◌}
use cs.Merge.{
  Side, left, right, Event, sends, closes, receives, delivers, new_merge, run, step, step_at,
  send_to, receive, receive_case, receive_end, after_round, returned,
}
use cs.Merge.Flow.{IsMerge, Flows}
use cs.Merge.Channels.{run_merges}
use cs.Merge.Ends.{IsOwn, measure, step_ends}
use cs.Merge.Cancel.{
  CancelEvent, merges, ctx_ends, cancels, new_cancellable, cancel_run, cancel_step, cancel_at,
  HasReturned, cancel_run_returns,
}
use cs.Merge.Fetches.{
  FetchEvent, turns, start_fetches, fetch_run, fetch_step, turn, fetch, write, close_at,
}
use cs.Merge.Fetches.Written.{fetch_run_merges}

abbrev script : List (Event ℕ)
script =
    sends left 1
    ∷ sends left 2
    ∷ sends right 9
    ∷ closes right
    ∷ receives right
    ∷ delivers
    ∷ receives right
    ∷ receives left
    ∷ delivers
    ∷ receives left
    ∷ delivers
    ∷ closes left
    ∷ receives left
    ∷ []

run-script : ((run script new_merge).out ≡ 9 ∷ 1 ∷ 2 ∷ []) × ((run script new_merge).pc ≡ returned)
unfolding run step step_at send_to receive receive_case receive_end after_round new_merge
run-script = (refl, refl)

run_merges_example :
    Flows (run script new_merge)
    × ((run script new_merge).pc ≡ returned
        → IsMerge (λ c. ((run script new_merge).input c).sent) (run script new_merge).out
          × ((c : Side) → ((run script new_merge).input c).closed ≡ true))
run_merges_example = run_merges script

step_ends_example :
    let s = run script new_merge in
    ((e : Event ℕ) → IsOwn e → (step e s ≡ s) ⊎ (measure (step e s) < measure s))
    × (((c : Side) → (s.input c).closed ≡ true)
        → s.pc ≢ returned
        → (e : Event ℕ) × IsOwn e × (measure (step e s) < measure s))
step_ends_example = step_ends script

-- The context ends with one value waiting.
abbrev cut_short : List (CancelEvent ℕ)
cut_short =
    merges (sends left 1)
    ∷ merges (sends left 2)
    ∷ merges (receives left)
    ∷ ctx_ends
    ∷ cancels
    ∷ merges delivers
    ∷ cancels
    ∷ []

cut_short-returned : (cancel_run cut_short new_cancellable).merge.pc ≡ returned
unfolding cancel_run cancel_step cancel_at new_cancellable step step_at send_to receive receive_case
    receive_end after_round new_merge
cut_short-returned = refl

cancel_run_returns_example :
    HasReturned (cancel_run cut_short new_cancellable) (cancel_run cut_short new_cancellable).error
cancel_run_returns_example = cancel_run_returns cut_short cut_short-returned

abbrev items : Side → List ℕ
items left = 1 ∷ 2 ∷ []
items right = 9 ∷ []

abbrev fetch_script : List FetchEvent
fetch_script =
    turns left
    ∷ turns right
    ∷ turns right
    ∷ turns right
    ∷ turns left
    ∷ turns left
    ∷ turns left
    ∷ turns left
    ∷ FetchEvent.closes
    ∷ []

fetch_run-script :
    ((fetch_run fetch_script (start_fetches items)).out ≡ 9 ∷ 1 ∷ 2 ∷ [])
    × ((fetch_run fetch_script (start_fetches items)).closed ≡ true)
unfolding fetch_run fetch_step turn fetch write close_at start_fetches
fetch_run-script = (refl, refl)

fetch_run_merges_example :
    ((fetch_run fetch_script (start_fetches items)).panicked ≡ false)
    × ((fetch_run fetch_script (start_fetches items)).closed ≡ true
        → IsMerge items (fetch_run fetch_script (start_fetches items)).out)
fetch_run_merges_example = fetch_run_merges items fetch_script
