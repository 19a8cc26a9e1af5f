-- ===== src/Harness/Logs/Tests.antt =====
-- Three servers whose appliers see two entries.
use cs.Base.{ℕ, ◌<◌, ◌≡◌, refl, true, Option, none, some, List, [], ◌∷◌, arith}
use cs.Base.All.{All}
use cs.Harness.Logs.{
  ApplyMsg, differs, out_of_order, new_logs, compare_entry, check_entries, previous, check_logs,
  judge, apply_valid, apply_at, apply, apply_all, n_committed, count_entry,
}
use cs.Harness.Logs.Agree.{Consistent, apply_all-Consistent, new_logs-Consistent}
use cs.Harness.Logs.Count.{n_holders, n_committed-apply_all}

abbrev message : ℕ → ℕ → ApplyMsg
message v index = record { command_valid = true; command = v; command_index = index }

-- The second server lags behind; the third has nothing.
abbrev two_entries : List (ℕ × ApplyMsg)
two_entries = (0, message 100 1) ∷ (1, message 100 1) ∷ (0, message 200 2) ∷ []

-- Server 2 has another value at index 1.
conflict :
    (apply_all 3 ((2, message 101 1) ∷ []) (apply_all 3 two_entries new_logs)).stopped
    ≡ some (differs 1 2 101 1 100)
unfolding apply_all apply apply_at apply_valid check_logs check_entries compare_entry judge new_logs
    previous
conflict = refl

-- Server 2 starts at index 2.
gap :
    (apply_all 3
      ((2, message 200 2) ∷ (1, message 200 2) ∷ [])
      (apply_all 3 two_entries new_logs)).stopped
    ≡ some (out_of_order 2 2)
unfolding apply_all apply apply_at apply_valid check_logs check_entries compare_entry judge new_logs
    previous
gap = refl

counted : n_committed 3 1 (apply_all 3 two_entries new_logs).logs ≡ some (2, some 100)
unfolding apply_all apply apply_at apply_valid check_logs check_entries compare_entry judge new_logs
    previous n_committed count_entry
counted = refl

quiet : (apply_all 3 two_entries new_logs).stopped ≡ none
unfolding apply_all apply apply_at apply_valid check_logs check_entries compare_entry judge new_logs
    previous
quiet = refl

of_three : All {A = ℕ × ApplyMsg} (λ im. im.0 < 3) two_entries
of_three = (omega arith, (omega arith, (omega arith, tt)))

apply_all-Consistent_example : Consistent 3 (apply_all 3 two_entries new_logs)
apply_all-Consistent_example =
    apply_all-Consistent 3 two_entries new_logs of_three (new_logs-Consistent 3) quiet

n_committed-apply_all_example :
    (cmd : Option ℕ) × (n_committed 3 1 (apply_all 3 two_entries new_logs).logs
      ≡ some (n_holders 3 1 (apply_all 3 two_entries new_logs).logs, cmd))
    × ((j w : ℕ) → j < 3 → (apply_all 3 two_entries new_logs).logs j 1 ≡ some w → cmd ≡ some w)
n_committed-apply_all_example = n_committed-apply_all 3 1 two_entries of_three quiet
