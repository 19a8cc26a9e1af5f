-- ===== src/Harness/Logs.antt =====
-- `checkLogs`, `applier` and `nCommitted` of lab3/raft/config.go: the copies of the servers' committed
-- entries. A command is a number, and is compared as one;
-- an applier checks a message and reports what it found in one step.
pub mod Agree
pub mod Count
mod Tests
use cs.Base.{
  ℕ, zero, suc, ◌+◌, ◌-◌, Bool, true, false, not, ◌&&◌, Option, none, some, List, [], ◌∷◌,
}
use cs.Base.Tests.{if◌then◌else◌, ltb, ◌==◌}
use cs.Base.Range.{update, for_range}

pub record ApplyMsg : Type 0 where
  pub command_valid : Bool
  pub command : ℕ
  pub command_index : ℕ

-- `err_msg`: another server's value at the index, or a gap before it.
pub data ApplyError : Type 0 where
  differs : (index server value other old : ℕ) → ApplyError
  out_of_order : (server index : ℕ) → ApplyError

-- The part of `config` that the appliers share, for `n` servers: `logs`, a map for each server, and the
-- highest index. `stopped` is the error with which `log.Fatalf` ended the program.
pub record Logs : Type 0 where
  pub logs : ℕ → ℕ → Option ℕ
  pub max_index : ℕ
  pub stopped : Option ApplyError

pub new_logs : Logs
new_logs = record { logs = λ i k. none; max_index = 0; stopped = none }

abbrev pub has : {A : Type 0} → Option A → Bool
has none = false
has (some a) = true

-- The test of one server's entry against the new one: the error found last stays.
pub compare_entry : (i v index j : ℕ) → Option ℕ → Option ApplyError → Option ApplyError
compare_entry i v index j none err_msg = err_msg
compare_entry i v index j (some old) err_msg =
    if old == v then err_msg else some (differs index i v j old)

-- The loop over the servers.
pub check_entries : ℕ → ℕ → ApplyMsg → (ℕ → ℕ → Option ℕ) → Option ApplyError
unfolding compare_entry
check_entries n i m logs =
    for_range n
      (λ j err_msg. compare_entry i m.command m.command_index j (logs j m.command_index) err_msg)
      none

-- `cfg.logs[i][m.CommandIndex-1]`, where index zero has none before it.
pub previous : (ℕ → Option ℕ) → ℕ → Bool
previous log zero = false
previous log (suc index) = has (log index)

pub check_logs : ℕ → ℕ → ApplyMsg → Logs → (Option ApplyError × Bool) × Logs
unfolding check_entries previous
check_logs n i m s = (
  (check_entries n i m s.logs, previous (s.logs i) m.command_index),
  record s {
    logs = update s.logs i (update (s.logs i) m.command_index (some m.command));
    max_index = if ltb s.max_index m.command_index then m.command_index else s.max_index;
  },
)

-- What the applier makes of both results.
pub judge : ℕ → ℕ → Option ApplyError → Bool → Option ApplyError
judge i index err_msg prevok =
    if ltb 1 index && not prevok then some (out_of_order i index) else err_msg

-- One message of server `i`'s channel.
pub apply_valid : ℕ → ℕ → ApplyMsg → Logs → Logs
unfolding check_logs judge
apply_valid n i m s =
    let (r, s') = check_logs n i m s in record s' { stopped = judge i m.command_index r.0 r.1 }

-- Nothing runs after the program ended.
pub apply_at : Option ApplyError → Bool → ℕ → ℕ → ApplyMsg → Logs → Logs
unfolding apply_valid
apply_at (some e) valid n i m s = s
apply_at none false n i m s = s
apply_at none true n i m s = apply_valid n i m s

pub apply : ℕ → ℕ → ApplyMsg → Logs → Logs
unfolding apply_at
apply n i m s = apply_at s.stopped m.command_valid n i m s

-- The messages of all servers, in the order in which their appliers take the lock.
pub apply_all : ℕ → List (ℕ × ApplyMsg) → Logs → Logs
unfolding apply
apply_all n [] s = s
apply_all n ((i, m) ∷ msgs) s = apply_all n msgs (apply n i m s)

-- One server of `nCommitted`: none is the test's failure.
pub count_entry : Option ℕ → Option (ℕ × Option ℕ) → Option (ℕ × Option ℕ)
count_entry cmd1 none = none
count_entry none (some (count, cmd)) = some (count, cmd)
count_entry (some v) (some (zero, cmd)) = some (1, some v)
count_entry (some v) (some (suc count, none)) = none
count_entry (some v) (some (suc count, some cmd)) =
    if cmd == v then some (suc (suc count), some v) else none

-- How many servers have an entry at the index, and which.
pub n_committed : ℕ → ℕ → (ℕ → ℕ → Option ℕ) → Option (ℕ × Option ℕ)
unfolding count_entry
n_committed n index logs = for_range n (λ i r. count_entry (logs i index) r) (some (0, none))
