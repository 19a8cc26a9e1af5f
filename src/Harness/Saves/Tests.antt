-- ===== src/Harness/Saves/Tests.antt =====
-- A restart while the old instance goes on saving.
use cs.Base.{suc, ◌≡◌, refl, some, List, [], ◌∷◌, arith}
use cs.Persister.{
  new_heap, clone, own, allocate, write, make_persister, copy, save_raft_state,
  save_state_and_snapshot, read_raft_state, read_snapshot, Action, news, writes, makes, saves, act,
  act_all,
}
use cs.Persister.Apart.{new_heap-IsApart, act_all-IsApart}
use cs.Persister.Apart.Values.{saved, AllUsing}
use cs.Harness.Saves.{Saves, copy_saved, renew, renew_saved, crash_saved, provide, start_saved}
use cs.Harness.Saves.Isolated.{Spares, start_saved-Spares}

-- Server 0 has saved two bytes.
abbrev first_run : List Action
first_run = makes ∷ news (1 ∷ 2 ∷ []) ∷ saves 0 1 ∷ []

abbrev one_saved : Saves
one_saved = record { heap = act_all first_run new_heap; saved = λ i. some 0 }

-- The old instance's next save.
abbrev late_save : List Action
late_save = writes 1 (9 ∷ []) ∷ saves 0 1 ∷ []

-- The number of the next persister is one.
one_persister : one_saved.heap.n_persisters ≡ 1
unfolding act_all act new_heap own allocate write clone save_raft_state make_persister
one_persister = refl

in_use : AllUsing late_save (start_saved 0 one_saved).heap
unfolding start_saved crash_saved provide copy_saved renew_saved renew act_all act new_heap own
    allocate write clone save_raft_state save_state_and_snapshot copy make_persister read_raft_state
    read_snapshot
in_use = (tt, (omega arith, tt))

spared : Spares (suc (suc one_saved.heap.n_persisters)) late_save
spared = (λ e. omega (arith, e), tt)

start_saved-Spares_example :
    ((start_saved 0 one_saved).saved 0 ≡ some (suc (suc one_saved.heap.n_persisters)))
    × ((saved (act_all late_save (start_saved 0 one_saved).heap)).values
          (suc (suc one_saved.heap.n_persisters))
        ≡ (saved one_saved.heap).values 0)
start_saved-Spares_example =
    start_saved-Spares 0 0 one_saved late_save refl
      (act_all-IsApart first_run new_heap new_heap-IsApart) in_use spared
