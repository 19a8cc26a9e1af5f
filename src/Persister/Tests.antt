-- ===== src/Persister/Tests.antt =====
-- A slice that is written after its save, and a copy before the second save.
use cs.Base.{◌≡◌, refl, List, [], ◌∷◌, arith}
use cs.Persister.{
  new_heap, clone, own, allocate, write, make_persister, copy, save_raft_state,
  save_state_and_snapshot, read_raft_state, Action, news, writes, makes, copies, saves, saves_both,
  reads, act, act_all,
}
use cs.Persister.Apart.{new_heap-IsApart}
use cs.Persister.Apart.Values.{saved, save_all, AllUsing, act_all-saved}

abbrev two_saves : List Action
two_saves =
    news (1 ∷ 2 ∷ [])
    ∷ makes
    ∷ saves 0 1
    ∷ writes 1 (9 ∷ [])
    ∷ copies 0
    ∷ saves_both 0 1 1
    ∷ reads 1
    ∷ []

-- The copy has the contents of the first save.
old_contents :
    (act_all two_saves new_heap).arrays ((act_all two_saves new_heap).persisters 1).raft_state
    ≡ 1 ∷ 2 ∷ []
unfolding act_all act new_heap own allocate write clone save_raft_state save_state_and_snapshot copy
    make_persister read_raft_state
old_contents = refl

new_contents :
    (act_all two_saves new_heap).arrays ((act_all two_saves new_heap).persisters 0).raft_state
    ≡ 9 ∷ []
unfolding act_all act new_heap own allocate write clone save_raft_state save_state_and_snapshot copy
    make_persister read_raft_state
new_contents = refl

in_use : AllUsing two_saves new_heap
unfolding act new_heap own allocate write clone save_raft_state save_state_and_snapshot copy
    make_persister read_raft_state
in_use = (tt, (tt, (omega arith, (tt, (tt, ((omega arith, omega arith), (tt, tt)))))))

act_all-saved_example :
    saved (act_all two_saves new_heap) ≡ save_all two_saves new_heap (saved new_heap)
act_all-saved_example = act_all-saved two_saves new_heap in_use new_heap-IsApart
