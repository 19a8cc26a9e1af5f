-- ===== src/Harness/Saves/Isolated.antt =====
-- The persister of a restarted server of lab3/raft/config.go.
use cs.Base.{ℕ, suc, ◌<◌, ◌≡◌, ◌≢◌, refl, sym, ap, ap₂, subst, ◌∙◌, some, List, [], ◌∷◌, arith}
use cs.Base.Range.{update, update_self, update_other}
use cs.Persister.{
  Persister, clone, copy, make_persister, read_raft_state, read_snapshot, save_state_and_snapshot,
  own, Heap, Action, news, writes, makes, copies, saves, saves_both, reads, reads_snapshot, act,
  act_all,
}
use cs.Persister.Apart.{IsApart, act_all-IsApart}
use cs.Persister.Apart.Values.{
  value_of, Saved, saved, save_values, save_all, AllUsing, act_all-saved,
}
use cs.Harness.Saves.{Saves, copy_saved, renew, renew_saved, crash_saved, provide, start_saved}

-- No action saves into the persister.
abbrev pub Spares : ℕ → List Action → Type 0
Spares q [] = Unit
Spares q (saves p state ∷ actions) = (p ≢ q) × Spares q actions
Spares q (saves_both p state snapshot ∷ actions) = (p ≢ q) × Spares q actions
Spares q (news bytes ∷ actions) = Spares q actions
Spares q (writes a bytes ∷ actions) = Spares q actions
Spares q (makes ∷ actions) = Spares q actions
Spares q (copies p ∷ actions) = Spares q actions
Spares q (reads p ∷ actions) = Spares q actions
Spares q (reads_snapshot p ∷ actions) = Spares q actions

save_all-Spares :
    (q : ℕ) (actions : List Action) (h : Heap) (s : Saved)
    → Spares q actions
    → q < s.n_saved
    → (save_all actions h s).values q ≡ s.values q
unfolding save_all save_values
save_all-Spares q [] h s a l = refl
save_all-Spares q (saves p state ∷ actions) h s (n, a) l =
    save_all-Spares q actions (act (saves p state) h) (save_values h.arrays (saves p state) s) a l
    ∙ update_other s.values p q (h.arrays state, (s.values p).1) n
save_all-Spares q (saves_both p state snapshot ∷ actions) h s (n, a) l =
    save_all-Spares q actions (act (saves_both p state snapshot) h)
      (save_values h.arrays (saves_both p state snapshot) s) a l
    ∙ update_other s.values p q (h.arrays state, h.arrays snapshot) n
save_all-Spares q (news bytes ∷ actions) h s a l =
    save_all-Spares q actions (act (news bytes) h) s a l
save_all-Spares q (writes b bytes ∷ actions) h s a l =
    save_all-Spares q actions (act (writes b bytes) h) s a l
save_all-Spares q (makes ∷ actions) h s a l =
    save_all-Spares q actions (act makes h) (save_values h.arrays makes s) a (omega arith)
    ∙ update_other s.values s.n_saved q ([], []) (λ e. omega (arith, l, e))
save_all-Spares q (copies p ∷ actions) h s a l =
    save_all-Spares q actions (act (copies p) h) (save_values h.arrays (copies p) s) a (omega arith)
    ∙ update_other s.values s.n_saved q (s.values p) (λ e. omega (arith, l, e))
save_all-Spares q (reads p ∷ actions) h s a l = save_all-Spares q actions (act (reads p) h) s a l
save_all-Spares q (reads_snapshot p ∷ actions) h s a l =
    save_all-Spares q actions (act (reads_snapshot p) h) s a l

-- The calls of `start1` on the persister `p`, when there are `n` persisters and `next` is free.
abbrev restart : ℕ → ℕ → ℕ → List Action
restart p n next =
    copies p
    ∷ reads n
    ∷ reads_snapshot n
    ∷ makes
    ∷ saves_both (suc n) next (suc next)
    ∷ copies (suc n)
    ∷ []

start_saved-restart :
    (i p : ℕ) (s : Saves)
    → s.saved i ≡ some p
    → ((start_saved i s).heap ≡ act_all (restart p s.heap.n_persisters s.heap.next) s.heap)
      × ((start_saved i s).saved i ≡ some (suc (suc s.heap.n_persisters)))
unfolding start_saved crash_saved provide copy_saved renew_saved renew act_all act copy
    make_persister read_raft_state read_snapshot save_state_and_snapshot own clone
start_saved-restart i p s e =
    let n = s.heap.n_persisters in
    let copied = copy_saved i (some p) s in
    let renewed = renew i n copied in
    let known : start_saved i s ≡ copy_saved i (some (suc n)) renewed =
      ap
        (λ o.
          let a = copy_saved i o s in
          let b = renew_saved i (a.saved i) a in provide i (b.saved i) b)
        e
      ∙ ap (λ o. let b = renew_saved i o copied in provide i (b.saved i) b)
          (update_self s.saved i (some n))
      ∙ ap (λ o. provide i o renewed) (update_self copied.saved i (some (suc n))) in
    (
      ap (λ z. z.heap) known,
      ap (λ z. z.saved i) known ∙ update_self renewed.saved i (some (suc (suc n))),
    )

restart-AllUsing : (p : ℕ) (h : Heap) → AllUsing (restart p h.n_persisters h.next) h
unfolding act copy make_persister read_raft_state read_snapshot save_state_and_snapshot own clone
restart-AllUsing p h = (tt, (tt, (tt, (tt, ((omega arith, omega arith), (tt, tt))))))

-- The heap before the save.
abbrev before : ℕ → Heap → Heap
before p h =
    act_all (copies p ∷ reads h.n_persisters ∷ reads_snapshot h.n_persisters ∷ makes ∷ []) h

two_reads :
    (h : Heap) (u : Persister)
    → u.snapshot < h.next
    → ◌≡◌ {A = List ℕ × List ℕ}
        (
          update
              (update h.arrays h.next (h.arrays u.raft_state))
              (suc h.next)
              (update h.arrays h.next (h.arrays u.raft_state) u.snapshot)
              h.next,
          update
              (update h.arrays h.next (h.arrays u.raft_state))
              (suc h.next)
              (update h.arrays h.next (h.arrays u.raft_state) u.snapshot)
              (suc h.next),
        )
        (h.arrays u.raft_state, h.arrays u.snapshot)
two_reads h u l =
    let one = update h.arrays h.next (h.arrays u.raft_state) in
    ap₂ (λ a b. (a, b))
      (update_other one (suc h.next) h.next (one u.snapshot) (λ e. omega (arith, e))
        ∙ update_self h.arrays h.next (h.arrays u.raft_state))
      (update_self one (suc h.next) (one u.snapshot)
        ∙ update_other h.arrays h.next u.snapshot (h.arrays u.raft_state)
            (λ e. omega (arith, l, e)))

before_contents :
    (p : ℕ) (h : Heap)
    → IsApart h
    → ◌≡◌ {A = List ℕ × List ℕ}
        ((before p h).arrays h.next, (before p h).arrays (suc h.next))
        ((saved h).values p)
unfolding act_all act copy make_persister read_raft_state read_snapshot own clone saved value_of
before_contents p h v =
    let copied = update_self h.persisters h.n_persisters (h.persisters p) in
    two_reads h (update h.persisters h.n_persisters (h.persisters p) h.n_persisters)
      (subst (λ z. z.snapshot < h.next) (sym copied) (v.kept_snapshot p).0)
    ∙ ap (value_of h.arrays) copied

-- What the new instance is given.
restart_value :
    (p : ℕ) (h : Heap)
    → IsApart h
    → (saved (act_all (restart p h.n_persisters h.next) h)).values (suc (suc h.n_persisters))
      ≡ (saved h).values p
unfolding save_all save_values saved act act_all
restart_value p h v =
    let n = h.n_persisters in
    let one = update (saved h).values n ((saved h).values p) in
    let two = update one (suc n) ([], []) in
    let b = before p h in
    let three = update two (suc n) (b.arrays h.next, b.arrays (suc h.next)) in
    ap (λ z. z.values (suc (suc n))) (act_all-saved (restart p n h.next) h (restart-AllUsing p h) v)
    ∙ update_self three (suc (suc n)) (three (suc n))
    ∙ update_self two (suc n) (b.arrays h.next, b.arrays (suc h.next))
    ∙ before_contents p h v

restart_count :
    (p : ℕ) (h : Heap)
    → (act_all (restart p h.n_persisters h.next) h).n_persisters ≡ suc (suc (suc h.n_persisters))
unfolding act_all act copy make_persister read_raft_state read_snapshot save_state_and_snapshot own
    clone
restart_count p h = refl

in_range : (h : Heap) (q : ℕ) → q < h.n_persisters → q < (saved h).n_saved
unfolding saved
in_range h q l = l

-- A server that is crashed and started again is given a new persister with the contents of its old one, and no later action that
-- saves into another persister, as the old instance's saves do, changes these contents.
pub start_saved-Spares :
    (i p : ℕ) (s : Saves) (actions : List Action)
    → s.saved i ≡ some p
    → IsApart s.heap
    → AllUsing actions (start_saved i s).heap
    → Spares (suc (suc s.heap.n_persisters)) actions
    → ((start_saved i s).saved i ≡ some (suc (suc s.heap.n_persisters)))
      × ((saved (act_all actions (start_saved i s).heap)).values (suc (suc s.heap.n_persisters))
          ≡ (saved s.heap).values p)
start_saved-Spares i p s actions e v u a =
    let n = s.heap.n_persisters in
    let given = start_saved i s in
    let (h, k) = start_saved-restart i p s e in
    let apart = subst IsApart (sym h) (act_all-IsApart (restart p n s.heap.next) s.heap v) in
    let count = ap (λ z. z.n_persisters) h ∙ restart_count p s.heap in
    (
      k,
      ap (λ z. z.values (suc (suc n))) (act_all-saved actions given.heap u apart)
          ∙ save_all-Spares (suc (suc n)) actions given.heap (saved given.heap) a
              (in_range given.heap (suc (suc n)) (omega (arith, count)))
          ∙ ap (λ z. (saved z).values (suc (suc n))) h
          ∙ restart_value p s.heap v,
    )
