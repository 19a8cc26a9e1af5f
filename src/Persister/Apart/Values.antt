-- ===== src/Persister/Apart/Values.antt =====
-- lab3/raft/persister.go as a store of values.
use cs.Base.{
  ℕ, suc, ◌<◌, ◌≡◌, refl, ap, ap₂, ◌∙◌, inl, inr, Bool, true, false, List, [], ◌∷◌, arith,
}
use mathlib.Core.Path.{fun_ext}
use cs.Base.Tests.{◌==◌, Bool-cases}
use cs.Base.Range.{update, update_self, update_other}
use cs.Persister.{
  Persister, Heap, clone, own, allocate, write, make_persister, copy, save_raft_state,
  save_state_and_snapshot, read_raft_state, read_snapshot, Action, news, writes, makes, copies,
  saves, saves_both, reads, reads_snapshot, act, act_all,
}
use cs.Persister.Apart.{IsKept, IsApart, not_kept, allocate-IsApart, act-IsApart}

-- The state and the snapshot of every persister.
pub record Saved : Type 0 where
  pub values : ℕ → List ℕ × List ℕ
  pub n_saved : ℕ

unfoldable pub value_of : (ℕ → List ℕ) → Persister → List ℕ × List ℕ
value_of arrays s = (arrays s.raft_state, arrays s.snapshot)

-- What a heap saves.
unfoldable pub saved : Heap → Saved
unfolding value_of
saved h = record { values = λ p. value_of h.arrays (h.persisters p); n_saved = h.n_persisters }

-- What an action means, with the contents of the callers' slices: a save keeps the contents of that moment, a copy is a persister of
-- its own, and nothing else changes what is saved.
unfoldable pub save_values : (ℕ → List ℕ) → Action → Saved → Saved
save_values contents makes s = record {
  values = update s.values s.n_saved ([], []);
  n_saved = suc s.n_saved;
}
save_values contents (copies p) s = record {
  values = update s.values s.n_saved (s.values p);
  n_saved = suc s.n_saved;
}
save_values contents (saves p state) s = record s {
  values = update s.values p (contents state, (s.values p).1);
}
save_values contents (saves_both p state snapshot) s = record s {
  values = update s.values p (contents state, contents snapshot);
}
save_values contents (news bytes) s = s
save_values contents (writes a bytes) s = s
save_values contents (reads p) s = s
save_values contents (reads_snapshot p) s = s

unfoldable pub save_all : List Action → Heap → Saved → Saved
save_all [] h s = s
save_all (a ∷ actions) h s = save_all actions (act a h) (save_values h.arrays a s)

-- One persister's slices are set, and the others' have their values.
set_value :
    (arrays arrays' : ℕ → List ℕ) (f : ℕ → Persister) (p : ℕ) (s : Persister)
    (value : List ℕ × List ℕ) (q : ℕ)
    → value_of arrays' s ≡ value
    → value_of arrays' (f q) ≡ value_of arrays (f q)
    → value_of arrays' (update f p s q) ≡ update (λ r. value_of arrays (f r)) p value q
set_value arrays arrays' f p s value q new old = elim (Bool-cases (p == q)) [
  | inl t ↦ rw t new
  | inr e ↦ rw e old
]

-- A new array changes no value.
new_array :
    (h : Heap) (bytes : List ℕ) (p : ℕ)
    → IsApart h
    → value_of (update h.arrays h.next bytes) (h.persisters p) ≡ value_of h.arrays (h.persisters p)
unfolding value_of
new_array h bytes p v =
    ap₂ (λ a b. (a, b)) (other (h.persisters p).raft_state (v.kept_state p))
      (other (h.persisters p).snapshot (v.kept_snapshot p))
  where
    other : (a : ℕ) → IsKept h a → update h.arrays h.next bytes a ≡ h.arrays a
    other a (l, f) = update_other h.arrays h.next a bytes (λ e. omega (arith, l, e))

write_value :
    (b : Bool) (h : Heap) (a : ℕ) (bytes : List ℕ) (p : ℕ)
    → h.owned a ≡ b
    → IsApart h
    → value_of (write b a bytes h).arrays ((write b a bytes h).persisters p)
      ≡ value_of h.arrays (h.persisters p)
unfolding value_of write
write_value false h a bytes p t v = refl
write_value true h a bytes p t v =
    ap₂ (λ x y. (x, y)) (other (h.persisters p).raft_state (v.kept_state p))
      (other (h.persisters p).snapshot (v.kept_snapshot p))
  where
    other : (x : ℕ) → IsKept h x → update h.arrays a bytes x ≡ h.arrays x
    other x k = update_other h.arrays a x bytes (not_kept h a x t k)

-- A save's arrays.
cloned :
    (h : Heap) (state : ℕ) (a : ℕ)
    → a < h.next
    → update h.arrays h.next (h.arrays state) a ≡ h.arrays a
cloned h state a l = update_other h.arrays h.next a (h.arrays state) (λ e. omega (arith, l, e))

save_value :
    (h : Heap) (q state p : ℕ)
    → IsApart h
    → (saved (save_raft_state q state h)).values p
      ≡ (save_values h.arrays (saves q state) (saved h)).values p
unfolding saved save_values save_raft_state clone value_of
save_value h q state p v =
    set_value h.arrays (update h.arrays h.next (h.arrays state)) h.persisters q
      (record (h.persisters q) { raft_state = h.next })
      (h.arrays state, h.arrays (h.persisters q).snapshot) p
      (ap₂ (λ a b. (a, b)) (update_self h.arrays h.next (h.arrays state))
        (cloned h state (h.persisters q).snapshot (v.kept_snapshot q).0))
      (new_array h (h.arrays state) p v)

save_both_value :
    (h : Heap) (q state snapshot p : ℕ)
    → snapshot < h.next
    → IsApart h
    → (saved (save_state_and_snapshot q state snapshot h)).values p
      ≡ (save_values h.arrays (saves_both q state snapshot) (saved h)).values p
unfolding saved save_values save_state_and_snapshot clone value_of allocate
save_both_value h q state snapshot p l v =
    let h' = (allocate (h.arrays state) h).1 in
    let v' = allocate-IsApart (h.arrays state) h v in
    let here = cloned h state snapshot l in
    set_value h.arrays (update h'.arrays h'.next (h'.arrays snapshot)) h.persisters q
      (record { raft_state = h.next; snapshot = suc h.next }) (h.arrays state, h.arrays snapshot) p
      (ap₂ (λ a b. (a, b))
        (cloned h' snapshot h.next (omega arith) ∙ update_self h.arrays h.next (h.arrays state))
        (update_self h'.arrays h'.next (h'.arrays snapshot) ∙ here))
      (new_array h' (h'.arrays snapshot) p v' ∙ new_array h (h.arrays state) p v)

-- The callers' slices that an action reads are in use.
abbrev pub IsUsing : Action → Heap → Type 0
IsUsing (saves p state) h = state < h.next
IsUsing (saves_both p state snapshot) h = (state < h.next) × (snapshot < h.next)
IsUsing (news bytes) h = Unit
IsUsing (writes a bytes) h = Unit
IsUsing makes h = Unit
IsUsing (copies p) h = Unit
IsUsing (reads p) h = Unit
IsUsing (reads_snapshot p) h = Unit

abbrev pub AllUsing : List Action → Heap → Type 0
AllUsing [] h = Unit
AllUsing (a ∷ actions) h = IsUsing a h × AllUsing actions (act a h)

nil_value :
    (h : Heap) → IsApart h → value_of h.arrays (record { raft_state = 0; snapshot = 0 }) ≡ ([], [])
unfolding value_of
nil_value h v = ap₂ (λ a b. (a, b)) v.nil_empty v.nil_empty

act_value :
    (a : Action) (h : Heap) (p : ℕ)
    → IsUsing a h
    → IsApart h
    → (saved (act a h)).values p ≡ (save_values h.arrays a (saved h)).values p
unfolding act saved save_values own allocate clone read_raft_state read_snapshot copy make_persister
act_value (news bytes) h p u v = new_array h bytes p v
act_value (writes a bytes) h p u v = write_value (h.owned a) h a bytes p refl v
act_value makes h p u v =
    set_value h.arrays h.arrays h.persisters h.n_persisters
      (record { raft_state = 0; snapshot = 0 }) ([], []) p (nil_value h v) refl
act_value (copies q) h p u v =
    set_value h.arrays h.arrays h.persisters h.n_persisters (h.persisters q)
      (value_of h.arrays (h.persisters q)) p refl refl
act_value (saves q state) h p u v = save_value h q state p v
act_value (saves_both q state snapshot) h p (u, u') v = save_both_value h q state snapshot p u' v
act_value (reads q) h p u v = new_array h (h.arrays (h.persisters q).raft_state) p v
act_value (reads_snapshot q) h p u v = new_array h (h.arrays (h.persisters q).snapshot) p v

act_count :
    (a : Action) (h : Heap) → (saved (act a h)).n_saved ≡ (save_values h.arrays a (saved h)).n_saved
unfolding act saved save_values own allocate clone read_raft_state read_snapshot copy make_persister
    save_raft_state save_state_and_snapshot write
act_count (news bytes) h = refl
act_count (writes a bytes) h = written (h.owned a)
  where
    written : (b : Bool) → (write b a bytes h).n_persisters ≡ h.n_persisters
    written false = refl
    written true = refl
act_count makes h = refl
act_count (copies q) h = refl
act_count (saves q state) h = refl
act_count (saves_both q state snapshot) h = refl
act_count (reads q) h = refl
act_count (reads_snapshot q) h = refl

act-saved :
    (a : Action) (h : Heap)
    → IsUsing a h
    → IsApart h
    → saved (act a h) ≡ save_values h.arrays a (saved h)
act-saved a h u v =
    ap₂ (λ f n. record { values = f; n_saved = n }) (fun_ext (λ p. act_value a h p u v))
      (act_count a h)

-- The persisters are a store of values: after any calls and any writes of the callers to slices that they hold, each persister has
-- the contents that the saved slices had at the save, a copy has those of the copied one and is changed by no later save to
-- it, and no write and no read changes what is saved.
pub act_all-saved :
    (actions : List Action) (h : Heap)
    → AllUsing actions h
    → IsApart h
    → saved (act_all actions h) ≡ save_all actions h (saved h)
unfolding act_all save_all
act_all-saved [] h u v = refl
act_all-saved (a ∷ actions) h (u, us) v =
    act_all-saved actions (act a h) us (act-IsApart a h v)
    ∙ ap (save_all actions (act a h)) (act-saved a h u v)
