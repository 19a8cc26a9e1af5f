-- ===== src/Persister/Apart.antt =====
-- What lab3/raft/persister.go keeps: values, which no slice that a caller holds is a part of.
pub mod Values
use cs.Base.{
  ℕ, zero, suc, ◌+◌, ◌≤◌, ◌<◌, ◌≡◌, ◌≢◌, refl, sym, ap, subst, ◌∙◌, ◌⊎◌, inl, inr, Bool, true,
  false, Option, none, some, List, [], ◌∷◌, arith,
}
use cs.Base.Tests.{Bool-cases}
use cs.Base.Range.{update, update_self, update_other, update_cases}
use cs.Persister.{
  Persister, Heap, clone, own, allocate, write, make_persister, copy, save_raft_state,
  save_state_and_snapshot, new_heap, read_raft_state, read_snapshot, Action, news, writes, makes,
  copies, saves, saves_both, reads, reads_snapshot, act, act_all,
}

-- A persister's slices are in use, and no caller holds them.
abbrev pub IsKept : Heap → ℕ → Type 0
IsKept h a = (a < h.next) × (h.owned a ≡ false)

pub record IsApart (h : Heap) : Type 0 where
  -- The nil slice.
  pub kept_nil : IsKept h 0
  pub nil_empty : h.arrays 0 ≡ []
  pub held : (a : ℕ) → h.owned a ≡ true → a < h.next
  pub kept_state : (p : ℕ) → IsKept h (h.persisters p).raft_state
  pub kept_snapshot : (p : ℕ) → IsKept h (h.persisters p).snapshot

-- A slice that is held is none that is kept.
pub not_kept : (h : Heap) (a b : ℕ) → h.owned a ≡ true → IsKept h b → a ≢ b
not_kept h a b t (l, f) e = let t' : h.owned b ≡ true = subst (λ z. h.owned z ≡ true) e t in cc

-- An address that is not in use is not held.
free : (h : Heap) → IsApart h → (a : ℕ) → h.next ≤ a → h.owned a ≡ false
free h v a l = elim (Bool-cases (h.owned a)) [
  | inl t ↦ absurd (omega (arith, v.held a t))
  | inr f ↦ f
]

-- The persister at a place after an update.
at_place :
    (f : ℕ → Persister) (p : ℕ) (s : Persister) (P : Persister → Type 0)
    → P s
    → ((q : ℕ) → P (f q))
    → (q : ℕ) → P (update f p s q)
at_place f p s P new old q = elim (update_cases f p s q) [
  | inl (e, k) ↦ subst P (sym k) new
  | inr k ↦ subst P (sym k) (old q)
]

pub set-IsApart :
    (h : Heap) (p : ℕ) (s : Persister) (n : ℕ)
    → IsApart h
    → IsKept h s.raft_state
    → IsKept h s.snapshot
    → IsApart (record h { persisters = update h.persisters p s; n_persisters = n })
set-IsApart h p s n v a b = record {
  kept_nil = v.kept_nil;
  nil_empty = v.nil_empty;
  held = v.held;
  kept_state = at_place h.persisters p s (λ z. IsKept h z.raft_state) a v.kept_state;
  kept_snapshot = at_place h.persisters p s (λ z. IsKept h z.snapshot) b v.kept_snapshot;
}

pub allocate-IsApart : (bytes : List ℕ) (h : Heap) → IsApart h → IsApart (allocate bytes h).1
unfolding allocate
allocate-IsApart bytes h v = record {
  kept_nil = let (a, b) = v.kept_nil in (omega (arith, a), b);
  nil_empty =
      update_other h.arrays h.next 0 bytes (λ e. omega (arith, v.kept_nil.0, e)) ∙ v.nil_empty;
  held = λ a t. omega (arith, v.held a t);
  kept_state = λ p. let (a, b) = v.kept_state p in (omega (arith, a), b);
  kept_snapshot = λ p. let (a, b) = v.kept_snapshot p in (omega (arith, a), b);
}

-- The new slice, which no caller holds yet.
pub allocate-IsKept :
    (bytes : List ℕ) (h : Heap) → IsApart h → IsKept (allocate bytes h).1 (allocate bytes h).0
unfolding allocate
allocate-IsKept bytes h v = (omega arith, free h v h.next (omega arith))

pub own-IsApart : (bytes : List ℕ) (h : Heap) → IsApart h → IsApart (own (allocate bytes h))
unfolding own allocate
own-IsApart bytes h v = record {
  kept_nil = still v.kept_nil;
  nil_empty =
      update_other h.arrays h.next 0 bytes (λ e. omega (arith, v.kept_nil.0, e)) ∙ v.nil_empty;
  held = λ a t. elim (update_cases h.owned h.next true a) [
    | inl (e, k) ↦ omega (arith, e)
    | inr k ↦ omega (arith, v.held a (sym k ∙ t))
  ];
  kept_state = λ p. still (v.kept_state p);
  kept_snapshot = λ p. still (v.kept_snapshot p);
}
  where
    still : {a : ℕ} → IsKept h a → (a < suc h.next) × (update h.owned h.next true a ≡ false)
    still {a = a} (l, f) =
        (omega (arith, l), update_other h.owned h.next a true (λ e. omega (arith, l, e)) ∙ f)

pub write-IsApart :
    (b : Bool) (a : ℕ) (bytes : List ℕ) (h : Heap)
    → h.owned a ≡ b
    → IsApart h
    → IsApart (write b a bytes h)
unfolding write
write-IsApart false a bytes h t v = v
write-IsApart true a bytes h t v = record {
  kept_nil = v.kept_nil;
  nil_empty = update_other h.arrays a 0 bytes (not_kept h a 0 t v.kept_nil) ∙ v.nil_empty;
  held = v.held;
  kept_state = v.kept_state;
  kept_snapshot = v.kept_snapshot;
}

pub save-IsApart : (p state : ℕ) (h : Heap) → IsApart h → IsApart (save_raft_state p state h)
unfolding save_raft_state clone allocate
save-IsApart p state h v =
    let h' = (allocate (h.arrays state) h).1 in
    let v' = allocate-IsApart (h.arrays state) h v in
    set-IsApart h' p (record (h'.persisters p) { raft_state = h.next }) h'.n_persisters v'
      (allocate-IsKept (h.arrays state) h v) (v'.kept_snapshot p)

pub save_both-IsApart :
    (p state snapshot : ℕ) (h : Heap)
    → IsApart h
    → IsApart (save_state_and_snapshot p state snapshot h)
unfolding save_state_and_snapshot clone allocate
save_both-IsApart p state snapshot h v =
    let h' = (allocate (h.arrays state) h).1 in
    let v' = allocate-IsApart (h.arrays state) h v in
    let h'' = (allocate (h'.arrays snapshot) h').1 in
    let (l, f) = allocate-IsKept (h.arrays state) h v in
    set-IsApart h'' p (record { raft_state = h.next; snapshot = suc h.next }) h''.n_persisters
      (allocate-IsApart (h'.arrays snapshot) h' v') (omega (arith, l), f)
      (allocate-IsKept (h'.arrays snapshot) h' v')

pub act-IsApart : (a : Action) (h : Heap) → IsApart h → IsApart (act a h)
unfolding act read_raft_state read_snapshot copy make_persister clone
act-IsApart (news bytes) h v = own-IsApart bytes h v
act-IsApart (writes a bytes) h v = write-IsApart (h.owned a) a bytes h refl v
act-IsApart makes h v =
    set-IsApart h h.n_persisters (record { raft_state = 0; snapshot = 0 }) (suc h.n_persisters) v
      v.kept_nil v.kept_nil
act-IsApart (copies p) h v =
    set-IsApart h h.n_persisters (h.persisters p) (suc h.n_persisters) v (v.kept_state p)
      (v.kept_snapshot p)
act-IsApart (saves p state) h v = save-IsApart p state h v
act-IsApart (saves_both p state snapshot) h v = save_both-IsApart p state snapshot h v
act-IsApart (reads p) h v = own-IsApart (h.arrays (h.persisters p).raft_state) h v
act-IsApart (reads_snapshot p) h v = own-IsApart (h.arrays (h.persisters p).snapshot) h v

pub act_all-IsApart : (actions : List Action) (h : Heap) → IsApart h → IsApart (act_all actions h)
unfolding act_all
act_all-IsApart [] h v = v
act_all-IsApart (a ∷ actions) h v = act_all-IsApart actions (act a h) (act-IsApart a h v)

pub new_heap-IsApart : IsApart new_heap
unfolding new_heap
new_heap-IsApart = record {
  kept_nil = (omega arith, refl);
  nil_empty = refl;
  held = λ a t. absurd cc;
  kept_state = λ p. (omega arith, refl);
  kept_snapshot = λ p. (omega arith, refl);
}
