-- ===== src/Queue/Shared.antt =====
-- `ConcurrentQueue` of lab0/queue.go under every interleaving of goroutines: who is between `Lock` and
-- `Unlock`, and what the calls reply.
pub mod Moves
use mathlib.Core.Path.{subst}
use mathlib.Core.List.{map-append}
use cs.Base.{
  ◌⊎◌, ◌≢◌, ◌≡◌, ap, ◌∙◌, sym, true, false, some, List, [], ◌∷◌, ◌++◌, ℕ, arith, inl, inr, map,
}
use cs.Base.Tests.{◌==◌, Bool-cases, ==_iff, of_some}
use cs.Queue.{Queue}
use cs.Queue.Valid.{Holds, new_queue-Holds}
use cs.Queue.Run.{Op, Reply, fifo_step, fifo_run, fifo_run-nil, fifo_run-snoc, step, step-Holds}
use cs.Queue.Shared.Moves.{
  idle, locking, inside, working, unlocking, Pc, ConcurrentQueue, update, new_concurrent_queue,
  Move, arrive, lock, load, store, unlock, Reach, start, next,
}

-- A goroutine between `Lock` and `Unlock`.
abbrev pub IsCritical : {A : Type 0} → Pc A → Type 0
IsCritical idle = ⊥
IsCritical (locking o) = ⊥
IsCritical (inside o) = Unit
IsCritical (working o q) = Unit
IsCritical (unlocking r) = Unit

pub record Inv {A : Type 0} (dflt : A) (s : ConcurrentQueue A) : Type 0 where
  pub owner : (i : ℕ) → IsCritical (s.pc i) → s.mu ≡ some i
  pub copies : (i : ℕ) (o : Op A) (q : Queue A) → s.pc i ≡ working o q → q ≡ s.q
  pub items : List A
  pub holds : Holds s.q items
  pub replies : fifo_run dflt (map (λ e. e.0) s.history) [] ≡ (map (λ e. e.1) s.history, items)

-- Where a goroutine stands after one of them moved.
update-cases :
    {A : Type 0} (P : Pc A → Type 0) (pc : ℕ → Pc A) (i j : ℕ) (c : Pc A)
    → P (update pc i c j)
    → ((i ≡ j) × P c) ⊎ ((i ≢ j) × P (pc j))
update-cases P pc i j c h = elim (Bool-cases (i == j)) [
  | inl e ↦ inl ((==_iff i j).0 e, subst P (if_true e) h)
  | inr e ↦ inr (differ e, subst P (if_false e) h)
]
  where
    if_true : (i == j) ≡ true → update pc i c j ≡ c
    if_true e = rw e

    if_false : (i == j) ≡ false → update pc i c j ≡ pc j
    if_false e = rw e

    differ : (i == j) ≡ false → i ≢ j
    differ e = ground arith

module _ {A : Type 0} (dflt : A) where
  new-Inv : Inv dflt (new_concurrent_queue dflt)
  unfolding new_concurrent_queue
  new-Inv = record {
    owner = λ i h. absurd h;
    copies = λ i o q e. cc;
    items = [];
    holds = new_queue-Holds dflt;
    replies = fifo_run-nil dflt [];
  }

  -- A goroutine that moves at a place where it holds the mutex, or takes it, stays the only owner.
  keep_owner :
      (s : ConcurrentQueue A) (i : ℕ) (c : Pc A)
      → Inv dflt s
      → (IsCritical c → s.mu ≡ some i)
      → (j : ℕ) → IsCritical (update s.pc i c j)
      → s.mu ≡ some j
  keep_owner s i c v h j k = elim (update-cases IsCritical s.pc i j c k) [
    | inl (e, u) ↦ h u ∙ ap some e
    | inr (_, u) ↦ v.owner j u
  ]

  -- A goroutine that moves to a place without a copy leaves the others' copies.
  keep_copies :
      (s : ConcurrentQueue A) (i : ℕ) (c : Pc A)
      → Inv dflt s
      → ((o : Op A) (q : Queue A) → c ≢ working o q)
      → (j : ℕ) (o : Op A) (q : Queue A) → update s.pc i c j ≡ working o q
      → q ≡ s.q
  keep_copies s i c v h j o q e = elim (update-cases (λ z. z ≡ working o q) s.pc i j c e) [
    | inl (_, u) ↦ absurd (h o q u)
    | inr (_, u) ↦ v.copies j o q u
  ]

  -- The others have no copy while a goroutine is critical.
  no_copies :
      (s : ConcurrentQueue A) (i : ℕ) (c : Pc A) (q' : Queue A)
      → Inv dflt s
      → IsCritical (s.pc i)
      → ((o : Op A) (q : Queue A) → c ≢ working o q)
      → (j : ℕ) (o : Op A) (q : Queue A) → update s.pc i c j ≡ working o q
      → q ≡ q'
  no_copies s i c q' v k h j o q e = elim (update-cases (λ z. z ≡ working o q) s.pc i j c e) [
    | inl (_, u) ↦ absurd (h o q u)
    | inr (n, u) ↦ absurd (n (of_some (sym (v.owner i k) ∙ v.owner j (rw u tt))))
  ]

  body-replies :
      (h : List (Op A × Reply A)) (o : Op A) (r : Reply A) (xs : List A)
      → fifo_run dflt (map (λ e. e.0) h) [] ≡ (map (λ e. e.1) h, xs)
      → r ≡ (fifo_step dflt o xs).0
      → fifo_run dflt (map (λ e. e.0) (h ++ (o, r) ∷ [])) []
        ≡ (map (λ e. e.1) (h ++ (o, r) ∷ []), (fifo_step dflt o xs).1)
  body-replies h o r xs e k =
      rw (map-append, fifo_run-snoc dflt (map (λ e. e.0) h) o [], e, map-append, ← k)

  Move-Inv : {s t : ConcurrentQueue A} → Move dflt s t → Inv dflt s → Inv dflt t
  Move-Inv {s} (arrive i o e f) v = rw f (record {
    owner = keep_owner s i (locking o) v absurd;
    copies = keep_copies s i (locking o) v (λ o' q k. cc);
    items = v.items;
    holds = v.holds;
    replies = v.replies;
  })
  Move-Inv {s} (lock i o e m f) v = rw f (record {
    owner = λ j k. elim (update-cases IsCritical s.pc i j (inside o) k) [
      | inl (p, u) ↦ ap some p
      | inr (_, u) ↦ cc (v.owner j u, m)
    ];
    copies = keep_copies s i (inside o) v (λ o' q k. cc);
    items = v.items;
    holds = v.holds;
    replies = v.replies;
  })
  Move-Inv {s} (load i o e f) v = rw f (record {
    owner = keep_owner s i (working o s.q) v (λ u. v.owner i (rw e tt));
    copies = λ j o' q k. elim (update-cases (λ z. z ≡ working o' q) s.pc i j (working o s.q) k) [
      | inl (_, u) ↦ cc
      | inr (_, u) ↦ v.copies j o' q u
    ];
    items = v.items;
    holds = v.holds;
    replies = v.replies;
  })
  Move-Inv {s} (store i o q r q' e m f) v =
      let h = step-Holds dflt o s.q v.items v.holds in
      let m' : step dflt o s.q ≡ some (r, q') = ap (step dflt o) (sym (v.copies i o q e)) ∙ m in
      let p = of_some (sym m' ∙ h.1) in
      rw f (record {
        owner = keep_owner s i (unlocking r) v (λ u. v.owner i (rw e tt));
        copies = no_copies s i (unlocking r) q' v (rw e tt) (λ o' q'' k. cc);
        items = (fifo_step dflt o v.items).1;
        holds = subst (λ z. Holds z (fifo_step dflt o v.items).1) (sym (ap (λ z. z.1) p)) h.2;
        replies = body-replies s.history o r v.items v.replies (ap (λ z. z.0) p);
      })
  Move-Inv {s} (unlock i r e f) v = rw f (record {
    owner = λ j k. elim (update-cases IsCritical s.pc i j idle k) [
      | inl (p, u) ↦ absurd u
      | inr (n, u) ↦ absurd (n (of_some (sym (v.owner i (rw e tt)) ∙ v.owner j u)))
    ];
    copies = keep_copies s i idle v (λ o' q k. cc);
    items = v.items;
    holds = v.holds;
    replies = v.replies;
  })

  Reach-Inv : {s : ConcurrentQueue A} → Reach dflt s → Inv dflt s
  Reach-Inv start = new-Inv
  Reach-Inv (next r m) = Move-Inv m (Reach-Inv r)

  -- Two goroutines are never between `Lock` and `Unlock` at once.
  pub mutual_exclusion :
      (s : ConcurrentQueue A) (i j : ℕ)
      → Reach dflt s
      → IsCritical (s.pc i)
      → IsCritical (s.pc j)
      → i ≡ j
  mutual_exclusion s i j r hi hj =
      let v = Reach-Inv r in of_some (sym (v.owner i hi) ∙ v.owner j hj)

  -- Whatever the interleaving, the replies so far are those of a plain FIFO list that is called in the
  -- order of the writes, the queue holds that list's elements, and the method of a goroutine that
  -- has read the fields does not panic.
  pub linearizable :
      (s : ConcurrentQueue A)
      → Reach dflt s
      → ((fifo_run dflt (map (λ e. e.0) s.history) []).0 ≡ map (λ e. e.1) s.history)
        × Holds s.q (fifo_run dflt (map (λ e. e.0) s.history) []).1
        × ((i : ℕ) (o : Op A) (q : Queue A)
            → s.pc i ≡ working o q
            → (r : Reply A) × (q' : Queue A) × (step dflt o q ≡ some (r, q')))
  linearizable s r =
      let v = Reach-Inv r in
      let h = λ (o : Op A). step-Holds dflt o s.q v.items v.holds in
      (
        ap (λ z. z.0) v.replies,
        subst (Holds s.q) (sym (ap (λ z. z.1) v.replies)) v.holds,
        λ i o q e.
            ((fifo_step dflt o v.items).0, (h o).0, ap (step dflt o) (v.copies i o q e) ∙ (h o).1),
      )
