-- ===== src/Harness/Leaders/Terms.antt =====
-- What `checkTerms` and `checkNoLeader` of lab3/raft/config.go find.
use cs.Base.{
  ℕ, zero, suc, ◌≤◌, ◌<◌, ◌≡◌, ◌≢◌, refl, sym, ap, subst, ◌∙◌, ◌⊎◌, inl, inr, Bool, true, false,
  Option, none, some, arith,
}
use cs.Base.Tests.{◌==◌, ==_iff, Bool-cases}
use cs.Harness.Leaders.{
  Failure, terms_differ, leads, Checked, returns, fails, compare_term, check_terms, check_server,
  check_no_leader,
}
use cs.Harness.Leaders.Tables.{IsLeader}

-- What a result of `checkTerms` means for the first `n` servers.
abbrev pub SameTerm : ℕ → (ℕ → Bool) → (ℕ → ℕ × Bool) → Checked (Option ℕ) → Type 0
SameTerm n connected state (returns none) = (j : ℕ) → j < n → connected j ≡ false
SameTerm n connected state (returns (some t)) =
    ((j : ℕ) → j < n → connected j ≡ true → (state j).0 ≡ t)
    × ((j : ℕ) × (j < n) × (connected j ≡ true))
SameTerm n connected state (fails terms_differ) =
    (i : ℕ) × (j : ℕ) × (i < n)
    × (j < n)
    × (connected i ≡ true)
    × (connected j ≡ true)
    × ((state i).0 ≢ (state j).0)
SameTerm n connected state (fails _) = ⊥

below : (j n : ℕ) → j < suc n → (j < n) ⊎ (j ≡ n)
below j n l = ground arith

compare-SameTerm :
    (n : ℕ) (connected : ℕ → Bool) (state : ℕ → ℕ × Bool) (b : Bool) (r : Checked (Option ℕ))
    → connected n ≡ b
    → SameTerm n connected state r
    → SameTerm (suc n) connected state (compare_term b (state n).0 r)
unfolding compare_term
compare-SameTerm n connected state b (fails terms_differ) e (i, j, li, lj, ci, cj, d) =
    (i, j, omega arith, omega arith, ci, cj, d)
compare-SameTerm n connected state b (fails (Failure.many_leaders t c)) e h = absurd h
compare-SameTerm n connected state b (fails Failure.no_leader) e h = absurd h
compare-SameTerm n connected state b (fails Failure.index_out) e h = absurd h
compare-SameTerm n connected state b (fails (leads i)) e h = absurd h
compare-SameTerm n connected state false (returns none) e h =
    λ j l. elim (below j n l) [ inl k ↦ h j k | inr q ↦ subst (λ z. connected z ≡ false) (sym q) e ]
compare-SameTerm n connected state false (returns (some t)) e (all, (j, l, c)) = (
  λ i li ci. elim (below i n li) [
    | inl k ↦ all i k ci
    | inr q ↦
        absurd (let off : connected i ≡ false = subst (λ z. connected z ≡ false) (sym q) e in cc)
  ],
  (j, omega arith, c),
)
compare-SameTerm n connected state true (returns none) e h = (
  λ i li ci. elim (below i n li) [
    | inl k ↦ absurd (let off = h i k in cc)
    | inr q ↦ ap (λ z. (state z).0) q
  ],
  (n, omega arith, e),
)
compare-SameTerm n connected state true (returns (some t)) e (all, (j, l, c)) =
    elim (Bool-cases (t == (state n).0)) [
      | inl h ↦ rw h (
        λ i li ci. elim (below i n li) [
          | inl k ↦ all i k ci
          | inr q ↦ ap (λ z. (state z).0) q ∙ sym ((==_iff t (state n).0).0 h)
        ],
        (j, omega arith, c),
      )
      | inr h ↦ rw h (
        j,
        n,
        omega arith,
        omega arith,
        c,
        e,
        λ q.
            let same : (t == (state n).0) ≡ true = (==_iff t (state n).0).1 (sym (all j l c) ∙ q) in
            cc,
      )
    ]

-- The check of the terms returns the term of all connected servers, none if no server is connected, and fails only if two connected
-- servers have different terms.
pub check_terms-SameTerm :
    (n : ℕ) (connected : ℕ → Bool) (state : ℕ → ℕ × Bool)
    → SameTerm n connected state (check_terms n connected state)
unfolding check_terms
check_terms-SameTerm zero connected state = λ j l. absurd (omega arith)
check_terms-SameTerm (suc n) connected state =
    compare-SameTerm n connected state (connected n) (check_terms n connected state) refl
      (check_terms-SameTerm n connected state)

-- What a result of `checkNoLeader` means for the first `n` servers.
abbrev pub NoLeader : ℕ → (ℕ → Bool) → (ℕ → ℕ × Bool) → Checked (Unit {0}) → Type 0
NoLeader n connected state (returns u) = (j : ℕ) → ¬ IsLeader n connected state j
NoLeader n connected state (fails (leads i)) =
    IsLeader n connected state i × ((j : ℕ) → IsLeader n connected state j → i ≤ j)
NoLeader n connected state (fails _) = ⊥

check_server-NoLeader :
    (n : ℕ) (connected : ℕ → Bool) (state : ℕ → ℕ × Bool) (b l : Bool) (r : Checked (Unit {0}))
    → connected n ≡ b
    → (state n).1 ≡ l
    → NoLeader n connected state r
    → NoLeader (suc n) connected state (check_server b l n r)
unfolding check_server
check_server-NoLeader n connected state b l (fails (leads i)) e f ((k, c, d), first) = (
  (omega arith, c, d),
  λ j (a, p, p'). elim (below j n a) [ inl q ↦ first j (q, p, p') | inr q ↦ omega (arith, k, q) ],
)
check_server-NoLeader n connected state b l (fails terms_differ) e f h = absurd h
check_server-NoLeader n connected state b l (fails (Failure.many_leaders t c)) e f h = absurd h
check_server-NoLeader n connected state b l (fails Failure.no_leader) e f h = absurd h
check_server-NoLeader n connected state b l (fails Failure.index_out) e f h = absurd h
check_server-NoLeader n connected state true true (returns u) e f h = (
  (omega arith, e, f),
  λ j (a, p, p'). elim (below j n a) [ inl q ↦ absurd (h j (q, p, p')) | inr q ↦ omega (arith, q) ],
)
check_server-NoLeader n connected state true false (returns u) e f h = λ j (a, p, p').
    elim (below j n a) [
      | inl q ↦ h j (q, p, p')
      | inr q ↦
          let off : (state j).1 ≡ false = subst (λ z. (state z).1 ≡ false) (sym q) f in absurd cc
    ]
check_server-NoLeader n connected state false l (returns u) e f h = λ j (a, p, p').
    elim (below j n a) [
      | inl q ↦ h j (q, p, p')
      | inr q ↦
          let off : connected j ≡ false = subst (λ z. connected z ≡ false) (sym q) e in absurd cc
    ]

-- The check that there is no leader passes exactly when no connected server says that it leads, and fails with the first that does.
pub check_no_leader-NoLeader :
    (n : ℕ) (connected : ℕ → Bool) (state : ℕ → ℕ × Bool)
    → NoLeader n connected state (check_no_leader n connected state)
unfolding check_no_leader
check_no_leader-NoLeader zero connected state = λ j (a, p, p'). omega arith
check_no_leader-NoLeader (suc n) connected state =
    check_server-NoLeader n connected state (connected n) (state n).1
      (check_no_leader n connected state) refl refl (check_no_leader-NoLeader n connected state)
