-- ===== src/Harness/Logs/Count.antt =====
-- `nCommitted` of lab3/raft/config.go: the number and the value it returns, and when it fails the test.
use cs.Base.{
  ℕ, zero, suc, ◌<◌, ◌≡◌, refl, sym, ap, subst, ◌∙◌, ◌⊎◌, inl, inr, Option, none, some, List, arith,
}
use cs.Base.Tests.{if◌then◌else◌, ltb, ==_iff, Bool-cases, ltb→lt, ltb_false→le}
use cs.Base.All.{All}
use cs.Harness.Logs.{ApplyMsg, new_logs, has, apply_all, count_entry, n_committed}
use cs.Harness.Logs.Agree.{apply_all-Consistent, new_logs-Consistent}

-- The number of the first `n` servers that have an entry at the index.
abbrev pub n_holders : ℕ → ℕ → (ℕ → ℕ → Option ℕ) → ℕ
n_holders zero index logs = zero
n_holders (suc n) index logs =
    let rest = n_holders n index logs in if has (logs n index) then suc rest else rest

-- What the first `n` servers' entries at the index are, by their number and their value.
abbrev Counted : ℕ → ℕ → (ℕ → ℕ → Option ℕ) → ℕ → Option ℕ → Type 0
Counted n index logs zero none = (j : ℕ) → j < n → logs j index ≡ none
Counted n index logs (suc count) (some x) =
    ((j w : ℕ) → j < n → logs j index ≡ some w → w ≡ x)
    × ((j : ℕ) × (j < n) × (logs j index ≡ some x))
Counted n index logs zero (some x) = ⊥
Counted n index logs (suc count) none = ⊥

-- A place below the next is below this one or is this one.
below : (j n : ℕ) → j < suc n → (j < n) ⊎ (j ≡ n)
below j n l = elim (Bool-cases (ltb j n)) [
  | inl t ↦ inl (ltb→lt j n t)
  | inr f ↦ inr (omega (arith, ltb_false→le j n f))
]

-- No two servers have different values at the index.
abbrev Agrees : ℕ → ℕ → (ℕ → ℕ → Option ℕ) → Type 0
Agrees n index logs =
    (i j a b : ℕ) → i < n → j < n → logs i index ≡ some a → logs j index ≡ some b → a ≡ b

count-none :
    (n index : ℕ) (logs : ℕ → ℕ → Option ℕ) (count : ℕ) (cmd : Option ℕ)
    → logs n index ≡ none
    → Counted n index logs count cmd
    → Counted (suc n) index logs count cmd
count-none n index logs zero none e c = λ j l. elim (below j n l) [
  | inl l' ↦ c j l'
  | inr q ↦ subst (λ z. logs z index ≡ none) (sym q) e
]
count-none n index logs (suc count) (some x) e (all, (j, l, h)) = (
  λ i w l' q. elim (below i n l') [
    | inl k ↦ all i w k q
    | inr k ↦
        absurd (let e' : logs i index ≡ none = subst (λ z. logs z index ≡ none) (sym k) e in cc)
  ],
  (j, omega arith, h),
)
count-none n index logs zero (some x) e c = absurd c
count-none n index logs (suc count) none e c = absurd c

-- One server's entry that agrees with the others is counted.
count-some :
    (n index : ℕ) (logs : ℕ → ℕ → Option ℕ) (count : ℕ) (cmd : Option ℕ) (v : ℕ)
    → Agrees (suc n) index logs
    → logs n index ≡ some v
    → Counted n index logs count cmd
    → (count_entry (some v) (some (count, cmd)) ≡ some (suc count, some v))
      × Counted (suc n) index logs (suc count) (some v)
unfolding count_entry
count-some n index logs zero none v ag e c =
    (refl, (λ j w l q. ag j n w v l (omega arith) q e, (n, omega arith, e)))
count-some n index logs (suc count) (some x) v ag e (all, (j, l, h)) =
    let same : x ≡ v = ag j n x v (omega arith) (omega arith) h e in
    (
      rw ((==_iff x v).1 same) refl,
      (λ i w l' q. ag i n w v l' (omega arith) q e, (n, omega arith, e)),
    )
count-some n index logs zero (some x) v ag e c = absurd c
count-some n index logs (suc count) none v ag e c = absurd c

count_next :
    (n index : ℕ) (logs : ℕ → ℕ → Option ℕ) (o : Option ℕ) (count : ℕ) (cmd : Option ℕ)
    → Agrees (suc n) index logs
    → logs n index ≡ o
    → Counted n index logs count cmd
    → ((cmd' : Option ℕ) × (count_entry o (some (count, cmd))
          ≡ some ((if has o then suc count else count), cmd'))
        × Counted (suc n) index logs (if has o then suc count else count) cmd')
unfolding count_entry
count_next n index logs none count cmd ag e c = (cmd, refl, count-none n index logs count cmd e c)
count_next n index logs (some v) count cmd ag e c =
    let (a, b) = count-some n index logs count cmd v ag e c in (some v, a, b)

-- The loop over the first `n` servers.
count_all :
    (n index : ℕ) (logs : ℕ → ℕ → Option ℕ)
    → Agrees n index logs
    → ((cmd : Option ℕ) × (n_committed n index logs ≡ some (n_holders n index logs, cmd))
        × Counted n index logs (n_holders n index logs) cmd)
unfolding n_committed
count_all zero index logs ag = (none, refl, λ j l. absurd (omega arith))
count_all (suc n) index logs ag =
    let (cmd, e, c) =
      count_all n index logs (λ i j a b l l' p q. ag i j a b (omega arith) (omega arith) p q) in
    let (cmd', e', c') =
      count_next n index logs (logs n index) (n_holders n index logs) cmd ag refl c in
    (cmd', ap (count_entry (logs n index)) e ∙ e', c')

-- The value of a server with an entry is the one counted.
Counted-some :
    (n index : ℕ) (logs : ℕ → ℕ → Option ℕ) (count : ℕ) (cmd : Option ℕ)
    → Counted n index logs count cmd
    → (j w : ℕ) → j < n
    → logs j index ≡ some w
    → cmd ≡ some w
Counted-some n index logs zero none c j w l q = absurd (let e = c j l in cc)
Counted-some n index logs (suc count) (some x) (all, rest) j w l q = ap some (sym (all j w l q))
Counted-some n index logs zero (some x) c j w l q = absurd c
Counted-some n index logs (suc count) none c j w l q = absurd c

-- After any messages of `n` servers that the appliers found no error in, `nCommitted` does not fail the test: it returns
-- how many of the servers have an entry at the index, with the value that each of these has.
pub n_committed-apply_all :
    (n index : ℕ) (msgs : List (ℕ × ApplyMsg))
    → All (λ im. im.0 < n) msgs
    → (apply_all n msgs new_logs).stopped ≡ none
    → ((cmd : Option ℕ) × (n_committed n index (apply_all n msgs new_logs).logs
          ≡ some (n_holders n index (apply_all n msgs new_logs).logs, cmd))
        × ((j w : ℕ) → j < n → (apply_all n msgs new_logs).logs j index ≡ some w → cmd ≡ some w))
n_committed-apply_all n index msgs a h =
    let v = apply_all-Consistent n msgs new_logs a (new_logs-Consistent n) h in
    let (cmd, e, c) =
      count_all n index (apply_all n msgs new_logs).logs
        (λ i j x y l l' p q. v.agree i j index x y l l' p q) in
    (
      cmd,
      e,
      Counted-some n index (apply_all n msgs new_logs).logs
          (n_holders n index (apply_all n msgs new_logs).logs) cmd c,
    )
