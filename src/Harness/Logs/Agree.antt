-- ===== src/Harness/Logs/Agree.antt =====
-- What the appliers of lab3/raft/config.go have checked while they report no error.
use cs.Base.{
  ℕ, zero, suc, ◌≤◌, ◌<◌, ◌≡◌, refl, sym, ap, subst, ◌∙◌, ◌⊎◌, inl, inr, Bool, true, false, Option,
  none, some, List, [], ◌∷◌, arith,
}
use cs.Base.Tests.{if◌then◌else◌, ltb, ◌==◌, ==_iff, Bool-cases, of_some, ltb→lt, ltb_false→le}
use cs.Base.All.{All}
use cs.Base.Range.{update, update_cases}
use cs.Harness.Logs.{
  ApplyMsg, ApplyError, differs, out_of_order, Logs, new_logs, has, compare_entry, check_entries,
  previous, check_logs, judge, apply_valid, apply_at, apply, apply_all,
}

compare_entry-none :
    (i v index j : ℕ) (old : Option ℕ) (e : Option ApplyError)
    → compare_entry i v index j old e ≡ none
    → (e ≡ none) × ((w : ℕ) → old ≡ some w → w ≡ v)
unfolding compare_entry
compare_entry-none i v index j none e h = (h, λ w q. cc)
compare_entry-none i v index j (some old) e h = elim (Bool-cases (old == v)) [
  | inl t ↦ (sym (rw t refl) ∙ h, λ w q. sym (of_some q) ∙ (==_iff old v).0 t)
  | inr f ↦ absurd (let h' : some (differs index i v j old) ≡ none = sym (rw f refl) ∙ h in cc)
]

-- No error: no server has another value at the index.
check_entries-none :
    (n i : ℕ) (m : ApplyMsg) (logs : ℕ → ℕ → Option ℕ)
    → check_entries n i m logs ≡ none
    → (j w : ℕ) → j < n
    → logs j m.command_index ≡ some w
    → w ≡ m.command
unfolding check_entries
check_entries-none zero i m logs h j w l q = absurd (omega arith)
check_entries-none (suc n) i m logs h j w l q =
    let (rest, here) =
      compare_entry-none i m.command m.command_index n (logs n m.command_index)
        (check_entries n i m logs) h in
    elim (Bool-cases (ltb j n)) [
      | inl t ↦ check_entries-none n i m logs rest j w (ltb→lt j n t) q
      | inr f ↦
          let last : j ≡ n = omega (arith, ltb_false→le j n f) in
          here w (subst (λ z. logs z m.command_index ≡ some w) last q)
    ]

-- What holds of the copies of `n` servers.
pub record Consistent (n : ℕ) (s : Logs) : Type 0 where
  pub agree : (i j k a b : ℕ) → i < n → j < n → s.logs i k ≡ some a → s.logs j k ≡ some b → a ≡ b
  pub no_gaps : (i k : ℕ) → has (s.logs i (suc (suc k))) ≡ true → has (s.logs i (suc k)) ≡ true
  pub top : (i k a : ℕ) → s.logs i k ≡ some a → k ≤ s.max_index

has-some : (o : Option ℕ) → has o ≡ true → ((x : ℕ) × (o ≡ some x))
has-some none h = absurd cc
has-some (some x) h = (x, refl)

-- An entry after a write is the one written, or one from before.
write_cases :
    (logs : ℕ → ℕ → Option ℕ) (i index v a k x : ℕ)
    → update logs i (update (logs i) index (some v)) a k ≡ some x
    → ((i ≡ a) × (index ≡ k) × (v ≡ x)) ⊎ (logs a k ≡ some x)
write_cases logs i index v a k x h = elim (update_cases logs i (update (logs i) index (some v)) a) [
  | inr e ↦ inr (sym (ap (λ f. f k) e) ∙ h)
  | inl (p, e) ↦ elim (update_cases (logs i) index (some v) k) [
    | inl (q, f) ↦ inl (p, q, of_some (sym f ∙ sym (ap (λ g. g k) e) ∙ h))
    | inr f ↦ inr (subst (λ z. logs z k ≡ some x) p (sym f ∙ sym (ap (λ g. g k) e) ∙ h))
  ]
]

-- What was there is there after a write.
write_keeps :
    (logs : ℕ → ℕ → Option ℕ) (i index v a k : ℕ)
    → has (logs a k) ≡ true
    → has (update logs i (update (logs i) index (some v)) a k) ≡ true
write_keeps logs i index v a k h = elim (update_cases logs i (update (logs i) index (some v)) a) [
  | inr e ↦ ap (λ f. has (f k)) e ∙ h
  | inl (p, e) ↦ elim (update_cases (logs i) index (some v) k) [
    | inl (q, f) ↦ ap (λ g. has (g k)) e ∙ ap has f
    | inr f ↦ ap (λ g. has (g k)) e ∙ ap has f ∙ subst (λ z. has (logs z k) ≡ true) (sym p) h
  ]
]

-- A write with the entry before it there leaves no gap.
write-no_gaps :
    (logs : ℕ → ℕ → Option ℕ) (i index v : ℕ)
    → (1 < index → previous (logs i) index ≡ true)
    → ((a k : ℕ) → has (logs a (suc (suc k))) ≡ true → has (logs a (suc k)) ≡ true)
    → (a k : ℕ) → has (update logs i (update (logs i) index (some v)) a (suc (suc k))) ≡ true
    → has (update logs i (update (logs i) index (some v)) a (suc k)) ≡ true
unfolding previous
write-no_gaps logs i index v ordered old a k h =
    let (x, e) = has-some (update logs i (update (logs i) index (some v)) a (suc (suc k))) h in
    elim (write_cases logs i index v a (suc (suc k)) x e) [
      | inl (ia, ik, ix) ↦ write_keeps logs i index v a (suc k) (
          subst (λ z. has (logs z (suc k)) ≡ true) ia
            (subst (λ z. previous (logs i) z ≡ true) ik (ordered (omega (arith, ik)))))
      | inr f ↦ write_keeps logs i index v a (suc k) (old a k (ap has f))
    ]

judge-none :
    (i index : ℕ) (e : Option ApplyError) (p : Bool)
    → judge i index e p ≡ none
    → (e ≡ none) × (1 < index → p ≡ true)
unfolding judge
judge-none i index e true h = elim (Bool-cases (ltb 1 index)) [
  | inl t ↦ (sym (rw t refl) ∙ h, λ l. refl)
  | inr t ↦ (sym (rw t refl) ∙ h, λ l. refl)
]
judge-none i index e false h = elim (Bool-cases (ltb 1 index)) [
  | inl t ↦ absurd (let h' : some (out_of_order i index) ≡ none = sym (rw t refl) ∙ h in cc)
  | inr t ↦ (sym (rw t refl) ∙ h, λ l. absurd (omega (arith, ltb_false→le 1 index t)))
]

max_of : (a b : ℕ) → (a ≤ (if ltb a b then b else a)) × (b ≤ (if ltb a b then b else a))
max_of a b = ground arith

apply_valid-Consistent :
    (n i : ℕ) (m : ApplyMsg) (s : Logs)
    → i < n
    → (apply_valid n i m s).stopped ≡ none
    → Consistent n s
    → Consistent n (apply_valid n i m s)
unfolding apply_valid check_logs
apply_valid-Consistent n i m s l h v =
    let (quiet, ordered) =
      judge-none i m.command_index (check_entries n i m s.logs)
        (previous (s.logs i) m.command_index) h in
    record {
      agree = λ a b k x y la lb p q. elim (write_cases s.logs i m.command_index m.command a k x p) [
        | inl (ia, ik, ix) ↦ elim (write_cases s.logs i m.command_index m.command b k y q) [
          | inl (jb, jk, jy) ↦ sym ix ∙ jy
          | inr f ↦
              sym ix
              ∙ sym (
                  check_entries-none n i m s.logs quiet b y lb
                    (subst (λ z. s.logs b z ≡ some y) (sym ik) f))
        ]
        | inr e ↦ elim (write_cases s.logs i m.command_index m.command b k y q) [
          | inl (jb, jk, jy) ↦
              check_entries-none n i m s.logs quiet a x la
                (subst (λ z. s.logs a z ≡ some x) (sym jk) e)
              ∙ jy
          | inr f ↦ v.agree a b k x y la lb e f
        ]
      ];
      no_gaps = write-no_gaps s.logs i m.command_index m.command ordered v.no_gaps;
      top = λ a k x p. elim (write_cases s.logs i m.command_index m.command a k x p) [
        | inl (ia, ik, ix) ↦ omega (arith, max_of s.max_index m.command_index, ik)
        | inr e ↦ omega (arith, max_of s.max_index m.command_index, v.top a k x e)
      ];
    }

apply_at-Consistent :
    (n i : ℕ) (m : ApplyMsg) (s : Logs) (stopped : Option ApplyError) (valid : Bool)
    → i < n
    → s.stopped ≡ stopped
    → (apply_at stopped valid n i m s).stopped ≡ none
    → Consistent n s
    → Consistent n (apply_at stopped valid n i m s)
unfolding apply_at
apply_at-Consistent n i m s (some e) valid l q h v = v
apply_at-Consistent n i m s none false l q h v = v
apply_at-Consistent n i m s none true l q h v = apply_valid-Consistent n i m s l h v

-- The program that ended does not go on.
apply_at-stopped :
    (n i : ℕ) (m : ApplyMsg) (s : Logs) (stopped : Option ApplyError) (valid : Bool)
    → s.stopped ≡ stopped
    → (apply_at stopped valid n i m s).stopped ≡ none
    → s.stopped ≡ none
unfolding apply_at
apply_at-stopped n i m s (some e) valid q h = h
apply_at-stopped n i m s none valid q h = q

apply_all-stopped :
    (n : ℕ) (msgs : List (ℕ × ApplyMsg)) (s : Logs)
    → (apply_all n msgs s).stopped ≡ none
    → s.stopped ≡ none
unfolding apply_all apply
apply_all-stopped n [] s h = h
apply_all-stopped n ((i, m) ∷ msgs) s h =
    apply_at-stopped n i m s s.stopped m.command_valid refl
      (apply_all-stopped n msgs (apply n i m s) h)

-- While the appliers of `n` servers, each with its own messages, in any order, report no error, the copies of the
-- committed entries are consistent: no two servers have different values at an index, each server's indices
-- above one have the index before them, and no index is above the highest recorded.
pub apply_all-Consistent :
    (n : ℕ) (msgs : List (ℕ × ApplyMsg)) (s : Logs)
    → All (λ im. im.0 < n) msgs
    → Consistent n s
    → (apply_all n msgs s).stopped ≡ none
    → Consistent n (apply_all n msgs s)
unfolding apply_all apply
apply_all-Consistent n [] s a v h = v
apply_all-Consistent n ((i, m) ∷ msgs) s (l, ls) v h =
    apply_all-Consistent n msgs (apply n i m s) ls
      (apply_at-Consistent n i m s s.stopped m.command_valid l refl
        (apply_all-stopped n msgs (apply n i m s) h) v)
      h

pub new_logs-Consistent : (n : ℕ) → Consistent n new_logs
unfolding new_logs
new_logs-Consistent n = record {
  agree = λ i j k a b l l' p q. absurd cc;
  no_gaps = λ i k h. absurd cc;
  top = λ i k a p. absurd cc;
}
