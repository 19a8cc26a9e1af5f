-- ===== src/Harness/Leaders/One.antt =====
-- What `checkOneLeader` of lab3/raft/config.go finds.
use cs.Base.{
  ℕ, ◌≤◌, ◌<◌, ◌≡◌, ◌≢◌, refl, sym, ap, subst, ◌∙◌, ◌⊎◌, inl, inr, Bool, Option, none, some, List,
  [], ◌∷◌, arith,
}
use cs.Base.Tests.{ltb, Bool-cases, ltb→lt, ltb_false→le, of_some}
use cs.Base.Lists.{length}
use cs.Base.All.{In}
use cs.Harness.Leaders.{
  Failure, many_leaders, no_leader, index_out, Checked, returns, fails, later, last_term,
}
use cs.Harness.Leaders.Tables.{IsLeader}

-- The only leader of the try's highest term, where each term has one leader at most.
pub record IsChosen (n : ℕ) (connected : ℕ → Bool) (state : ℕ → ℕ × Bool) (i : ℕ) : Type 0 where
  pub chosen : IsLeader n connected state i
  pub highest : (j : ℕ) → IsLeader n connected state j → (state j).0 ≤ (state i).0
  pub alone :
      (j k : ℕ)
      → IsLeader n connected state j
      → IsLeader n connected state k
      → (state j).0 ≡ (state k).0
      → j ≡ k

-- Two leaders of one term.
pub record IsSplit (n : ℕ) (connected : ℕ → Bool) (state : ℕ → ℕ × Bool) (term : ℕ) : Type 0 where
  pub one : ℕ
  pub other : ℕ
  pub differ : one ≢ other
  pub one_leads : IsLeader n connected state one
  pub other_leads : IsLeader n connected state other
  pub one_term : (state one).0 ≡ term
  pub other_term : (state other).0 ≡ term

-- What a try shows.
abbrev pub IsTry : ℕ → (ℕ → Bool) → (ℕ → ℕ × Bool) → Checked (Option ℕ) → Type 0
IsTry n connected state (returns none) = (j : ℕ) → ¬ IsLeader n connected state j
IsTry n connected state (returns (some i)) = IsChosen n connected state i
IsTry n connected state (fails (many_leaders term count)) =
    (1 < count) × IsSplit n connected state term
IsTry n connected state (fails _) = ⊥

-- What the loop over the map returns.
abbrev pub IsLast : (ℕ → List ℕ) → List ℕ → Option ℕ → Checked (Option ℕ) → Type 0
IsLast table terms last (returns none) = (terms ≡ []) × (last ≡ none)
IsLast table terms last (returns (some m)) =
    (In m terms ⊎ (last ≡ some m))
    × ((t : ℕ) → In t terms → (t ≤ m) × (length (table t) ≤ 1))
    × ((t : ℕ) → last ≡ some t → t ≤ m)
IsLast table terms last (fails (many_leaders t count)) =
    In t terms × (count ≡ length (table t)) × (1 < count)
IsLast table terms last (fails _) = ⊥

-- The term so far, after one more.
later_cases :
    (t : ℕ) (last : Option ℕ)
    → ((m : ℕ) × (later t last ≡ some m)
        × (t ≤ m)
        × ((m ≡ t) ⊎ (last ≡ some m))
        × ((x : ℕ) → last ≡ some x → x ≤ m))
unfolding later
later_cases t none = (t, refl, omega arith, inl refl, λ x e. absurd cc)
later_cases t (some last) = elim (Bool-cases (ltb last t)) [
  | inl h ↦ (t, rw h refl, omega arith, inl refl, λ x e. omega (arith, of_some e, ltb→lt last t h))
  | inr h ↦ (last, rw h refl, ltb_false→le last t h, inr refl, λ x e. omega (arith, of_some e))
]

IsLast-cons :
    (table : ℕ → List ℕ) (t : ℕ) (terms : List ℕ) (last : Option ℕ) (r : Checked (Option ℕ))
    → length (table t) ≤ 1
    → IsLast table terms (later t last) r
    → IsLast table (t ∷ terms) last r
IsLast-cons table t terms last (returns none) l (a, b) =
    let (m, e, p, q, k) = later_cases t last in absurd (let e' : none ≡ some m = sym b ∙ e in cc)
IsLast-cons table t terms last (returns (some m)) l (a, b, c) =
    let (x, e, le, from, above) = later_cases t last in
    (
      elim a [
        | inl k ↦ inl (inr k)
        | inr k ↦
            let same : x ≡ m = of_some (sym e ∙ k) in
            elim from [ inl q ↦ inl (inl (sym same ∙ q)) | inr q ↦ inr (q ∙ ap some same) ]
      ],
      λ s k. elim k [
        | inl q ↦ (omega (arith, c x e, q), subst (λ z. length (table z) ≤ 1) (sym q) l)
        | inr k' ↦ b s k'
      ],
      λ s q. omega (arith, above s q, c x e),
    )
IsLast-cons table t terms last (fails (many_leaders s count)) l (a, b, c) = (inr a, b, c)
IsLast-cons table t terms last (fails no_leader) l h = absurd h
IsLast-cons table t terms last (fails index_out) l h = absurd h
IsLast-cons table t terms last (fails Failure.terms_differ) l h = absurd h
IsLast-cons table t terms last (fails (Failure.leads i)) l h = absurd h

pub last_term-IsLast :
    (table : ℕ → List ℕ) (terms : List ℕ) (last : Option ℕ)
    → IsLast table terms last (last_term table terms last)
unfolding last_term
last_term-IsLast table [] none = (refl, refl)
last_term-IsLast table [] (some m) = (inr refl, λ t k. absurd k, λ t e. omega (arith, of_some e))
last_term-IsLast table (t ∷ terms) last = elim (Bool-cases (ltb 1 (length (table t)))) [
  | inl h ↦ rw h (inl refl, refl, ltb→lt 1 (length (table t)) h)
  | inr h ↦ rw h (
      IsLast-cons table t terms last (last_term table terms (later t last))
        (ltb_false→le 1 (length (table t)) h) (last_term-IsLast table terms (later t last)))
]
