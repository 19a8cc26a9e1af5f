-- ===== src/Harness/Leaders/Tables.antt =====
-- The map of `checkOneLeader` in lab3/raft/config.go.
use cs.Base.{
  ℕ, zero, suc, ◌<◌, ◌≡◌, refl, sym, ap, subst, ◌⊎◌, inl, inr, Bool, true, false, List, [], ◌∷◌,
  ◌++◌, arith,
}
use cs.Base.All.{In, In-append, In-append_left, In-append_right, IsDistinct, IsDistinct-snoc}
use cs.Base.Range.{update, update_self, update_cases}
use cs.Harness.Leaders.{Leaders, no_leaders, with_term, add_leader, ask, collect_leaders}

-- Server `j` is asked in the try, and says that it leads.
abbrev pub IsLeader : ℕ → (ℕ → Bool) → (ℕ → ℕ × Bool) → ℕ → Type 0
IsLeader n connected state j = (j < n) × (connected j ≡ true) × ((state j).1 ≡ true)

-- The map holds the leaders of the first `n` servers, by term.
pub record IsTable (n : ℕ) (connected : ℕ → Bool) (state : ℕ → ℕ × Bool) (l : Leaders)
    : Type 0 where
  pub only : (t j : ℕ) → In j (l.table t) → IsLeader n connected state j × ((state j).0 ≡ t)
  pub all : (j : ℕ) → IsLeader n connected state j → In j (l.table (state j).0)
  pub distinct : (t : ℕ) → IsDistinct (l.table t)
  pub has_term : (t j : ℕ) → In j (l.table t) → In t l.terms
  pub has_some : (t : ℕ) → In t l.terms → ((j : ℕ) × In j (l.table t))

below : (j n : ℕ) → j < suc n → (j < n) ⊎ (j ≡ n)
below j n l = ground arith

-- A server that does not lead leaves the map as it is.
IsTable-skip :
    (n : ℕ) (connected : ℕ → Bool) (state : ℕ → ℕ × Bool) (l : Leaders)
    → ¬ ((connected n ≡ true) × ((state n).1 ≡ true))
    → IsTable n connected state l
    → IsTable (suc n) connected state l
IsTable-skip n connected state l not_leader v = record {
  only = λ t j m. let ((a, b, f), e) = v.only t j m in ((omega (arith, a), b, f), e);
  all = λ j (a, b, f). elim (below j n a) [
    | inl k ↦ v.all j (k, b, f)
    | inr q ↦
        absurd (not_leader (subst (λ z. (connected z ≡ true) × ((state z).1 ≡ true)) q (b, f)))
  ];
  distinct = v.distinct;
  has_term = v.has_term;
  has_some = v.has_some;
}

with_term_keeps :
    (is : List ℕ) (term : ℕ) (terms : List ℕ) (t : ℕ) → In t terms → In t (with_term is term terms)
unfolding with_term
with_term_keeps [] term terms t m = inr m
with_term_keeps (i ∷ is) term terms t m = m

with_term_new :
    (is : List ℕ) (term : ℕ) (terms : List ℕ)
    → ((j : ℕ) → In j is → In term terms)
    → In term (with_term is term terms)
unfolding with_term
with_term_new [] term terms h = inl refl
with_term_new (i ∷ is) term terms h = h i (inl refl)

with_term_only :
    (is : List ℕ) (term : ℕ) (terms : List ℕ) (t : ℕ)
    → In t (with_term is term terms)
    → (t ≡ term) ⊎ In t terms
unfolding with_term
with_term_only [] term terms t m = m
with_term_only (i ∷ is) term terms t m = inr m

-- An entry of the map after one more leader.
add_cases :
    (table : ℕ → List ℕ) (term i t j : ℕ)
    → In j (update table term (table term ++ i ∷ []) t)
    → In j (table t) ⊎ ((j ≡ i) × (term ≡ t))
add_cases table term i t j m = elim (update_cases table term (table term ++ i ∷ []) t) [
  | inr e ↦ inl (subst (In j) e m)
  | inl (q, e) ↦ elim (In-append j (table term) (i ∷ []) (subst (In j) e m)) [
    | inl k ↦ inl (subst (λ z. In j (table z)) q k)
    | inr k ↦ elim k [ inl p ↦ inr (p, q) | inr f ↦ absurd f ]
  ]
]

add_keeps :
    (table : ℕ → List ℕ) (term i t j : ℕ)
    → In j (table t)
    → In j (update table term (table term ++ i ∷ []) t)
add_keeps table term i t j m = elim (update_cases table term (table term ++ i ∷ []) t) [
  | inr e ↦ subst (In j) (sym e) m
  | inl (q, e) ↦
      subst (In j) (sym e)
        (In-append_left j (table term) (i ∷ []) (subst (λ z. In j (table z)) (sym q) m))
]

add_new : (table : ℕ → List ℕ) (term i : ℕ) → In i (update table term (table term ++ i ∷ []) term)
add_new table term i =
    subst (In i) (sym (update_self table term (table term ++ i ∷ [])))
      (In-append_right i (table term) (i ∷ []) (inl refl))

IsTable-add :
    (n : ℕ) (connected : ℕ → Bool) (state : ℕ → ℕ × Bool) (l : Leaders)
    → connected n ≡ true
    → (state n).1 ≡ true
    → IsTable n connected state l
    → IsTable (suc n) connected state (add_leader (state n).0 n l)
unfolding add_leader
IsTable-add n connected state l c e v = record {
  only = λ t j m. elim (add_cases l.table (state n).0 n t j m) [
    | inl k ↦ let ((a, b, f), q) = v.only t j k in ((omega (arith, a), b, f), q)
    | inr (p, q) ↦
        (subst (λ z. IsLeader (suc n) connected state z × ((state z).0 ≡ t)) (sym p)
          ((omega arith, c, e), q))
  ];
  all = λ j (a, b, f). elim (below j n a) [
    | inl k ↦ add_keeps l.table (state n).0 n (state j).0 j (v.all j (k, b, f))
    | inr q ↦
        subst (λ z. In z (update l.table (state n).0 (l.table (state n).0 ++ n ∷ []) (state z).0))
          (sym q) (add_new l.table (state n).0 n)
  ];
  distinct = λ t. elim (update_cases l.table (state n).0 (l.table (state n).0 ++ n ∷ []) t) [
    | inr q ↦ subst IsDistinct (sym q) (v.distinct t)
    | inl (p, q) ↦ subst IsDistinct (sym q) (
        IsDistinct-snoc (l.table (state n).0) n (v.distinct (state n).0)
          (λ m. let ((a, b, g), f) = v.only (state n).0 n m in omega (arith, a)))
  ];
  has_term = λ t j m. elim (add_cases l.table (state n).0 n t j m) [
    | inl k ↦ with_term_keeps (l.table (state n).0) (state n).0 l.terms t (v.has_term t j k)
    | inr (p, q) ↦
        subst (λ z. In z (with_term (l.table (state n).0) (state n).0 l.terms)) q
          (with_term_new (l.table (state n).0) (state n).0 l.terms (v.has_term (state n).0))
  ];
  has_some = λ t m. elim (with_term_only (l.table (state n).0) (state n).0 l.terms t m) [
    | inl q ↦ (
      n,
      subst (λ z. In n (update l.table (state n).0 (l.table (state n).0 ++ n ∷ []) z)) (sym q)
          (add_new l.table (state n).0 n),
    )
    | inr k ↦ let (j, i) = v.has_some t k in (j, add_keeps l.table (state n).0 n t j i)
  ];
}

ask-IsTable :
    (n : ℕ) (connected : ℕ → Bool) (state : ℕ → ℕ × Bool) (l : Leaders) (c : Bool) (s : ℕ × Bool)
    → connected n ≡ c
    → state n ≡ s
    → IsTable n connected state l
    → IsTable (suc n) connected state (ask c s n l)
unfolding ask
ask-IsTable n connected state l true (term, true) c e v =
    subst (λ z. IsTable (suc n) connected state (add_leader z n l)) (ap (λ z. z.0) e)
      (IsTable-add n connected state l c (ap (λ z. z.1) e) v)
ask-IsTable n connected state l true (term, false) c e v =
    IsTable-skip n connected state l (λ (a, b). let off = ap (λ z. z.1) e in cc) v
ask-IsTable n connected state l false s c e v = IsTable-skip n connected state l (λ (a, b). cc) v

pub collect-IsTable :
    (n : ℕ) (connected : ℕ → Bool) (state : ℕ → ℕ × Bool)
    → IsTable n connected state (collect_leaders n connected state)
unfolding collect_leaders no_leaders
collect-IsTable zero connected state = record {
  only = λ t j m. absurd m;
  all = λ j (a, b, f). absurd (omega arith);
  distinct = λ t. tt;
  has_term = λ t j m. absurd m;
  has_some = λ t m. absurd m;
}
collect-IsTable (suc n) connected state =
    ask-IsTable n connected state (collect_leaders n connected state) (connected n) (state n) refl
      refl (collect-IsTable n connected state)
