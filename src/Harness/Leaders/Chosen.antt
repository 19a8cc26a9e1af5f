-- ===== src/Harness/Leaders/Chosen.antt =====
-- What `checkOneLeader` of lab3/raft/config.go returns.
use cs.Base.{
  ℕ, ◌≤◌, ◌<◌, ◌≡◌, ◌≢◌, refl, sym, subst, ◌∙◌, ◌⊎◌, inl, inr, Bool, Option, none, some, List, [],
  ◌∷◌, arith,
}
use cs.Base.Lists.{length}
use cs.Base.All.{In, IsDistinct}
use cs.Harness.Leaders.{
  Failure, many_leaders, no_leader, index_out, Checked, returns, fails, Leaders, collect_leaders,
  last_term, first_of, choose, try_at, try_once, next_try, check_one_leader,
}
use cs.Harness.Leaders.Tables.{IsLeader, IsTable, collect-IsTable}
use cs.Harness.Leaders.One.{IsChosen, IsSplit, IsTry, IsLast, last_term-IsLast}

same_of_short : (xs : List ℕ) (a b : ℕ) → length xs ≤ 1 → In a xs → In b xs → a ≡ b
same_of_short [] a b l m k = absurd m
same_of_short (x ∷ []) a b l (inl e) (inl f) = e ∙ sym f
same_of_short (x ∷ []) a b l (inr m) k = absurd m
same_of_short (x ∷ []) a b l (inl e) (inr k) = absurd k
same_of_short (x ∷ y ∷ xs) a b l m k = absurd (omega arith)

two_of_long :
    (xs : List ℕ)
    → 1 < length xs
    → IsDistinct xs
    → ((a : ℕ) × (b : ℕ) × (a ≢ b) × In a xs × In b xs)
two_of_long [] l d = absurd (omega arith)
two_of_long (x ∷ []) l d = absurd (omega arith)
two_of_long (x ∷ y ∷ xs) l d = (x, y, λ e. d.0 (inl e), inl refl, inr (inl refl))

first-IsChosen :
    (n : ℕ) (connected : ℕ → Bool) (state : ℕ → ℕ × Bool) (l : Leaders) (m : ℕ) (is : List ℕ)
    → IsTable n connected state l
    → l.table m ≡ is
    → ((j : ℕ) × In j is)
    → ((t : ℕ) → In t l.terms → (t ≤ m) × (length (l.table t) ≤ 1))
    → IsTry n connected state (first_of is)
unfolding first_of
first-IsChosen n connected state l m [] v e (j, k) b = absurd k
first-IsChosen n connected state l m (i ∷ is) v e some_leader b =
    let (leads, term) = v.only m i (subst (In i) (sym e) (inl refl)) in
    record {
      chosen = leads;
      highest =
          λ j k. omega (arith, (b (state j).0 (v.has_term (state j).0 j (v.all j k))).0, term);
      alone = λ j k lj lk q.
          same_of_short (l.table (state j).0) j k
            (b (state j).0 (v.has_term (state j).0 j (v.all j lj))).1 (v.all j lj)
            (subst (λ z. In k (l.table z)) (sym q) (v.all k lk));
    }

choose-IsTry :
    (n : ℕ) (connected : ℕ → Bool) (state : ℕ → ℕ × Bool) (l : Leaders) (r : Checked (Option ℕ))
    → IsTable n connected state l
    → l.terms ≢ []
    → IsLast l.table l.terms none r
    → IsTry n connected state (choose l r)
unfolding choose
choose-IsTry n connected state l (returns none) v ne (a, b) = absurd (ne a)
choose-IsTry n connected state l (returns (some m)) v ne (inl a, b, c) =
    first-IsChosen n connected state l m (l.table m) v refl (v.has_some m a) b
choose-IsTry n connected state l (returns (some m)) v ne (inr a, b, c) = absurd cc
choose-IsTry n connected state l (fails (many_leaders t count)) v ne (a, b, c) =
    let (x, y, d, mx, my) = two_of_long (l.table t) (omega (arith, b, c)) (v.distinct t) in
    let (px, qx) = v.only t x mx in
    let (py, qy) = v.only t y my in
    (
      c,
      record {
        one = x;
        other = y;
        differ = d;
        one_leads = px;
        other_leads = py;
        one_term = qx;
        other_term = qy;
      },
    )
choose-IsTry n connected state l (fails no_leader) v ne h = absurd h
choose-IsTry n connected state l (fails index_out) v ne h = absurd h
choose-IsTry n connected state l (fails Failure.terms_differ) v ne h = absurd h
choose-IsTry n connected state l (fails (Failure.leads i)) v ne h = absurd h

try_at-IsTry :
    (n : ℕ) (connected : ℕ → Bool) (state : ℕ → ℕ × Bool) (l : Leaders) (terms : List ℕ)
    → IsTable n connected state l
    → l.terms ≡ terms
    → IsTry n connected state (try_at l terms)
unfolding try_at
try_at-IsTry n connected state l [] v e =
    λ j k. subst (In (state j).0) e (v.has_term (state j).0 j (v.all j k))
try_at-IsTry n connected state l (t ∷ terms) v e =
    choose-IsTry n connected state l (last_term l.table l.terms none) v
      (λ q. let q' : t ∷ terms ≡ [] = sym e ∙ q in cc) (last_term-IsLast l.table l.terms none)

-- What the tries show, until one shows leaders.
abbrev pub Judged : ℕ → (ℕ → Bool) → List (ℕ → ℕ × Bool) → Checked ℕ → Type 0
Judged n connected [] r = r ≡ fails no_leader
Judged n connected (state ∷ states) r =
    (((j : ℕ) → ¬ IsLeader n connected state j) × Judged n connected states r)
    ⊎ (((i : ℕ) × (r ≡ returns i) × IsChosen n connected state i)
        ⊎ ((t : ℕ) × (count : ℕ) × (r ≡ fails (many_leaders t count))
            × IsSplit n connected state t))

next-Judged :
    (n : ℕ) (connected : ℕ → Bool) (state : ℕ → ℕ × Bool) (states : List (ℕ → ℕ × Bool))
    (r : Checked (Option ℕ)) (rest : Checked ℕ)
    → IsTry n connected state r
    → Judged n connected states rest
    → Judged n connected (state ∷ states) (next_try r rest)
unfolding next_try
next-Judged n connected state states (returns none) rest h k = inl (h, k)
next-Judged n connected state states (returns (some i)) rest h k = inr (inl (i, refl, h))
next-Judged n connected state states (fails (many_leaders t count)) rest (l, h) k =
    inr (inr (t, count, refl, h))
next-Judged n connected state states (fails no_leader) rest h k = absurd h
next-Judged n connected state states (fails index_out) rest h k = absurd h
next-Judged n connected state states (fails Failure.terms_differ) rest h k = absurd h
next-Judged n connected state states (fails (Failure.leads i)) rest h k = absurd h

-- The check of one leader goes by the first try in which a connected server says that it leads: it returns the leader
-- of the highest term if no two of the leaders have the same term, and otherwise fails with a term that two of them have.
-- Where no try has a leader it fails with no leader, and it never indexes an empty list.
pub check_one_leader-Judged :
    (n : ℕ) (connected : ℕ → Bool) (states : List (ℕ → ℕ × Bool))
    → Judged n connected states (check_one_leader n connected states)
unfolding check_one_leader try_once
check_one_leader-Judged n connected [] = refl
check_one_leader-Judged n connected (state ∷ states) =
    let l = collect_leaders n connected state in
    next-Judged n connected state states (try_at l l.terms) (check_one_leader n connected states)
      (try_at-IsTry n connected state l l.terms (collect-IsTable n connected state) refl)
      (check_one_leader-Judged n connected states)
