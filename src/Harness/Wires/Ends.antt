-- ===== src/Harness/Wires/Ends.antt =====
-- What the loops over the ends in lab3/raft/config.go change in the network.
use cs.Base.{
  ℕ, zero, suc, ◌<◌, ◌≡◌, refl, sym, ap, subst, ◌∙◌, ◌⊎◌, inl, inr, Bool, true, false, Option, none,
  some, arith,
}
use cs.Base.Tests.{of_some}
use cs.Base.Range.{update, update_self, update_cases, for_range}
use cs.Rpc.Network.{Network, enable}
use cs.Harness.Wires.{enable_at, enable_next}

-- The name `x` is one that the loop reads: in the table of some `j` below `n` that is `on`.
pub record Hit (n : ℕ) (on : ℕ → Bool) (tab : ℕ → Option (ℕ → ℕ)) (col : ℕ → ℕ) (x : ℕ)
    : Type 0 where
  pub at : ℕ
  pub names : ℕ → ℕ
  pub at_below : at < n
  pub is_on : on at ≡ true
  pub in_table : tab at ≡ some names
  pub named : names (col at) ≡ x

pub Hit-suc :
    (n : ℕ) (on : ℕ → Bool) (tab : ℕ → Option (ℕ → ℕ)) (col : ℕ → ℕ) (x : ℕ)
    → Hit n on tab col x
    → Hit (suc n) on tab col x
Hit-suc n on tab col x h = record {
  at = h.at;
  names = h.names;
  at_below = omega (arith, h.at_below);
  is_on = h.is_on;
  in_table = h.in_table;
  named = h.named;
}

-- A place below the next is below this one or is this one.
pub Hit-cases :
    (n : ℕ) (on : ℕ → Bool) (tab : ℕ → Option (ℕ → ℕ)) (col : ℕ → ℕ) (x : ℕ)
    → Hit (suc n) on tab col x
    → Hit n on tab col x
      ⊎ ((on n ≡ true) × ((names : ℕ → ℕ) × (tab n ≡ some names) × (names (col n) ≡ x)))
Hit-cases n on tab col x h = elim (below h.at n h.at_below) [
  | inl l ↦ inl record {
    at = h.at;
    names = h.names;
    at_below = l;
    is_on = h.is_on;
    in_table = h.in_table;
    named = h.named;
  }
  | inr q ↦ inr (
    subst (λ z. on z ≡ true) q h.is_on,
    (
      h.names,
      subst (λ z. tab z ≡ some h.names) q h.in_table,
      subst (λ z. h.names (col z) ≡ x) q h.named,
    ),
  )
]
  where
    below : (j n : ℕ) → j < suc n → (j < n) ⊎ (j ≡ n)
    below j n l = ground arith

-- A network with exactly the hits enabled besides.
pub record Enables (n : ℕ) (on : ℕ → Bool) (tab : ℕ → Option (ℕ → ℕ)) (col : ℕ → ℕ)
    (net net' : Network) : Type 0 where
  pub same_ends : (x : ℕ) → net'.ends x ≡ net.ends x
  pub same_connections : (x : ℕ) → net'.connections x ≡ net.connections x
  pub keeps : (x : ℕ) → net.enabled x ≡ true → net'.enabled x ≡ true
  pub hits : (x : ℕ) → Hit n on tab col x → net'.enabled x ≡ true
  pub only : (x : ℕ) → net'.enabled x ≡ true → (net.enabled x ≡ true) ⊎ Hit n on tab col x
  pub present : (j : ℕ) → j < n → on j ≡ true → ((names : ℕ → ℕ) × (tab j ≡ some names))

-- A place below the next is below this one or is this one.
below : (j n : ℕ) → j < suc n → (j < n) ⊎ (j ≡ n)
below j n l = ground arith

enable_next-cases :
    (on : Bool) (names : Option (ℕ → ℕ)) (j : ℕ) (r : Option Network) (net' : Network)
    → enable_next on names j r ≡ some net'
    → ((net : Network) × (r ≡ some net)
        × (((on ≡ false) × (net ≡ net'))
            ⊎ ((on ≡ true) × ((e : ℕ → ℕ) × (names ≡ some e) × (enable (e j) true net ≡ net')))))
unfolding enable_next enable_at
enable_next-cases false names j none net' h = cc
enable_next-cases true names j none net' h = cc
enable_next-cases false names j (some net) net' h = (net, refl, inl (refl, of_some h))
enable_next-cases true none j (some net) net' h = cc
enable_next-cases true (some e) j (some net) net' h = (net, refl, inr (refl, (e, refl, of_some h)))

enable_keeps :
    (name x : ℕ) (net : Network) → net.enabled x ≡ true → (enable name true net).enabled x ≡ true
unfolding enable
enable_keeps name x net h = elim (update_cases net.enabled name true x) [
  | inl (p, e) ↦ e
  | inr e ↦ e ∙ h
]

Enables-enable :
    (n : ℕ) (on : ℕ → Bool) (tab : ℕ → Option (ℕ → ℕ)) (col : ℕ → ℕ) (net net' : Network)
    (names : ℕ → ℕ)
    → on n ≡ true
    → tab n ≡ some names
    → Enables n on tab col net net'
    → Enables (suc n) on tab col net (enable (names (col n)) true net')
unfolding enable
Enables-enable n on tab col net net' names o t v = record {
  same_ends = v.same_ends;
  same_connections = v.same_connections;
  keeps = λ x h. enable_keeps (names (col n)) x net' (v.keeps x h);
  hits = λ x h. elim (Hit-cases n on tab col x h) [
    | inl h' ↦ enable_keeps (names (col n)) x net' (v.hits x h')
    | inr (o', (names', t', q)) ↦
        let same : names' ≡ names = of_some (sym t' ∙ t) in
        subst (λ z. update net'.enabled (names (col n)) true z ≡ true)
          (ap (λ f. f (col n)) (sym same) ∙ q) (update_self net'.enabled (names (col n)) true)
  ];
  only = λ x h. elim (update_cases net'.enabled (names (col n)) true x) [
    | inl (p, e) ↦
        inr record {
          at = n;
          names = names;
          at_below = omega arith;
          is_on = o;
          in_table = t;
          named = p;
        }
    | inr e ↦ elim (v.only x (sym e ∙ h)) [ inl k ↦ inl k | inr k ↦ inr (Hit-suc n on tab col x k) ]
  ];
  present = λ j l k. elim (below j n l) [
    | inl l' ↦ v.present j l' k
    | inr q ↦ (names, subst (λ z. tab z ≡ some names) (sym q) t)
  ];
}

Enables-skip :
    (n : ℕ) (on : ℕ → Bool) (tab : ℕ → Option (ℕ → ℕ)) (col : ℕ → ℕ) (net net' : Network)
    → on n ≡ false
    → Enables n on tab col net net'
    → Enables (suc n) on tab col net net'
Enables-skip n on tab col net net' o v = record {
  same_ends = v.same_ends;
  same_connections = v.same_connections;
  keeps = v.keeps;
  hits = λ x h. elim (Hit-cases n on tab col x h) [ inl h' ↦ v.hits x h' | inr (o', rest) ↦ cc ];
  only = λ x h. elim (v.only x h) [ inl k ↦ inl k | inr k ↦ inr (Hit-suc n on tab col x k) ];
  present = λ j l k. elim (below j n l) [
    | inl l' ↦ v.present j l' k
    | inr q ↦ absurd (let o' : on j ≡ false = subst (λ z. on z ≡ false) (sym q) o in cc)
  ];
}

pub enable_all-Enables :
    (n : ℕ) (on : ℕ → Bool) (tab : ℕ → Option (ℕ → ℕ)) (col : ℕ → ℕ) (net net' : Network)
    → for_range n (λ j r. enable_next (on j) (tab j) (col j) r) (some net) ≡ some net'
    → Enables n on tab col net net'
enable_all-Enables zero on tab col net net' h =
    subst (Enables zero on tab col net) (of_some h) record {
      same_ends = λ x. refl;
      same_connections = λ x. refl;
      keeps = λ x k. k;
      hits = λ x k. absurd (omega (arith, k.at_below));
      only = λ x k. inl k;
      present = λ j l k. absurd (omega arith);
    }
enable_all-Enables (suc n) on tab col net net' h =
    let (mid, e, c) =
      enable_next-cases (on n) (tab n) (col n)
        (for_range n (λ j r. enable_next (on j) (tab j) (col j) r) (some net)) net' h in
    let v = enable_all-Enables n on tab col net mid e in
    elim c [
      | inl (o, q) ↦
          subst (Enables (suc n) on tab col net) q (Enables-skip n on tab col net mid o v)
      | inr (o, (names, t, q)) ↦
          subst (Enables (suc n) on tab col net) q (Enables-enable n on tab col net mid names o t v)
    ]

-- A test that ended does not go on.
pub enable_all_none :
    (n : ℕ) (on : ℕ → Bool) (tab : ℕ → Option (ℕ → ℕ)) (col : ℕ → ℕ)
    → for_range n (λ j r. enable_next (on j) (tab j) (col j) r) none ≡ none
unfolding enable_next
enable_all_none zero on tab col = refl
enable_all_none (suc n) on tab col =
    ap (enable_next (on n) (tab n) (col n)) (enable_all_none n on tab col) ∙ ended (on n)
  where
    ended : (b : Bool) → enable_next b (tab n) (col n) none ≡ none
    ended true = refl
    ended false = refl

-- The loop returns where every server that is on has names.
pub enable_all_some :
    (n : ℕ) (on : ℕ → Bool) (tab : ℕ → Option (ℕ → ℕ)) (col : ℕ → ℕ) (net : Network)
    → ((j : ℕ) → j < n → on j ≡ true → ((names : ℕ → ℕ) × (tab j ≡ some names)))
    → ((net' : Network) × (for_range n (λ j r. enable_next (on j) (tab j) (col j) r) (some net)
          ≡ some net'))
unfolding enable_next enable_at
enable_all_some zero on tab col net p = (net, refl)
enable_all_some (suc n) on tab col net p =
    let (mid, e) = enable_all_some n on tab col net (λ j l k. p j (omega arith) k) in
    let (net', q) = next mid (on n) (tab n) (p n (omega arith)) in
    (net', ap (enable_next (on n) (tab n) (col n)) e ∙ q)
  where
    next :
        (mid : Network) (b : Bool) (t : Option (ℕ → ℕ))
        → (b ≡ true → ((names : ℕ → ℕ) × (t ≡ some names)))
        → ((net' : Network) × (enable_next b t (col n) (some mid) ≡ some net'))
    next mid false t q = (mid, refl)
    next mid true none q = let (names, e) = q refl in absurd cc
    next mid true (some names) q = (enable (names (col n)) true mid, refl)
