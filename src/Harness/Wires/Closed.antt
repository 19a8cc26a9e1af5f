-- ===== src/Harness/Wires/Closed.antt =====
-- What `disconnect`'s loops over the ends in lab3/raft/config.go change in the network.
use cs.Base.{
  ℕ, zero, suc, ◌≡◌, refl, sym, ap, subst, ◌∙◌, inl, inr, Bool, true, false, Option, none, some,
  arith,
}
use cs.Base.Tests.{of_some}
use cs.Base.Range.{update, update_self, update_cases, for_range}
use cs.Rpc.Network.{Network, enable}
use cs.Harness.Wires.{disable_at}
use cs.Harness.Wires.Ends.{Hit, Hit-suc, Hit-cases}

abbrev pub always : ℕ → Bool
always j = true

-- A network with exactly the hits disabled.
pub record Disables (n : ℕ) (tab : ℕ → Option (ℕ → ℕ)) (col : ℕ → ℕ) (net net' : Network)
    : Type 0 where
  pub same_ends : (x : ℕ) → net'.ends x ≡ net.ends x
  pub same_connections : (x : ℕ) → net'.connections x ≡ net.connections x
  pub keeps : (x : ℕ) → net.enabled x ≡ true → ¬ Hit n always tab col x → net'.enabled x ≡ true
  pub only : (x : ℕ) → net'.enabled x ≡ true → (net.enabled x ≡ true) × (¬ Hit n always tab col x)

disable_next :
    (n : ℕ) (tab : ℕ → Option (ℕ → ℕ)) (col : ℕ → ℕ) (net net' : Network) (t : Option (ℕ → ℕ))
    → tab n ≡ t
    → Disables n tab col net net'
    → Disables (suc n) tab col net (disable_at t (col n) net')
unfolding disable_at enable
disable_next n tab col net net' none t v = record {
  same_ends = v.same_ends;
  same_connections = v.same_connections;
  keeps = λ x h m. v.keeps x h (λ k. m (Hit-suc n always tab col x k));
  only = λ x h.
      let (a, b) = v.only x h in
      (
        a,
        λ k. elim (Hit-cases n always tab col x k) [
          | inl k' ↦ b k'
          | inr (o, (names, t', q)) ↦ absurd (let e : none ≡ some names = sym t ∙ t' in cc)
        ],
      );
}
disable_next n tab col net net' (some names) t v = record {
  same_ends = v.same_ends;
  same_connections = v.same_connections;
  keeps = λ x h m. elim (update_cases net'.enabled (names (col n)) false x) [
    | inl (p, e) ↦ absurd (
        m record {
          at = n;
          names = names;
          at_below = omega arith;
          is_on = refl;
          in_table = t;
          named = p;
        })
    | inr e ↦ e ∙ v.keeps x h (λ k. m (Hit-suc n always tab col x k))
  ];
  only = λ x h. elim (update_cases net'.enabled (names (col n)) false x) [
    | inl (p, e) ↦ absurd (let e' : true ≡ false = sym h ∙ e in cc)
    | inr e ↦
        let (a, b) = v.only x (sym e ∙ h) in
        (
          a,
          λ k. elim (Hit-cases n always tab col x k) [
            | inl k' ↦ b k'
            | inr (o, (names', t', q)) ↦
                let same : names' ≡ names = of_some (sym t' ∙ t) in
                let q' : names (col n) ≡ x = ap (λ f. f (col n)) (sym same) ∙ q in
                let off =
                  subst (λ z. update net'.enabled (names (col n)) false z ≡ false) q'
                    (update_self net'.enabled (names (col n)) false) in
                let e' : true ≡ false = sym h ∙ off in absurd cc
          ],
        )
  ];
}

pub disable_all-Disables :
    (n : ℕ) (tab : ℕ → Option (ℕ → ℕ)) (col : ℕ → ℕ) (net : Network)
    → Disables n tab col net (for_range n (λ j net. disable_at (tab j) (col j) net) net)
disable_all-Disables zero tab col net = record {
  same_ends = λ x. refl;
  same_connections = λ x. refl;
  keeps = λ x h m. h;
  only = λ x h. (h, λ k. absurd (omega (arith, k.at_below)));
}
disable_all-Disables (suc n) tab col net =
    disable_next n tab col net (for_range n (λ j net. disable_at (tab j) (col j) net) net) (tab n)
      refl (disable_all-Disables n tab col net)
