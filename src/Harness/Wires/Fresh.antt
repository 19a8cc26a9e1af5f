-- ===== src/Harness/Wires/Fresh.antt =====
-- What `start1`'s loop over the fresh ends in lab3/raft/config.go changes in the network.
use cs.Base.{
  ℕ, zero, suc, ◌<◌, ◌≡◌, ◌≢◌, refl, sym, ap, subst, ◌∙◌, ◌⊎◌, inl, inr, true, false, Option, none,
  some, arith,
}
use cs.Base.Tests.{Bool-cases, of_some}
use cs.Base.Range.{update, update_self, update_other, update_cases}
use cs.Rpc.Network.{Network, make_end, connect_end}
use cs.Harness.Wires.{link_end, open_end, open_ends}

-- A network with the first `n` of the names as new ends, each connected to its server and disabled.
pub record Opens (n : ℕ) (names : ℕ → ℕ) (net net' : Network) : Type 0 where
  pub keeps_ends : (x : ℕ) → net.ends x ≡ true → net'.ends x ≡ true
  pub has_ends : (j : ℕ) → j < n → net'.ends (names j) ≡ true
  pub were_new : (j : ℕ) → j < n → net.ends (names j) ≡ false
  pub are_distinct : (i j : ℕ) → i < n → j < n → names i ≡ names j → i ≡ j
  pub linked : (j : ℕ) → j < n → net'.connections (names j) ≡ some j
  pub keeps_connections : (x : ℕ) → net.ends x ≡ true → net'.connections x ≡ net.connections x
  pub keeps_enabled : (x : ℕ) → net.ends x ≡ true → net'.enabled x ≡ net.enabled x
  pub only : (x : ℕ) → net'.enabled x ≡ true → net.enabled x ≡ true

-- The network with one end more.
abbrev fresh_end : ℕ → ℕ → Network → Network
fresh_end name j net = record net {
  ends = update net.ends name true;
  enabled = update net.enabled name false;
  connections = update (update net.connections name none) name (some j);
}

open_end_old :
    (name j : ℕ) (net : Network) → net.ends name ≡ true → open_end name j (some net) ≡ none
unfolding open_end link_end make_end
open_end_old name j net e = rw e refl

open_end_new :
    (name j : ℕ) (net : Network)
    → net.ends name ≡ false
    → open_end name j (some net) ≡ some (fresh_end name j net)
unfolding open_end link_end make_end connect_end
open_end_new name j net e = rw e refl

-- A call that returned.
open_end-cases :
    (name j : ℕ) (r : Option Network) (net' : Network)
    → open_end name j r ≡ some net'
    → ((net : Network) × (r ≡ some net) × (net.ends name ≡ false) × (fresh_end name j net ≡ net'))
unfolding open_end
open_end-cases name j none net' h = cc
open_end-cases name j (some net) net' h = elim (Bool-cases (net.ends name)) [
  | inl e ↦ absurd (let h' : none ≡ some net' = sym (open_end_old name j net e) ∙ h in cc)
  | inr e ↦ (net, refl, e, of_some (sym (open_end_new name j net e) ∙ h))
]

-- An end that was there is not the fresh one.
not_fresh : (name x : ℕ) (net : Network) → net.ends name ≡ false → net.ends x ≡ true → name ≢ x
not_fresh name x net e h q = let e' : net.ends x ≡ false = subst (λ z. net.ends z ≡ false) q e in cc

below : (j n : ℕ) → j < suc n → (j < n) ⊎ (j ≡ n)
below j n l = ground arith

Opens-next :
    (n : ℕ) (names : ℕ → ℕ) (net mid : Network)
    → mid.ends (names n) ≡ false
    → Opens n names net mid
    → Opens (suc n) names net (fresh_end (names n) n mid)
Opens-next n names net mid e v = record {
  keeps_ends = λ x h. still x (v.keeps_ends x h);
  has_ends = λ j l. elim (below j n l) [
    | inl l' ↦ still (names j) (v.has_ends j l')
    | inr q ↦
        subst (λ z. update mid.ends (names n) true (names z) ≡ true) (sym q)
          (update_self mid.ends (names n) true)
  ];
  were_new = λ j l. elim (below j n l) [
    | inl l' ↦ v.were_new j l'
    | inr q ↦
        subst (λ z. net.ends (names z) ≡ false) (sym q)
          (elim (Bool-cases (net.ends (names n))) [
            | inr f ↦ f
            | inl t ↦ absurd (let t' = v.keeps_ends (names n) t in cc)
          ])
  ];
  are_distinct = λ i j l l' q. elim (below i n l) [
    | inl a ↦ elim (below j n l') [
      | inl b ↦ v.are_distinct i j a b q
      | inr b ↦ absurd (not_fresh (names n) (names i) mid e (v.has_ends i a) (sym (q ∙ ap names b)))
    ]
    | inr a ↦ elim (below j n l') [
      | inl b ↦ absurd (not_fresh (names n) (names j) mid e (v.has_ends j b) (sym (ap names a) ∙ q))
      | inr b ↦ a ∙ sym b
    ]
  ];
  linked = λ j l. elim (below j n l) [
    | inl l' ↦ moved (names j) (v.has_ends j l') ∙ v.linked j l'
    | inr q ↦
        subst
          (λ z.
            update (update mid.connections (names n) none) (names n) (some n) (names z) ≡ some z)
          (sym q) (update_self (update mid.connections (names n) none) (names n) (some n))
  ];
  keeps_connections = λ x h. moved x (v.keeps_ends x h) ∙ v.keeps_connections x h;
  keeps_enabled = λ x h.
      update_other mid.enabled (names n) x false (not_fresh (names n) x mid e (v.keeps_ends x h))
      ∙ v.keeps_enabled x h;
  only = λ x h. elim (update_cases mid.enabled (names n) false x) [
    | inl (p, q) ↦ absurd (let q' : true ≡ false = sym h ∙ q in cc)
    | inr q ↦ v.only x (sym q ∙ h)
  ];
}
  where
    still : (x : ℕ) → mid.ends x ≡ true → update mid.ends (names n) true x ≡ true
    still x h = elim (update_cases mid.ends (names n) true x) [ inl (p, q) ↦ q | inr q ↦ q ∙ h ]

    moved :
        (x : ℕ)
        → mid.ends x ≡ true
        → update (update mid.connections (names n) none) (names n) (some n) x ≡ mid.connections x
    moved x h =
        let other = not_fresh (names n) x mid e h in
        update_other (update mid.connections (names n) none) (names n) x (some n) other
        ∙ update_other mid.connections (names n) x none other

pub open_ends-Opens :
    (n : ℕ) (names : ℕ → ℕ) (net net' : Network)
    → open_ends n names (some net) ≡ some net'
    → Opens n names net net'
unfolding open_ends
open_ends-Opens zero names net net' h = subst (Opens zero names net) (of_some h) record {
  keeps_ends = λ x k. k;
  has_ends = λ j l. absurd (omega arith);
  were_new = λ j l. absurd (omega arith);
  are_distinct = λ i j l l' q. absurd (omega arith);
  linked = λ j l. absurd (omega arith);
  keeps_connections = λ x k. refl;
  keeps_enabled = λ x k. refl;
  only = λ x k. k;
}
open_ends-Opens (suc n) names net net' h =
    let (mid, e, f, q) = open_end-cases (names n) n (open_ends n names (some net)) net' h in
    subst (Opens (suc n) names net) q
      (Opens-next n names net mid f (open_ends-Opens n names net mid e))

-- New and distinct names are opened.
pub open_ends_new :
    (n : ℕ) (names : ℕ → ℕ) (net : Network)
    → ((j : ℕ) → j < n → net.ends (names j) ≡ false)
    → ((i j : ℕ) → i < n → j < n → names i ≡ names j → i ≡ j)
    → ((net' : Network) × (open_ends n names (some net) ≡ some net')
        × ((x : ℕ)
            → net'.ends x ≡ true
            → (net.ends x ≡ true) ⊎ ((j : ℕ) × (j < n) × (names j ≡ x))))
unfolding open_ends
open_ends_new zero names net new dist = (net, refl, λ x h. inl h)
open_ends_new (suc n) names net new dist =
    let (mid, e, only) =
      open_ends_new n names net (λ j l. new j (omega arith))
        (λ i j l l' q. dist i j (omega arith) (omega arith) q) in
    let f : mid.ends (names n) ≡ false = elim (Bool-cases (mid.ends (names n))) [
      | inr f ↦ f
      | inl t ↦ elim (only (names n) t) [
        | inl old ↦ let old' = new n (omega arith) in absurd cc
        | inr (j, l, q) ↦ absurd (omega (arith, dist j n (omega arith) (omega arith) q))
      ]
    ] in
    (
      fresh_end (names n) n mid,
      ap (open_end (names n) n) e ∙ open_end_new (names n) n mid f,
      λ x h. elim (update_cases mid.ends (names n) true x) [
        | inl (p, q) ↦ inr (n, omega arith, p)
        | inr q ↦ elim (only x (sym q ∙ h)) [
          | inl old ↦ inl old
          | inr (j, l, k) ↦ inr (j, omega arith, k)
        ]
      ],
    )
