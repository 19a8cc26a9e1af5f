-- ===== src/Harness/Wires/Current.antt =====
-- Which ends of lab3/raft/config.go's network are enabled.
pub mod Kept
pub mod Off
pub mod Started
pub mod Returns
use cs.Base.{
  ℕ, zero, suc, ◌≤◌, ◌<◌, ◌≡◌, ◌≢◌, refl, sym, ap, subst, ◌∙◌, ◌⊎◌, inl, inr, Bool, true, false,
  Option, none, some, arith,
}
use cs.Base.Range.{update, update_self, update_other, update_cases}
use cs.Rpc.Network.{Network}
use cs.Harness.Wires.{Wires}

-- The name `x` is the current one of an end from one connected server to another.
pub record Live (n : ℕ) (w : Wires) (x : ℕ) : Type 0 where
  pub from : ℕ
  pub to : ℕ
  pub names : ℕ → ℕ
  pub from_below : from < n
  pub to_below : to < n
  pub current : w.endnames from ≡ some names
  pub named : names to ≡ x
  pub from_on : w.connected from ≡ true
  pub to_on : w.connected to ≡ true

-- The enabled ends are those between connected servers, the current ends lead to their servers under distinct names, and
-- every connected server has been started.
pub record IsWired (n : ℕ) (w : Wires) : Type 0 where
  pub live : (x : ℕ) → w.net.enabled x ≡ true → Live n w x
  pub up : (x : ℕ) → Live n w x → w.net.enabled x ≡ true
  pub known :
      (i j : ℕ) (e : ℕ → ℕ)
      → i < n
      → j < n
      → w.endnames i ≡ some e
      → (w.net.ends (e j) ≡ true) × (w.net.connections (e j) ≡ some j)
  pub distinct :
      (i j i' j' : ℕ) (e e' : ℕ → ℕ)
      → i < n
      → j < n
      → i' < n
      → j' < n
      → w.endnames i ≡ some e
      → w.endnames i' ≡ some e'
      → e j ≡ e' j'
      → (i ≡ i') × (j ≡ j')
  pub started : (i : ℕ) → w.connected i ≡ true → ((e : ℕ → ℕ) × (w.endnames i ≡ some e))

-- A server that is on after another was turned off.
pub on_after : (f : ℕ → Bool) (i j : ℕ) → update f i false j ≡ true → (i ≢ j) × (f j ≡ true)
on_after f i j h = elim (update_cases f i false j) [
  | inl (p, e) ↦ absurd (let e' : true ≡ false = sym h ∙ e in cc)
  | inr e ↦ (
    λ p.
        let e' : update f i false j ≡ false =
          subst (λ z. update f i false z ≡ false) p (update_self f i false) in
        cc,
    sym e ∙ h,
  )
]

pub on_keeps : (f : ℕ → Bool) (i j : ℕ) → f j ≡ true → update f i true j ≡ true
on_keeps f i j h = elim (update_cases f i true j) [ inl (p, e) ↦ e | inr e ↦ e ∙ h ]
