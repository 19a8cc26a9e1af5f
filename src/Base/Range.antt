-- ===== src/Base/Range.antt =====
-- `for j := 0; j < n; j++`, and an array with one place replaced.
use cs.Base.{ℕ, zero, suc, ◌≡◌, ◌≢◌, refl, ◌⊎◌, inl, inr, false, arith}
use cs.Base.Tests.{if◌then◌else◌, ◌==◌, ==_iff, Bool-cases}

abbrev pub update {ℓ} : {B : Type ℓ} → (ℕ → B) → ℕ → B → ℕ → B
update f i b j = if i == j then b else f j

-- The body at 0, then 1, up to `n - 1`.
abbrev pub for_range {ℓ} : {S : Type ℓ} → ℕ → (ℕ → S → S) → S → S
for_range zero body s = s
for_range (suc n) body s = body n (for_range n body s)

pub update_self {ℓ} : {B : Type ℓ} (f : ℕ → B) (i : ℕ) (b : B) → update f i b i ≡ b
update_self f i b = rw ((==_iff i i).1 refl) refl

pub update_other {ℓ} : {B : Type ℓ} (f : ℕ → B) (i j : ℕ) (b : B) → i ≢ j → update f i b j ≡ f j
update_other f i j b n = rw (let e : (i == j) ≡ false = ground (arith, n) in e) refl

-- A place after an update is the one replaced, or is as before.
pub update_cases {ℓ} :
    {B : Type ℓ} (f : ℕ → B) (i : ℕ) (b : B) (j : ℕ)
    → ((i ≡ j) × (update f i b j ≡ b)) ⊎ (update f i b j ≡ f j)
update_cases f i b j = elim (Bool-cases (i == j)) [
  | inl e ↦ inl ((==_iff i j).0 e, rw e refl)
  | inr e ↦ inr (rw e refl)
]
