-- ===== src/Ranker/Order.antt =====
-- The score does not depend on the order in which Go iterates over the user's map.
use mathlib.Core.Logic.{∥∥₁_elim}
use mathlib.Core.List.{Perm, Permᴰ}
use native.Mathlib.Nat.{ℕ_set}
use cs.Base.{ℕ, ◌+◌, ◌%◌, ◌*◌, ◌^◌, ◌≡◌, refl, ap, ap₂, ◌∙◌, Option, none, some, List, ◌∷◌, arith}
use cs.Bcrypt.{Blowfish}
use cs.Ranker.{lookup, add_product, dot_loop, dot_product, score, rank}

add_product_comm :
    (sum u v : ℕ) (p q : Option ℕ)
    → add_product (add_product sum u p) v q ≡ add_product (add_product sum v q) u p
unfolding add_product
add_product_comm sum u v none q = refl
add_product_comm sum u v (some p) none = refl
add_product_comm sum u v (some p) (some q) = wraps (u * p % 2 ^ 64) (v * q % 2 ^ 64)
  where
    wraps : (a b : ℕ) → ((sum + a) % 2 ^ 64 + b) % 2 ^ 64 ≡ ((sum + b) % 2 ^ 64 + a) % 2 ^ 64
    wraps a b = omega arith

dot_loop-Permᴰ :
    {us us' : List (ℕ × ℕ)} (vs : List (ℕ × ℕ))
    → Permᴰ us us'
    → (sum : ℕ) → dot_loop us vs sum ≡ dot_loop us' vs sum
unfolding dot_loop
dot_loop-Permᴰ vs Permᴰ.nil sum = refl
dot_loop-Permᴰ vs (Permᴰ.cons {a} {b} {l₁} {l₂} e d) sum =
    ap (λ z. dot_loop (z ∷ l₁) vs sum) e ∙ dot_loop-Permᴰ vs d (add_product sum b.1 (lookup b.0 vs))
dot_loop-Permᴰ vs (Permᴰ.swap {a} {b} {a'} {b'} {l} e f) sum =
    ap (λ z. dot_loop l vs z) (add_product_comm sum a.1 b.1 (lookup a.0 vs) (lookup b.0 vs))
    ∙ ap₂ (λ y z. dot_loop (y ∷ z ∷ l) vs sum) f e
dot_loop-Permᴰ vs (Permᴰ.trans d d') sum = dot_loop-Permᴰ vs d sum ∙ dot_loop-Permᴰ vs d' sum

module _ (bf : Blowfish) where
  -- Two iteration orders of one user's coefficients give one score.
  pub rank-Perm : (us us' vs : List (ℕ × ℕ)) → Perm us us' → rank bf us vs ≡ rank bf us' vs
  unfolding rank dot_product
  rank-Perm us us' vs p = ap (score bf) (∥∥₁_elim p (ℕ_set _ _) (λ d. dot_loop-Permᴰ vs d 0))
