-- ===== src/Ranker/Digits.antt =====
-- The digits that `FormatUint` and `%020d` print, read back.
use native.Mathlib.Nat.{pow-suc}
use cs.Base.{
  ℕ, zero, suc, ◌+◌, ◌-◌, ◌*◌, ◌/◌, ◌%◌, ◌^◌, ◌<◌, ◌≡◌, ap, subst, sym, ◌∙◌, inl, inr, List, [],
  ◌∷◌, arith,
}
use cs.Base.Tests.{ltb, Bool-cases, ltb→lt, ltb_false→le}
use cs.Ranker.{padded, digits, format_uint}

-- The number that decimal digits stand for, after the digits read so far.
pub value : List ℕ → ℕ → ℕ
value [] n = n
value (c ∷ cs) n = value cs (n * 10 + (c - b'0'))

value-padded :
    (count n : ℕ) (acc : List ℕ) (m : ℕ)
    → n < 10 ^ count
    → value (padded count n acc) m ≡ value acc (m * 10 ^ count + n)
unfolding value padded
value-padded zero n acc m h = ap (value acc) (omega arith)
value-padded (suc count) n acc m h =
    value-padded count (n / 10) ((b'0' + n % 10) ∷ acc) m
      (quotient (10 ^ count) (subst (λ z. n < z) (pow-suc 10 count) h))
    ∙ ap (value acc) (shifted (10 ^ count) ∙ ap (λ z. m * z + n) (sym (pow-suc 10 count)))
  where
    quotient : (p : ℕ) → n < p * 10 → n / 10 < p
    quotient p h = omega arith

    shifted : (p : ℕ) → (m * p + n / 10) * 10 + (b'0' + n % 10 - b'0') ≡ m * (p * 10) + n
    shifted p = omega arith

value-digits : (fuel n : ℕ) (acc : List ℕ) → n < fuel → value (digits fuel n acc) 0 ≡ value acc n
unfolding value digits
value-digits zero n acc h = absurd (omega arith)
value-digits (suc fuel) n acc h = elim (Bool-cases (ltb n 10)) [
  | inl e ↦ rw e (ap (value acc) (omega (arith, ltb→lt _ _ e)))
  | inr e ↦ rw e (
      value-digits fuel (n / 10) ((b'0' + n % 10) ∷ acc) (omega (arith, ltb_false→le _ _ e))
      ∙ ap (value acc) (omega arith))
]

-- Both print a number that reads back: `FormatUint` every number, and `%020d` every number of 64
-- bits.
pub value-printed :
    (n : ℕ) → (value (format_uint n) 0 ≡ n) × (n < 2 ^ 64 → value (padded 20 n []) 0 ≡ n)
unfolding value format_uint
value-printed n = (
  value-digits (suc n) n [] (omega arith),
  λ h. value-padded 20 n [] 0 (omega arith) ∙ omega arith,
)
