-- ===== src/Gob/Checks.antt =====
-- How far `checkType` of lab3/labgob/labgob.go recurs, and how often it complains.
use cs.Base.{
  ℕ, zero, suc, ◌+◌, ◌≤◌, ◌<◌, ◌≡◌, refl, ap, subst, ◌∙◌, ◌⊎◌, inl, inr, Bool, true, false, Option,
  some, List, [], ◌∷◌, arith,
}
use cs.Base.Tests.{if◌then◌else◌}
use cs.Base.All.{All}
use cs.Base.Range.{update, update_self, update_other, update_cases}
use cs.Gob.{
  Kind, struct, elements, map, basic, Checker, complain, then_check, check_fields, check_kind, mark,
  check_new, check_type,
}

-- The lower-case fields of a type itself.
abbrev pub n_lower : List (Bool × ℕ) → ℕ
n_lower [] = 0
n_lower ((true, t) ∷ fields) = n_lower fields
n_lower ((false, t) ∷ fields) = suc (n_lower fields)

abbrev pub lower : Kind → ℕ
lower (struct fields) = n_lower fields
lower (elements elem) = 0
lower (map elem key) = 0
lower basic = 0

-- The sum of a weight over the types below `n` that have not been checked.
unfoldable pub unchecked : ℕ → (ℕ → ℕ) → (ℕ → Bool) → ℕ
unchecked zero weight checked = 0
unchecked (suc n) weight checked = unchecked n weight checked + (if checked n then 0 else weight n)

-- The types that a kind refers to are below `n`.
abbrev pub IsBelow : ℕ → Kind → Type 0
IsBelow n (struct fields) = All (λ f. f.1 < n) fields
IsBelow n (elements elem) = elem < n
IsBelow n (map elem key) = (elem < n) × (key < n)
IsBelow n basic = Unit

unchecked_outside :
    (n : ℕ) (weight : ℕ → ℕ) (checked : ℕ → Bool) (t : ℕ)
    → n ≤ t
    → unchecked n weight (update checked t true) ≡ unchecked n weight checked
unfolding unchecked
unchecked_outside zero weight checked t l = refl
unchecked_outside (suc n) weight checked t l =
    rw
      (
        unchecked_outside n weight checked t (omega arith),
        update_other checked t n true (λ q. omega (arith, q)),
      )
      refl

-- A type that is marked takes its weight away.
unchecked-mark :
    (n : ℕ) (weight : ℕ → ℕ) (checked : ℕ → Bool) (t : ℕ)
    → t < n
    → checked t ≡ false
    → unchecked n weight (update checked t true) + weight t ≡ unchecked n weight checked
unfolding unchecked
unchecked-mark zero weight checked t l h = absurd (omega arith)
unchecked-mark (suc n) weight checked t l h = elim (below t n l) [
  | inl k ↦
      rw (update_other checked t n true (λ q. omega (arith, k, q)))
        (omega (arith, unchecked-mark n weight checked t k h))
  | inr q ↦
      let on : update checked t true n ≡ true =
        subst (λ z. update checked t true z ≡ true) q (update_self checked t true) in
      let off : checked n ≡ false = subst (λ z. checked z ≡ false) q h in
      rw (on, off)
        (omega (arith, unchecked_outside n weight checked t (omega (arith, q)), ap weight q))
]
  where
    below : (j n : ℕ) → j < suc n → (j < n) ⊎ (j ≡ n)
    below j n l = ground arith

-- A check that returned and whose complaints are those about the types that it has marked.
abbrev pub IsChecked : ℕ → (ℕ → Kind) → Checker → Checker → Type 0
IsChecked n kinds s s' =
    (unchecked n (λ t. 1) s'.checked ≤ unchecked n (λ t. 1) s.checked)
    × (s'.error_count + unchecked n (λ t. lower (kinds t)) s'.checked
        ≡ s.error_count + unchecked n (λ t. lower (kinds t)) s.checked)
    × ((t : ℕ) → s.checked t ≡ true → s'.checked t ≡ true)

-- What a check of a type below `n` does while fewer than `k` types have not been checked.
Checks : ℕ → (ℕ → Kind) → ℕ → (ℕ → Checker → Option Checker) → Type 0
Checks n kinds k check =
    (t : ℕ) (s : Checker)
    → t < n
    → unchecked n (λ t. 1) s.checked < k
    → ((s' : Checker) × (check t s ≡ some s') × IsChecked n kinds s s' × (s'.checked t ≡ true))

-- The fields of a struct: their lower-case ones are counted besides.
fields-check :
    (n : ℕ) (kinds : ℕ → Kind) (k : ℕ) (check : ℕ → Checker → Option Checker)
    (fields : List (Bool × ℕ)) (s : Checker)
    → Checks n kinds k check
    → All (λ f. f.1 < n) fields
    → unchecked n (λ t. 1) s.checked < k
    → ((s' : Checker) × (check_fields check fields s ≡ some s')
        × (unchecked n (λ t. 1) s'.checked ≤ unchecked n (λ t. 1) s.checked)
        × (s'.error_count + unchecked n (λ t. lower (kinds t)) s'.checked
            ≡ s.error_count + n_lower fields + unchecked n (λ t. lower (kinds t)) s.checked)
        × ((t : ℕ) → s.checked t ≡ true → s'.checked t ≡ true))
unfolding check_fields complain then_check Checks
fields-check n kinds k check [] s c ls u = (s, refl, omega arith, omega arith, λ t h. h)
fields-check n kinds k check ((true, t) ∷ fields) s c (l, ls) u =
    let (mid, e, (le, sum, keep), there) = c t s l u in
    let (s', f, le', sum', keep') =
      fields-check n kinds k check fields mid c ls (omega (arith, le, u)) in
    (
      s',
      ap (λ r. then_check r (check_fields check fields)) e ∙ f,
      omega (arith, le, le'),
      omega (arith, sum, sum'),
      λ t h. keep' t (keep t h),
    )
fields-check n kinds k check ((false, t) ∷ fields) s c (l, ls) u =
    let (mid, e, (le, sum, keep), there) = c t (record s { error_count = suc s.error_count }) l u in
    let (s', f, le', sum', keep') =
      fields-check n kinds k check fields mid c ls (omega (arith, le, u)) in
    (
      s',
      ap (λ r. then_check r (check_fields check fields)) e ∙ f,
      omega (arith, le, le'),
      omega (arith, sum, sum'),
      λ t h. keep' t (keep t h),
    )

kind-check :
    (n : ℕ) (kinds : ℕ → Kind) (k : ℕ) (check : ℕ → Checker → Option Checker) (kind : Kind)
    (s : Checker)
    → Checks n kinds k check
    → IsBelow n kind
    → unchecked n (λ t. 1) s.checked < k
    → ((s' : Checker) × (check_kind check kind s ≡ some s')
        × (unchecked n (λ t. 1) s'.checked ≤ unchecked n (λ t. 1) s.checked)
        × (s'.error_count + unchecked n (λ t. lower (kinds t)) s'.checked
            ≡ s.error_count + lower kind + unchecked n (λ t. lower (kinds t)) s.checked)
        × ((t : ℕ) → s.checked t ≡ true → s'.checked t ≡ true))
unfolding check_kind then_check Checks
kind-check n kinds k check (struct fields) s c b u = fields-check n kinds k check fields s c b u
kind-check n kinds k check (elements elem) s c b u =
    let (s', e, (le, sum, keep), there) = c elem s b u in (s', e, le, omega (arith, sum), keep)
kind-check n kinds k check (map elem key) s c (a, b) u =
    let (mid, e, (le, sum, keep), there) = c elem s a u in
    let (s', f, (le', sum', keep'), there') = c key mid b (omega (arith, le, u)) in
    (
      s',
      ap (λ r. then_check r (check key)) e ∙ f,
      omega (arith, le, le'),
      omega (arith, sum, sum'),
      λ t h. keep' t (keep t h),
    )
kind-check n kinds k check basic s c b u = (s, refl, omega arith, omega arith, λ t h. h)

new-check :
    (n : ℕ) (kinds : ℕ → Kind) (k : ℕ) (check : ℕ → Checker → Option Checker) (b : Bool) (t : ℕ)
    (s : Checker)
    → Checks n kinds k check
    → IsBelow n (kinds t)
    → t < n
    → s.checked t ≡ b
    → unchecked n (λ t. 1) s.checked < suc k
    → ((s' : Checker) × (check_new b check (kinds t) t s ≡ some s')
        × IsChecked n kinds s s'
        × (s'.checked t ≡ true))
unfolding check_new mark
new-check n kinds k check true t s c below l h u =
    (s, refl, (omega arith, omega arith, λ x q. q), h)
new-check n kinds k check false t s c below l h u =
    let one = unchecked-mark n (λ t. 1) s.checked t l h in
    let all = unchecked-mark n (λ t. lower (kinds t)) s.checked t l h in
    let (s', e, le, sum, keep) =
      kind-check n kinds k check (kinds t) (mark t s) c below (omega (arith, one, u)) in
    (
      s',
      e,
      (
        omega (arith, le, one),
        omega (arith, sum, all),
        λ x q. keep x (elim (update_cases s.checked t true x) [ inl (p, r) ↦ r | inr r ↦ r ∙ q ]),
      ),
      keep t (update_self s.checked t true),
    )

-- With more fuel than there are unchecked types the check of a type returns, for types that refer to themselves as well. The type is
-- then checked, what was checked remains so, and the number of complaints grows by exactly the lower-case
-- fields of the types that the check has marked.
pub check_type_returns :
    (n : ℕ) (kinds : ℕ → Kind) (fuel t : ℕ) (s : Checker)
    → ((x : ℕ) → IsBelow n (kinds x))
    → t < n
    → unchecked n (λ x. 1) s.checked < fuel
    → ((s' : Checker) × (check_type kinds fuel t s ≡ some s')
        × IsChecked n kinds s s'
        × (s'.checked t ≡ true))
unfolding check_type Checks
check_type_returns n kinds zero t s below l u = absurd (omega arith)
check_type_returns n kinds (suc fuel) t s below l u =
    new-check n kinds fuel (check_type kinds fuel) (s.checked t) t s
      (λ x s' l' u'. check_type_returns n kinds fuel x s' below l' u') (below t) l refl u
