-- ===== src/Gob/Tests.antt =====
-- A type that refers to itself.
use cs.Base.{ℕ, zero, suc, ◌<◌, ◌≡◌, refl, true, false, Option, none, some, [], ◌∷◌, arith}
use cs.Gob.{
  Kind, struct, elements, map, basic, Checker, complain, then_check, check_fields, check_kind, mark,
  check_new, check_type,
}
use cs.Gob.Checks.{IsBelow, IsChecked, unchecked, check_type_returns}

-- Type 0 is a struct with an integer, a lower-case pointer to its own type and a lower-case map; 1 is the pointer's type.
abbrev cyclic : ℕ → Kind
cyclic zero = struct ((true, 2) ∷ (false, 1) ∷ (false, 3) ∷ [])
cyclic (suc zero) = elements 0
cyclic (suc (suc zero)) = basic
cyclic (suc (suc (suc zero))) = map 1 2
cyclic (suc (suc (suc (suc t)))) = basic

abbrev fresh : Checker
fresh = record { checked = λ t. false; error_count = 0 }

-- The complaints of a check.
abbrev errors_of : Option Checker → Option ℕ
errors_of none = none
errors_of (some s) = some s.error_count

two_errors : errors_of (check_type cyclic 5 0 fresh) ≡ some 2
unfolding check_type check_new check_kind check_fields complain then_check mark
two_errors = refl

-- A second check complains no more.
once : errors_of (then_check (check_type cyclic 5 0 fresh) (check_type cyclic 5 0)) ≡ some 2
unfolding check_type check_new check_kind check_fields complain then_check mark
once = refl

within : (t : ℕ) → IsBelow 4 (cyclic t)
within zero = (omega arith, (omega arith, (omega arith, tt)))
within (suc zero) = omega arith
within (suc (suc zero)) = tt
within (suc (suc (suc zero))) = (omega arith, omega arith)
within (suc (suc (suc (suc t)))) = tt

four_left : unchecked 4 (λ t. 1) fresh.checked < 5
unfolding unchecked
four_left = omega arith

check_type_returns_example :
    (s : Checker) × (check_type cyclic 5 0 fresh ≡ some s)
    × IsChecked 4 cyclic fresh s
    × (s.checked 0 ≡ true)
check_type_returns_example = check_type_returns 4 cyclic 5 0 fresh within (omega arith) four_left
