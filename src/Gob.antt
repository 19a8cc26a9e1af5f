-- ===== src/Gob.antt =====
-- `checkType` of lab3/labgob/labgob.go, on a program's types. A type is a number, and `reflect` is the table of their kinds.
pub mod Checks
mod Tests
use cs.Base.{ℕ, zero, suc, ◌+◌, Bool, true, false, Option, none, some, List, [], ◌∷◌}
use cs.Base.Tests.{if◌then◌else◌}
use cs.Base.Range.{update}

-- A field: whether its name begins with an upper-case letter, and its type.
pub data Kind : Type 0 where
  struct : (fields : List (Bool × ℕ)) → Kind
  -- A slice, an array or a pointer.
  elements : (elem : ℕ) → Kind
  map : (elem key : ℕ) → Kind
  basic : Kind

-- The package's variables. The count has no bound, as a program has far fewer fields than 2^63.
pub record Checker : Type 0 where
  pub checked : ℕ → Bool
  pub error_count : ℕ

pub complain : Bool → Checker → Checker
complain true s = s
complain false s = record s { error_count = suc s.error_count }

-- A step that needs the one before it.
pub then_check : Option Checker → (Checker → Option Checker) → Option Checker
then_check none f = none
then_check (some s) f = f s

-- The loop over a struct's fields, with the check of a type.
pub check_fields : (ℕ → Checker → Option Checker) → List (Bool × ℕ) → Checker → Option Checker
unfolding then_check complain
check_fields check [] s = some s
check_fields check ((is_upper, t) ∷ fields) s =
    then_check (check t (complain is_upper s)) (λ s'. check_fields check fields s')

pub check_kind : (ℕ → Checker → Option Checker) → Kind → Checker → Option Checker
unfolding then_check check_fields
check_kind check (struct fields) s = check_fields check fields s
check_kind check (elements elem) s = check elem s
check_kind check (map elem key) s = then_check (check elem s) (λ s'. check key s')
check_kind check basic s = some s

pub mark : ℕ → Checker → Checker
mark t s = record s { checked = update s.checked t true }

-- Only a type that has not been checked is looked into.
pub check_new : Bool → (ℕ → Checker → Option Checker) → Kind → ℕ → Checker → Option Checker
unfolding check_kind mark
check_new true check kind t s = some s
check_new false check kind t s = check_kind check kind (mark t s)

-- None is a recursion deeper than the fuel.
pub check_type : (ℕ → Kind) → ℕ → ℕ → Checker → Option Checker
unfolding check_new
check_type kinds zero t s = none
check_type kinds (suc fuel) t s =
    let check = check_type kinds fuel in check_new (s.checked t) check (kinds t) t s
