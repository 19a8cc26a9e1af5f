-- ===== src/Queue/Valid.antt =====
-- The representation invariant of the queue, and the list of elements that a buffer stands for.
use cs.Base.{ℕ, ◌+◌, ◌-◌, ◌%◌, ◌≤◌, ◌<◌, ◌≡◌, refl, List, [], arith}
use native.Mathlib.Nat.{mod-eq_of_lt, mod-eq-sub-mod}
use cs.Base.Lists.{length, get_elem?}
use cs.Queue.{Queue, new_queue}

pub record IsValid {ℓ} {A : Type ℓ} (q : Queue A) : Type 0 where
  pub roomy : 2 ≤ q.size
  pub storage : length q.buf ≡ q.size
  pub head_in : q.head < q.size
  pub within : q.num_elements ≤ q.size
  pub tail : q.first_empty ≡ (q.head + q.num_elements) % q.size

-- `q` holds the elements of `xs`, oldest first.
pub record Holds {ℓ} {A : Type ℓ} (q : Queue A) (xs : List A) : Type ℓ where
  pub valid : IsValid q
  pub count : length xs ≡ q.num_elements
  pub at : (i : ℕ) → i < q.num_elements → get_elem? q.buf ((q.head + i) % q.size) ≡ get_elem? xs i

-- An index of the circle, computed without the remainder.
pub circle_before : (h i s : ℕ) → h + i < s → (h + i) % s ≡ h + i
circle_before h i s k = mod-eq_of_lt k

pub circle_after : (h i s : ℕ) → h < s → i ≤ s → s ≤ h + i → (h + i) % s ≡ h + i - s
circle_after h i s hh hi k = omega (
  arith,
  mod-eq-sub-mod {n = h + i} {m = s} k,
  mod-eq_of_lt {n = h + i - s} {m = s} (omega arith),
)

-- A new queue is empty.
pub new_queue-Holds : {A : Type 0} (dflt : A) → Holds (new_queue dflt) []
unfolding new_queue
new_queue-Holds dflt = record {
  valid = omega arith;
  count = refl;
  at = λ i h. absurd (omega arith);
}
