-- ===== src/Ranker/Cost.antt =====
-- The cost that the ranker asks for.
use cs.Base.{ℕ, ◌+◌, ◌%◌, ◌≤◌, ◌≡◌, ap, ◌∙◌, arith}
use cs.Base.Int.{pos}
use cs.Bcrypt.{check_cost, raise_cost, ok}
use cs.Bcrypt.Layout.RoundTrip.{check_cost-ok, raise_cost-keep}
use cs.Ranker.{cost_hash, sum32, format_uint}

-- It is one, two or three, so that it is neither raised to the default nor refused.
pub cost_hash-range :
    (id : ℕ)
    → (1 ≤ cost_hash id)
      × (cost_hash id ≤ 3)
      × (check_cost (raise_cost (pos (cost_hash id))) ≡ ok (cost_hash id))
unfolding cost_hash
cost_hash-range id = range (sum32 (format_uint id))
  where
    range :
        (h : ℕ)
        → (1 ≤ h % 3 + 1)
          × (h % 3 + 1 ≤ 3)
          × (check_cost (raise_cost (pos (h % 3 + 1))) ≡ ok (h % 3 + 1))
    range h = (
      omega arith,
      omega arith,
      ap check_cost (raise_cost-keep (h % 3 + 1) (omega arith))
          ∙ check_cost-ok (h % 3 + 1) (omega arith) (omega arith),
    )
