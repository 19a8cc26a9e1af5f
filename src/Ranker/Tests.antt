-- ===== src/Ranker/Tests.antt =====
-- The ranker at work.
use mathlib.Core.List.Perm
use cs.Base.{◌^◌, ◌≡◌, refl, [], ◌∷◌}
use cs.Bcrypt.Tests.{plain}
use cs.Ranker.{sum32, sum64, fnv, rank}
use cs.Ranker.Order.{rank-Perm}

-- The published hashes of the empty text and of the letter a.
sum64-known : (sum64 [] ≡ 0xcbf29ce484222325) × (sum64 (b'a' ∷ []) ≡ 0xaf63bd4c8601b7be)
unfolding sum64 fnv
sum64-known = (refl, refl)

sum32-known : sum32 (b'a' ∷ []) ≡ 0x050c5d7e
unfolding sum32 fnv
sum32-known = refl

rank-Perm_example :
    rank plain ((4, 10) ∷ (5, 2 ^ 63) ∷ []) ((5, 3) ∷ (4, 7) ∷ [])
    ≡ rank plain ((5, 2 ^ 63) ∷ (4, 10) ∷ []) ((5, 3) ∷ (4, 7) ∷ [])
rank-Perm_example =
    rank-Perm plain ((4, 10) ∷ (5, 2 ^ 63) ∷ []) ((5, 2 ^ 63) ∷ (4, 10) ∷ []) ((5, 3) ∷ (4, 7) ∷ [])
      (Perm.swap (5, 2 ^ 63) (4, 10) [])
