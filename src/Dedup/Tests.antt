-- ===== src/Dedup/Tests.antt =====
-- `deduplicateIds` on a list with two repeated ids.
use cs.Base.{ℕ, ◌≡◌, refl, List, [], ◌∷◌}
use cs.Dedup.{deduplicate_ids, dedup_loop}
use cs.Dedup.Order.{firsts, deduplicate_ids-eq-firsts}

abbrev ids : List ℕ
ids = 7 ∷ 8 ∷ 7 ∷ 9 ∷ 8 ∷ []

deduplicate_ids-ids : deduplicate_ids ids ≡ 7 ∷ 8 ∷ 9 ∷ []
unfolding deduplicate_ids dedup_loop
deduplicate_ids-ids = refl

deduplicate_ids-eq-firsts_example : deduplicate_ids ids ≡ firsts ids
deduplicate_ids-eq-firsts_example = deduplicate_ids-eq-firsts ids
