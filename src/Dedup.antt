-- ===== src/Dedup.antt =====
-- `deduplicateIds`, which lab1/video_rec_service/server_lib/server_lib.go and
-- lab1/video_service/server_lib/server_lib.go both declare.
pub mod Laws
pub mod Order
mod Tests
use cs.Base.{ℕ, Bool, true, false, List, [], ◌∷◌, ◌++◌}
use cs.Base.Tests.{if◌then◌else◌, ◌==◌}

-- `map[uint64]struct{}`: the keys that are in it.
abbrev pub IdSet : Type 0
IdSet = ℕ → Bool

abbrev pub empty_set : IdSet
empty_set j = false

abbrev pub add_id : ℕ → IdSet → IdSet
add_id id set j = if id == j then true else set j

-- The loop over the ids, from a set and the ids kept so far.
unfoldable pub dedup_loop : List ℕ → IdSet → List ℕ → List ℕ
dedup_loop [] set deduped = deduped
dedup_loop (id ∷ ids) set deduped = elim (set id) [
  | true ↦ dedup_loop ids set deduped
  | false ↦ dedup_loop ids (add_id id set) (deduped ++ id ∷ [])
]

unfoldable pub deduplicate_ids : List ℕ → List ℕ
unfolding dedup_loop
deduplicate_ids ids = dedup_loop ids empty_set []
