-- ===== src/Dedup/Order.antt =====
-- `deduplicateIds` against an independent description of the order of its result.
use mathlib.Core.List.{append-nil, append_assoc}
use cs.Base.{ℕ, ◌≡◌, refl, sym, ap, ◌∙◌, inl, inr, true, List, [], ◌∷◌, ◌++◌, arith}
use cs.Base.Tests.{if◌then◌else◌, ◌==◌, Bool-cases}
use cs.Dedup.{IdSet, empty_set, add_id, dedup_loop, deduplicate_ids}

-- The ids in the order of their first occurrence, by an independent description.
unfoldable pub remove : ℕ → List ℕ → List ℕ
remove id [] = []
remove id (j ∷ js) = if id == j then remove id js else j ∷ remove id js

unfoldable pub firsts : List ℕ → List ℕ
unfolding remove
firsts [] = []
firsts (id ∷ ids) = id ∷ remove id (firsts ids)

unseen : IdSet → List ℕ → List ℕ
unseen set [] = []
unseen set (j ∷ js) = if set j then unseen set js else j ∷ unseen set js

unseen-add :
    (set : IdSet) (id : ℕ) (js : List ℕ) → unseen (add_id id set) js ≡ unseen set (remove id js)
unfolding unseen remove
unseen-add set id [] = refl
unseen-add set id (j ∷ js) = ground (arith, unseen-add set id js)

unseen-remove :
    (set : IdSet) (id : ℕ) (js : List ℕ) → set id ≡ true → unseen set (remove id js) ≡ unseen set js
unfolding unseen remove
unseen-remove set id [] h = refl
unseen-remove set id (j ∷ js) h = ground (arith, unseen-remove set id js)

unseen-empty : (js : List ℕ) → unseen empty_set js ≡ js
unfolding unseen
unseen-empty [] = refl
unseen-empty (j ∷ js) = ap (◌∷◌ j) (unseen-empty js)

dedup_loop-eq :
    (ids : List ℕ) (set : IdSet) (kept : List ℕ)
    → dedup_loop ids set kept ≡ kept ++ unseen set (firsts ids)
unfolding dedup_loop firsts unseen
dedup_loop-eq [] set kept = sym (append-nil kept)
dedup_loop-eq (id ∷ ids) set kept = elim (Bool-cases (set id)) [
  | inl old ↦
      rw (old, dedup_loop) (dedup_loop-eq ids set kept ∙ rw (unseen-remove set id (firsts ids) old))
  | inr new ↦
      rw (new, dedup_loop)
        (dedup_loop-eq ids (add_id id set) (kept ++ id ∷ [])
          ∙ append_assoc kept (id ∷ []) (unseen (add_id id set) (firsts ids))
          ∙ ap (λ z. kept ++ id ∷ z) (unseen-add set id (firsts ids)))
]

-- `deduplicateIds` gives the ids in the order of their first occurrence.
pub deduplicate_ids-eq-firsts : (ids : List ℕ) → deduplicate_ids ids ≡ firsts ids
unfolding deduplicate_ids
deduplicate_ids-eq-firsts ids = dedup_loop-eq ids empty_set [] ∙ unseen-empty (firsts ids)
