-- ===== src/Dedup/Laws.antt =====
-- `deduplicateIds` keeps the first occurrence of each id, in order.
use mathlib.Core.Path.{subst}
use mathlib.Core.List.{append-nil, append_assoc}
use cs.Base.{
  ℕ, ◌≤◌, ◌+◌, ◌≡◌, refl, sym, ap, ◌∙◌, ◌⊎◌, inl, inr, ◌↔◌, true, false, List, [], ◌∷◌, ◌++◌, arith,
}
use cs.Base.Tests.{◌==◌, Bool-cases, ==_iff}
use cs.Base.Lists.{length, length-append}
use cs.Base.All.{In, IsDistinct, In-append, In-append_left, In-append_right, IsDistinct-snoc}
use cs.Dedup.{IdSet, empty_set, add_id, dedup_loop, deduplicate_ids}

-- The set is that of the ids kept so far.
abbrev Agrees : IdSet → List ℕ → Type 0
Agrees set kept = (j : ℕ) → (set j ≡ true) ↔ In j kept

Agrees-add :
    (set : IdSet) (kept : List ℕ) (id : ℕ)
    → Agrees set kept
    → Agrees (add_id id set) (kept ++ id ∷ [])
Agrees-add set kept id a j = elim (Bool-cases (id == j)) [
  | inl e ↦ (λ h. In-append_right j kept (id ∷ []) (inl (sym ((==_iff id j).0 e))), λ h. rw e)
  | inr e ↦ (
    λ h. In-append_left j kept (id ∷ []) ((a j).0 (rw e at h)),
    λ h. rw e (elim (In-append j kept (id ∷ []) h) [
      | inl l ↦ (a j).1 l
      | inr r ↦ elim r [ inl p ↦ cc (sym ((==_iff id j).1 (sym p)) ∙ e) | inr f ↦ absurd f ]
    ]),
  )
]

-- What the loop makes of the ids: no id twice, and none lost or made up.
record Deduped (ids kept out : List ℕ) : Type 0 where
  distinct : IsDistinct out
  same : (j : ℕ) → In j out ↔ (In j kept ⊎ In j ids)
  short : length out ≤ length kept + length ids

dedup_loop-Deduped :
    (ids : List ℕ) (set : IdSet) (kept : List ℕ)
    → Agrees set kept
    → IsDistinct kept
    → Deduped ids kept (dedup_loop ids set kept)
unfolding dedup_loop
dedup_loop-Deduped [] set kept a d = record {
  distinct = d;
  same = λ j. (inl, λ h. elim h [ inl l ↦ l | inr r ↦ absurd r ]);
  short = omega arith;
}
dedup_loop-Deduped (id ∷ ids) set kept a d = elim (Bool-cases (set id)) [
  | inl old ↦
      let r = dedup_loop-Deduped ids set kept a d in rw (old, dedup_loop) (seen r ((a id).0 old))
  | inr new ↦
      let r =
        dedup_loop-Deduped ids (add_id id set) (kept ++ id ∷ []) (Agrees-add set kept id a)
          (IsDistinct-snoc kept id d (λ h. cc (sym ((a id).1 h) ∙ new))) in
      rw (new, dedup_loop) (added r)
]
  where
    seen : {out : List ℕ} → Deduped ids kept out → In id kept → Deduped (id ∷ ids) kept out
    seen r m = record {
      distinct = r.distinct;
      same = λ j. (
        λ h. elim ((r.same j).0 h) [ inl l ↦ inl l | inr i ↦ inr (inr i) ],
        λ h.
            (r.same j).1
              (elim h [ inl l ↦ inl l | inr i ↦ elim i [ inl e ↦ inl (rw e m) | inr k ↦ inr k ] ]),
      );
      short = omega (arith, r.short);
    }

    added : {out : List ℕ} → Deduped ids (kept ++ id ∷ []) out → Deduped (id ∷ ids) kept out
    added r = record {
      distinct = r.distinct;
      same = λ j. (
        λ h. elim ((r.same j).0 h) [
          | inl l ↦ elim (In-append j kept (id ∷ []) l) [
            | inl k ↦ inl k
            | inr m ↦ elim m [ inl e ↦ inr (inl e) | inr f ↦ absurd f ]
          ]
          | inr i ↦ inr (inr i)
        ],
        λ h. (r.same j).1 (elim h [
          | inl l ↦ inl (In-append_left j kept (id ∷ []) l)
          | inr i ↦ elim i [
            | inl e ↦ inl (In-append_right j kept (id ∷ []) (inl e))
            | inr k ↦ inr k
          ]
        ]),
      );
      short = omega (arith, r.short, length-append kept (id ∷ []));
    }

-- No id is twice in the result, and the same ids stand in it as in the argument.
pub deduplicate_ids-IsDistinct :
    (ids : List ℕ)
    → IsDistinct (deduplicate_ids ids) × ((j : ℕ) → In j (deduplicate_ids ids) ↔ In j ids)
unfolding deduplicate_ids
deduplicate_ids-IsDistinct ids = (
  r.distinct,
  λ j. (λ h. elim ((r.same j).0 h) [ inl f ↦ absurd f | inr m ↦ m ], λ h. (r.same j).1 (inr h)),
)
  where
    r : Deduped ids [] (dedup_loop ids empty_set [])
    r = dedup_loop-Deduped ids empty_set [] (λ j. (λ h. cc, λ h. absurd h)) tt

-- A loop that loses nothing has kept everything in its place.
dedup_loop-full :
    (ids : List ℕ) (set : IdSet) (kept : List ℕ)
    → (length (dedup_loop ids set kept) ≤ length kept + length ids)
      × (length (dedup_loop ids set kept) ≡ length kept + length ids
          → dedup_loop ids set kept ≡ kept ++ ids)
unfolding dedup_loop
dedup_loop-full [] set kept = (omega arith, λ h. sym (append-nil kept))
dedup_loop-full (id ∷ ids) set kept = elim (Bool-cases (set id)) [
  | inl old ↦
      let r = dedup_loop-full ids set kept in
      rw (old, dedup_loop) (omega (arith, r.0), λ h. absurd (omega (arith, r.0)))
  | inr new ↦
      let r = dedup_loop-full ids (add_id id set) (kept ++ id ∷ []) in
      rw (new, dedup_loop)
        (
          omega (arith, r.0, length-append kept (id ∷ [])),
          λ h. r.1 (omega (arith, length-append kept (id ∷ []))) ∙ append_assoc kept (id ∷ []) ids,
        )
]

-- Ids that are distinct, and new to the set, are all kept.
dedup_loop-distinct :
    (ids : List ℕ) (set : IdSet) (kept : List ℕ)
    → IsDistinct ids
    → ((j : ℕ) → In j ids → set j ≡ false)
    → dedup_loop ids set kept ≡ kept ++ ids
unfolding dedup_loop
dedup_loop-distinct [] set kept d n = sym (append-nil kept)
dedup_loop-distinct (id ∷ ids) set kept d n =
    rw (n id (inl refl), dedup_loop)
      (dedup_loop-distinct ids (add_id id set) (kept ++ id ∷ []) d.1 later
        ∙ append_assoc kept (id ∷ []) ids)
  where
    later : (j : ℕ) → In j ids → add_id id set j ≡ false
    later j m = elim (Bool-cases (id == j)) [
      | inl e ↦ absurd (d.0 (rw ((==_iff id j).0 e) m))
      | inr e ↦ rw e (n j (inr m))
    ]

-- The test of `GetVideo`: the result is as long as the argument exactly when no id is repeated, and
-- then it is the argument.
pub length-deduplicate_ids :
    (ids : List ℕ)
    → ((length (deduplicate_ids ids) ≡ length ids) ↔ IsDistinct ids)
      × (IsDistinct ids → deduplicate_ids ids ≡ ids)
unfolding deduplicate_ids
length-deduplicate_ids ids = (
  (
    λ e.
        subst IsDistinct ((dedup_loop-full ids empty_set []).1 (e ∙ omega arith))
          (deduplicate_ids-IsDistinct ids).0,
    λ d. ap length (kept d),
  ),
  kept,
)
  where
    kept : IsDistinct ids → dedup_loop ids empty_set [] ≡ ids
    kept d = dedup_loop-distinct ids empty_set [] d (λ j m. refl)
