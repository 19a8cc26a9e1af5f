-- ===== src/Lookup/Laws.antt =====
-- What the loop over a request's ids returns.
use mathlib.Core.List.{append-nil, append_assoc}
use cs.Base.{
  ℕ, ◌≡◌, refl, sym, ap, ap₂, ◌∙◌, ◌⊎◌, inl, inr, Option, none, some, List, [], ◌∷◌, ◌++◌, map,
}
use cs.Base.Tests.{Option-cases}
use cs.Grpc.{ok, err}
use cs.Lookup.{collect, not_found}

-- `infos` are the records of `ids`, in order.
abbrev pub Records : {V : Type 0} → (ℕ → Option V) → List ℕ → List V → Type 0
Records table ids infos = map table ids ≡ map some infos

-- `id` is the first id that the table lacks.
pub data FirstMissing {V : Type 0} (table : ℕ → Option V) (id : ℕ) : List ℕ → Type 0 where
  at_head : {ids : List ℕ} → table id ≡ none → FirstMissing table id (id ∷ ids)
  later :
      {j : ℕ} {ids : List ℕ} (info : V)
      → table j ≡ some info
      → FirstMissing table id ids
      → FirstMissing table id (j ∷ ids)

module _ {V : Type 0} (table : ℕ → Option V) where
  -- The loop returns the records of all ids in order, or the first id without one.
  pub collect-cases :
      (ids : List ℕ) (found : List V)
      → ((infos : List V) × Records table ids infos
          × (collect table ids found ≡ ok (found ++ infos)))
        ⊎ ((id : ℕ) × FirstMissing table id ids × (collect table ids found ≡ err (not_found id)))
  unfolding collect
  collect-cases [] found = inl ([], refl, ap ok (sym (append-nil found)))
  collect-cases (id ∷ ids) found = elim (Option-cases (table id)) [
    | inl e ↦ inr (id, at_head e, rw (e, collect))
    | inr (info, e) ↦ elim (collect-cases ids (found ++ info ∷ [])) [
      | inl (infos, r, c) ↦ inl (
        info ∷ infos,
        ap₂ ◌∷◌ e r,
        rw (e, collect) (c ∙ ap ok (append_assoc found (info ∷ []) infos)),
      )
      | inr (j, m, c) ↦ inr (j, later info e m, rw (e, collect) c)
    ]
  ]

  -- A list of ids that are all present: the loop succeeds with their records.
  pub collect-Records :
      (ids : List ℕ) (infos found : List V)
      → Records table ids infos
      → collect table ids found ≡ ok (found ++ infos)
  unfolding collect
  collect-Records [] [] found r = ap ok (sym (append-nil found))
  collect-Records [] (info ∷ infos) found r = cc
  collect-Records (id ∷ ids) [] found r = cc
  collect-Records (id ∷ ids) (info ∷ infos) found r =
      rw (let e : table id ≡ some info = cc in e, collect)
        (collect-Records ids infos (found ++ info ∷ []) (cc)
          ∙ ap ok (append_assoc found (info ∷ []) infos))

  -- The records of two lists of ids, one after the other.
  pub Records-append :
      (ids ids' : List ℕ) (infos : List V)
      → Records table (ids ++ ids') infos
      → (front : List V) × (back : List V) × (infos ≡ front ++ back)
        × Records table ids front
        × Records table ids' back
  Records-append [] ids' infos r = ([], infos, refl, refl, r)
  Records-append (id ∷ ids) ids' [] r = cc
  Records-append (id ∷ ids) ids' (info ∷ infos) r =
      let (front, back, e, f, g) = Records-append ids ids' infos (cc) in
      (info ∷ front, back, ap (◌∷◌ info) e, ap₂ ◌∷◌ (let h : table id ≡ some info = cc in h) f, g)
