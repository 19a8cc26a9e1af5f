-- ===== src/Merge/Cancel.antt =====
-- `MergeChannelsOrCancel` of lab0/merge_channels.go: `MergeChannels` with one more case in its `select`.
use mathlib.Core.List.{append-nil}
use cs.Base.{◌≡◌, refl, sym, ap, subst, ◌∙◌, ◌⊎◌, inl, inr, Bool, true, false, List, [], ◌∷◌, ◌++◌}
use cs.Merge.{
  Side, Pc, selecting, returned, sending, State, Event, sends, closes, receives, delivers,
  new_merge, step_at, step,
}
use cs.Merge.Flow.{IsMerge, in_flight, Flows, new-Flows, step-Flows}
use cs.Merge.Channels.{Rounds, step-Inv, returned-IsMerge}

-- The context, and whether the function returned its error.
pub record Cancellable (A : Type 0) : Type 0 where
  pub merge : State A
  pub ctx_done : Bool
  pub error : Bool

pub data CancelEvent (A : Type 0) : Type 0 where
  merges : Event A → CancelEvent A
  ctx_ends cancels : CancelEvent A

module _ {A : Type 0} where
  unfoldable pub new_cancellable : Cancellable A
  new_cancellable = record { merge = new_merge; ctx_done = false; error = false }

  -- The case `<-ctx.Done()`, which is ready once the context is done.
  unfoldable pub cancel_at : Pc A → Bool → Cancellable A → Cancellable A
  cancel_at selecting true s = record s { merge = record s.merge { pc = returned }; error = true }
  cancel_at selecting false s = s
  cancel_at (sending x) done s = s
  cancel_at returned done s = s

  unfoldable pub cancel_step : CancelEvent A → Cancellable A → Cancellable A
  unfolding cancel_at
  cancel_step (merges e) s = record s { merge = step e s.merge }
  cancel_step ctx_ends s = record s { ctx_done = true }
  cancel_step cancels s = cancel_at s.merge.pc s.ctx_done s

  unfoldable pub cancel_run : List (CancelEvent A) → Cancellable A → Cancellable A
  unfolding cancel_step
  cancel_run [] s = s
  cancel_run (e ∷ events) s = cancel_run events (cancel_step e s)

  record CancelInv (s : Cancellable A) : Type 0 where
    pub flows : Flows s.merge
    pub how :
        ((s.error ≡ false) × Rounds s.merge.pc (λ d. (s.merge.input d).gone))
        ⊎ ((s.error ≡ true) × (s.ctx_done ≡ true) × (s.merge.pc ≡ returned))

  stays_returned :
      (pc : Pc A) (e : Event A) (s : State A)
      → s.pc ≡ pc
      → pc ≡ returned
      → (step_at pc e s).pc ≡ returned
  unfolding step_at
  stays_returned pc (sends c x) s p r = p ∙ r
  stays_returned pc (closes c) s p r = p ∙ r
  stays_returned returned (receives c) s p r = p
  stays_returned returned delivers s p r = p
  stays_returned selecting (receives c) s p r = cc
  stays_returned (sending x) (receives c) s p r = cc
  stays_returned selecting delivers s p r = cc
  stays_returned (sending x) delivers s p r = cc

  cancel_at-Inv :
      (pc : Pc A) (done : Bool) (s : Cancellable A)
      → s.merge.pc ≡ pc
      → s.ctx_done ≡ done
      → CancelInv s
      → CancelInv (cancel_at pc done s)
  unfolding cancel_at
  cancel_at-Inv selecting true s p d v = record {
    flows = record {
      got = v.flows.got;
      merged = subst (λ z. IsMerge v.flows.got (s.merge.out ++ in_flight z)) p v.flows.merged;
      inputs = v.flows.inputs;
    };
    how = inr (refl, d, refl);
  }
  cancel_at-Inv selecting false s p d v = v
  cancel_at-Inv (sending x) done s p d v = v
  cancel_at-Inv returned done s p d v = v

  cancel_step-Inv :
      (e : CancelEvent A) (s : Cancellable A) → CancelInv s → CancelInv (cancel_step e s)
  unfolding cancel_step step
  cancel_step-Inv (merges e) s v = record {
    flows = step-Flows e s.merge v.flows;
    how = elim v.how [
      | inl (n, r) ↦ inl (n, (step-Inv e s.merge (record { flows = v.flows; rounds = r })).rounds)
      | inr (n, d, p) ↦ inr (n, d, stays_returned s.merge.pc e s.merge refl p)
    ];
  }
  cancel_step-Inv ctx_ends s v = record {
    flows = v.flows;
    how = elim v.how [ inl (n, r) ↦ inl (n, r) | inr (n, d, p) ↦ inr (n, refl, p) ];
  }
  cancel_step-Inv cancels s v = cancel_at-Inv s.merge.pc s.ctx_done s refl refl v

  cancel_run-Inv :
      (events : List (CancelEvent A)) (s : Cancellable A)
      → CancelInv s
      → CancelInv (cancel_run events s)
  unfolding cancel_run
  cancel_run-Inv [] s v = v
  cancel_run-Inv (e ∷ events) s v = cancel_run-Inv events (cancel_step e s) (cancel_step-Inv e s v)

  new-CancelInv : CancelInv new_cancellable
  unfolding new_cancellable new_merge
  new-CancelInv = record { flows = new-Flows; how = inl (refl, refl) }

  -- How `MergeChannelsOrCancel` has returned: with the error of a context that is done, all that it
  -- received written, or with nil, both channels closed and all that was sent on them written.
  pub data HasReturned (s : Cancellable A) : Bool → Type 0 where
    with_error :
        s.ctx_done ≡ true
        → (got : Side → List A) → IsMerge got s.merge.out
        → ((c : Side) → (s.merge.input c).sent ≡ got c ++ (s.merge.input c).waiting)
        → HasReturned s true
    with_nil :
        IsMerge (λ c. (s.merge.input c).sent) s.merge.out
        → ((c : Side) → (s.merge.input c).closed ≡ true)
        → HasReturned s false

  CancelInv-returns :
      (s : Cancellable A) → CancelInv s → s.merge.pc ≡ returned → HasReturned s s.error
  CancelInv-returns s v p = elim v.how [
    | inl (n, r) ↦
        let m = returned-IsMerge s.merge (record { flows = v.flows; rounds = r }) p in
        subst (HasReturned s) (sym n) (with_nil m.0 m.1)
    | inr (n, d, q) ↦ subst (HasReturned s) (sym n) (
        with_error d v.flows.got
          (subst (λ z. IsMerge v.flows.got z)
            (ap (λ z. s.merge.out ++ in_flight z) p ∙ append-nil s.merge.out) v.flows.merged)
          (λ c. (v.flows.inputs c).parts))
  ]

  -- Whatever the senders and the context do: if the function has returned, it returned an error only
  -- after its context was done, and nil only with both channels closed and all that was sent on
  -- them written; either way `out` is an interleaving of all that it received.
  pub cancel_run_returns :
      (events : List (CancelEvent A))
      → (cancel_run events new_cancellable).merge.pc ≡ returned
      → HasReturned (cancel_run events new_cancellable) (cancel_run events new_cancellable).error
  cancel_run_returns events p =
      CancelInv-returns (cancel_run events new_cancellable)
        (cancel_run-Inv events new_cancellable new-CancelInv) p
