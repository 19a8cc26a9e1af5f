-- ===== src/Merge/Ends.antt =====
-- `MergeChannels` of lab0/merge_channels.go does not stop before its end, nor run for ever.
use cs.Base.{
  ℕ, ◌+◌, ◌*◌, ◌<◌, ◌≡◌, refl, sym, ap, subst, ◌∙◌, ◌⊎◌, inl, inr, ◌≢◌, Bool, true, false, ◌&&◌,
  List, [], ◌∷◌, arith,
}
use cs.Base.Lists.{length}
use cs.Base.Tests.{Bool-cases}
use cs.Merge.{
  Side, left, right, put, Input, Pc, selecting, returned, sending, State, Event, sends, closes,
  receives, delivers, new_merge, after_round, receive_end, receive_case, receive, step_at, step,
  run,
}
use cs.Merge.Flow.{in_flight, after_round_none}
use cs.Merge.Channels.{Rounds, run-Inv}

-- The events that are steps of `MergeChannels` itself.
abbrev pub IsOwn : {A : Type 0} → Event A → Type 0
IsOwn (sends c x) = ⊥
IsOwn (closes c) = ⊥
IsOwn (receives c) = Unit
IsOwn delivers = Unit

abbrev pub open_weight : Bool → ℕ
open_weight true = 0
open_weight false = 1

one_open : (g : Side → Bool) → (g left && g right) ≡ false → (c : Side) × (g c ≡ false)
one_open g e = elim (Bool-cases (g left)) [
  | inl l ↦ (right, sym (ap (λ z. z && g right) l) ∙ e)
  | inr l ↦ (left, l)
]

module _ {A : Type 0} where
  pub weight : Input A → ℕ
  weight i = 2 * length i.waiting + open_weight i.gone

  -- Two for a value that waits, one for a value in flight, one for a channel that is not nil.
  pub measure : State A → ℕ
  unfolding weight
  measure s = weight (s.input left) + weight (s.input right) + length (in_flight s.pc)

  -- One input is replaced.
  measure-put :
      (s : State A) (c : Side) (i : Input A) (pc : Pc A)
      → weight i + length (in_flight pc) < weight (s.input c) + length (in_flight s.pc)
      → measure (record s { input = put s.input c i; pc = pc }) < measure s
  unfolding measure
  measure-put s left i pc h = omega arith
  measure-put s right i pc h = omega arith

  receive_end-less :
      (c : Side) (s : State A)
      → (s.input c).gone ≡ false
      → measure (receive_end true c s) < measure s
  unfolding receive_end weight
  receive_end-less c s g =
      measure-put s c (record (s.input c) { gone = true }) (after_round input')
        (omega (arith, ap length (after_round_none input'), ap open_weight g))
    where
      input' : Side → Input A
      input' = put s.input c (record (s.input c) { gone = true })

  receive_end-step :
      (b : Bool) (c : Side) (s : State A)
      → (s.input c).gone ≡ false
      → (receive_end b c s ≡ s) ⊎ (measure (receive_end b c s) < measure s)
  unfolding receive_end
  receive_end-step true c s g = inr (receive_end-less c s g)
  receive_end-step false c s g = inl refl

  receive_value-less :
      (x : A) (rest : List A) (c : Side) (s : State A)
      → (s.input c).waiting ≡ x ∷ rest
      → measure (receive_case (x ∷ rest) c s) < measure s
  unfolding receive_case weight
  receive_value-less x rest c s e =
      measure-put s c (record (s.input c) { waiting = rest }) (sending x)
        (omega (arith, ap length e))

  receive-step :
      (w : List A) (b : Bool) (c : Side) (s : State A)
      → (s.input c).gone ≡ b
      → (s.input c).waiting ≡ w
      → (receive b c s ≡ s) ⊎ (measure (receive b c s) < measure s)
  unfolding receive receive_case
  receive-step w true c s g e = inl refl
  receive-step [] false c s g e =
      subst (λ z. (receive_case z c s ≡ s) ⊎ (measure (receive_case z c s) < measure s)) (sym e)
        (receive_end-step (s.input c).closed c s g)
  receive-step (x ∷ rest) false c s g e =
      subst (λ z. (receive_case z c s ≡ s) ⊎ (measure (receive_case z c s) < measure s)) (sym e)
        (inr (receive_value-less x rest c s e))

  -- A case whose channel is not nil, with the sender done, is ready.
  receive-ready :
      (w : List A) (c : Side) (s : State A)
      → (s.input c).gone ≡ false
      → (s.input c).closed ≡ true
      → (s.input c).waiting ≡ w
      → measure (receive_case w c s) < measure s
  unfolding receive_case
  receive-ready [] c s g k e =
      subst (λ z. measure (receive_end z c s) < measure s) (sym k) (receive_end-less c s g)
  receive-ready (x ∷ rest) c s g k e = receive_value-less x rest c s e

  deliver-less :
      (x : A) (s : State A)
      → s.pc ≡ sending x
      → measure (step_at (sending x) delivers s) < measure s
  unfolding step_at measure
  deliver-less x s p = omega (arith, ap (λ z. length (in_flight z)) p)

  own_step :
      (pc : Pc A) (e : Event A) (s : State A)
      → s.pc ≡ pc
      → IsOwn e
      → (step_at pc e s ≡ s) ⊎ (measure (step_at pc e s) < measure s)
  unfolding step_at
  own_step pc (sends c x) s p o = absurd o
  own_step pc (closes c) s p o = absurd o
  own_step selecting (receives c) s p o =
      receive-step (s.input c).waiting (s.input c).gone c s refl refl
  own_step returned (receives c) s p o = inl refl
  own_step (sending x) (receives c) s p o = inl refl
  own_step selecting delivers s p o = inl refl
  own_step returned delivers s p o = inl refl
  own_step (sending x) delivers s p o = inr (deliver-less x s p)

  goes_on :
      (pc : Pc A) (s : State A)
      → s.pc ≡ pc
      → pc ≢ returned
      → Rounds pc (λ d. (s.input d).gone)
      → ((c : Side) → (s.input c).closed ≡ true)
      → (e : Event A) × IsOwn e × (measure (step_at pc e s) < measure s)
  unfolding step_at receive
  goes_on returned s p n r k = absurd (n refl)
  goes_on (sending x) s p n r k = (delivers, tt, deliver-less x s p)
  goes_on selecting s p n r k =
      let (c, g) = one_open (λ d. (s.input d).gone) r in
      (
        receives c,
        tt,
        subst (λ z. measure (receive z c s) < measure s) (sym g)
            (receive-ready (s.input c).waiting c s g (k c) refl),
      )

  -- A step of `MergeChannels` changes nothing or lowers the measure, so that no execution has
  -- infinitely many; and once the senders closed both channels, one of them lowers the measure, as
  -- long as the function has not returned.
  pub step_ends :
      (events : List (Event A))
      → let s = run events new_merge in
        ((e : Event A) → IsOwn e → (step e s ≡ s) ⊎ (measure (step e s) < measure s))
        × (((c : Side) → (s.input c).closed ≡ true)
            → s.pc ≢ returned
            → (e : Event A) × IsOwn e × (measure (step e s) < measure s))
  unfolding step
  step_ends events = (
    λ e o. own_step (run events new_merge).pc e (run events new_merge) refl o,
    λ k n.
        goes_on (run events new_merge).pc (run events new_merge) refl n (run-Inv events).rounds k,
  )
