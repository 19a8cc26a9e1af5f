-- ===== src/Merge/Channels.antt =====
-- `MergeChannels` of lab0/merge_channels.go: what it has written when it returns, and that it returns.
use cs.Base.{◌≡◌, refl, sym, ap, subst, ◌∙◌, Bool, true, false, ◌&&◌, List, [], ◌∷◌, ◌++◌}
use mathlib.Core.List.{append-nil}
use cs.Base.Tests.{if◌then◌else◌}
use cs.Merge.{
  Side, left, right, put, Input, Pc, selecting, returned, sending, State, Event, sends, closes,
  receives, delivers, new_merge, send_to, after_round, receive_end, receive_case, receive, step_at,
  step, run,
}
use cs.Merge.Flow.{IsMerge, in_flight, IsInput, Flows, new-Flows, step-Flows, put-right}

-- While it runs one of the channels is not nil, and when it has returned both are.
abbrev pub Rounds : {A : Type 0} → Pc A → (Side → Bool) → Type 0
Rounds selecting gone = (gone left && gone right) ≡ false
Rounds (sending x) gone = (gone left && gone right) ≡ false
Rounds returned gone = (c : Side) → gone c ≡ true

both : (g : Side → Bool) → (g left && g right) ≡ true → (c : Side) → g c ≡ true
both g e left = first (g left) e
  where
    first : (a : Bool) → (a && g right) ≡ true → a ≡ true
    first true e = refl
    first false e = cc
both g e right = second (g left) e
  where
    second : (a : Bool) → (a && g right) ≡ true → g right ≡ true
    second true e = e
    second false e = cc

module _ {A : Type 0} where
  Rounds-ext :
      (pc : Pc A) (g h : Side → Bool) → ((c : Side) → g c ≡ h c) → Rounds pc g → Rounds pc h
  Rounds-ext selecting g h e r = rw (← e left, ← e right) r
  Rounds-ext (sending x) g h e r = rw (← e left, ← e right) r
  Rounds-ext returned g h e r = λ c. sym (e c) ∙ r c

  -- An input that is replaced by one that is nil as before.
  pub keep-Rounds :
      (pc : Pc A) (input : Side → Input A) (c : Side) (i : Input A)
      → (input c).gone ≡ i.gone
      → Rounds pc (λ d. (input d).gone)
      → Rounds pc (λ d. (put input c i d).gone)
  keep-Rounds pc input c i e r =
      Rounds-ext pc _ _ (put-right (λ d x y. x.gone ≡ y.gone) input input c i e (λ d. refl)) r

  after_round-Rounds : (input : Side → Input A) → Rounds (after_round input) (λ d. (input d).gone)
  unfolding after_round
  after_round-Rounds input = by_test ((input left).gone && (input right).gone) refl
    where
      by_test :
          (b : Bool)
          → ((input left).gone && (input right).gone) ≡ b
          → Rounds {A = A} (if b then returned else selecting) (λ d. (input d).gone)
      by_test false e = e
      by_test true e = both (λ d. (input d).gone) e

  receive_end-Rounds :
      (b : Bool) (c : Side) (s : State A)
      → Rounds s.pc (λ d. (s.input d).gone)
      → Rounds (receive_end b c s).pc (λ d. ((receive_end b c s).input d).gone)
  unfolding receive_end
  receive_end-Rounds false c s r = r
  receive_end-Rounds true c s r =
      after_round-Rounds (put s.input c (record (s.input c) { gone = true }))

  receive_case-Rounds :
      (w : List A) (c : Side) (s : State A)
      → s.pc ≡ selecting
      → Rounds s.pc (λ d. (s.input d).gone)
      → Rounds (receive_case w c s).pc (λ d. ((receive_case w c s).input d).gone)
  unfolding receive_case
  receive_case-Rounds [] c s p r = receive_end-Rounds (s.input c).closed c s r
  receive_case-Rounds (x ∷ rest) c s p r =
      keep-Rounds (sending x) s.input c _ refl (subst (λ z. Rounds z (λ d. (s.input d).gone)) p r)

  receive-Rounds :
      (b : Bool) (c : Side) (s : State A)
      → s.pc ≡ selecting
      → Rounds s.pc (λ d. (s.input d).gone)
      → Rounds (receive b c s).pc (λ d. ((receive b c s).input d).gone)
  unfolding receive
  receive-Rounds true c s p r = r
  receive-Rounds false c s p r = receive_case-Rounds (s.input c).waiting c s p r

  send_gone : (b : Bool) (x : A) (i : Input A) → i.gone ≡ (send_to b x i).gone
  unfolding send_to
  send_gone true x i = refl
  send_gone false x i = refl

  step_at-Rounds :
      (pc : Pc A) (e : Event A) (s : State A)
      → s.pc ≡ pc
      → Rounds s.pc (λ d. (s.input d).gone)
      → Rounds (step_at pc e s).pc (λ d. ((step_at pc e s).input d).gone)
  unfolding step_at
  step_at-Rounds pc (sends c x) s p r =
      keep-Rounds s.pc s.input c _ (send_gone (s.input c).closed x (s.input c)) r
  step_at-Rounds pc (closes c) s p r = keep-Rounds s.pc s.input c _ refl r
  step_at-Rounds selecting (receives c) s p r = receive-Rounds (s.input c).gone c s p r
  step_at-Rounds returned (receives c) s p r = r
  step_at-Rounds (sending x) (receives c) s p r = r
  step_at-Rounds selecting delivers s p r = r
  step_at-Rounds returned delivers s p r = r
  step_at-Rounds (sending x) delivers s p r = subst (λ z. Rounds z (λ d. (s.input d).gone)) p r

  -- What is true at any time: the values' flow, and the rounds.
  pub record Inv (s : State A) : Type 0 where
    pub flows : Flows s
    pub rounds : Rounds s.pc (λ d. (s.input d).gone)

  pub step-Inv : (e : Event A) (s : State A) → Inv s → Inv (step e s)
  unfolding step
  step-Inv e s v = record {
    flows = step-Flows e s v.flows;
    rounds = step_at-Rounds s.pc e s refl v.rounds;
  }

  run_from-Inv : (events : List (Event A)) (s : State A) → Inv s → Inv (run events s)
  unfolding run
  run_from-Inv [] s v = v
  run_from-Inv (e ∷ events) s v = run_from-Inv events (step e s) (step-Inv e s v)

  pub run-Inv : (events : List (Event A)) → Inv (run events new_merge)
  unfolding new_merge
  run-Inv events = run_from-Inv events new_merge (record { flows = new-Flows; rounds = refl })

  -- All that was sent was received, once a channel is nil.
  pub gone-received : (got : List A) (i : Input A) → IsInput got i → i.gone ≡ true → got ≡ i.sent
  gone-received got i v g =
      sym (append-nil got) ∙ sym (ap (λ z. got ++ z) (v.ended g).1) ∙ sym v.parts

  -- When it has returned, all was received.
  pub returned-IsMerge :
      (s : State A)
      → Inv s
      → s.pc ≡ returned
      → IsMerge (λ c. (s.input c).sent) s.out × ((c : Side) → (s.input c).closed ≡ true)
  returned-IsMerge s v p =
      let gone : (c : Side) → (s.input c).gone ≡ true =
        subst (λ z. Rounds z (λ d. (s.input d).gone)) p v.rounds in
      let m = v.flows.merged in
      (
        record {
          order = m.order;
          all = m.all ∙ ap (λ z. s.out ++ in_flight z) p ∙ append-nil s.out;
          each =
              λ c. m.each c ∙ gone-received (v.flows.got c) (s.input c) (v.flows.inputs c) (gone c);
        },
        λ c. ((v.flows.inputs c).ended (gone c)).0,
      )

  -- Whatever the senders do and whatever order the cases are chosen in: what `MergeChannels` has
  -- written and has in flight is an interleaving of what it received, and what it received of a
  -- channel is the first part of what was sent on it; when it has returned, both channels are
  -- closed, and `out` is an interleaving of all that was sent on them.
  pub run_merges :
      (events : List (Event A))
      → Flows (run events new_merge)
        × ((run events new_merge).pc ≡ returned
            → IsMerge (λ c. ((run events new_merge).input c).sent) (run events new_merge).out
              × ((c : Side) → ((run events new_merge).input c).closed ≡ true))
  run_merges events = (v.flows, λ p. returned-IsMerge (run events new_merge) v p)
    where
      v : Inv (run events new_merge)
      v = run-Inv events
