-- ===== src/Merge/Flow.antt =====
-- What became of the values that were sent, after any events.
use mathlib.Core.List.{append-nil, append_assoc}
use cs.Base.{◌≡◌, refl, sym, ap, subst, ◌∙◌, Bool, true, false, ◌&&◌, List, [], ◌∷◌, ◌++◌}
use cs.Base.Tests.{if◌then◌else◌}
use cs.Merge.{
  Side, left, right, put, Input, Pc, selecting, returned, sending, State, Event, sends, closes,
  receives, delivers, new_merge, send_to, after_round, receive_end, receive_case, receive, step_at,
  step,
}

pub put-all :
    {B C : Type 0} (P : Side → B → C → Type 0) (f : Side → B) (g : Side → C) (c : Side) (x : B)
    (y : C)
    → P c x y
    → ((d : Side) → P d (f d) (g d))
    → (d : Side) → P d (put f c x d) (put g c y d)
put-all P f g left x y p h left = p
put-all P f g left x y p h right = h right
put-all P f g right x y p h left = h left
put-all P f g right x y p h right = p

pub put-right :
    {B C : Type 0} (P : Side → B → C → Type 0) (f : Side → B) (g : Side → C) (c : Side) (y : C)
    → P c (f c) y
    → ((d : Side) → P d (f d) (g d))
    → (d : Side) → P d (f d) (put g c y d)
put-right P f g left y p h left = p
put-right P f g left y p h right = h right
put-right P f g right y p h left = h left
put-right P f g right y p h right = p

module _ {A : Type 0} where
  -- The values of a tagged list, and those that came from one side.
  pub values : List (Side × A) → List A
  values [] = []
  values ((c, x) ∷ t) = x ∷ values t

  abbrev pub came : Side → Side × A → List A
  came left (left, x) = x ∷ []
  came left (right, x) = []
  came right (left, x) = []
  came right (right, x) = x ∷ []

  pub from : Side → List (Side × A) → List A
  from c [] = []
  from c (e ∷ t) = came c e ++ from c t

  -- `out` is an interleaving of the two lists `got`: each keeps its order.
  pub record IsMerge (got : Side → List A) (out : List A) : Type 0 where
    pub order : List (Side × A)
    pub all : values order ≡ out
    pub each : (c : Side) → from c order ≡ got c

  values-snoc :
      (t : List (Side × A)) (c : Side) (x : A) → values (t ++ (c, x) ∷ []) ≡ values t ++ x ∷ []
  unfolding values
  values-snoc [] c x = refl
  values-snoc ((d, y) ∷ t) c x = ap (◌∷◌ y) (values-snoc t c x)

  from-snoc :
      (d : Side) (t : List (Side × A)) (e : Side × A) → from d (t ++ e ∷ []) ≡ from d t ++ came d e
  unfolding from
  from-snoc d [] e = append-nil (came d e)
  from-snoc d (y ∷ t) e =
      ap (λ z. came d y ++ z) (from-snoc d t e)
      ∙ sym (append_assoc (came d y) (from d t) (came d e))

  put-came :
      (got : Side → List A) (c d : Side) (x : A)
      → got d ++ came d (c, x) ≡ put got c (got c ++ x ∷ []) d
  put-came got left left x = refl
  put-came got left right x = append-nil (got right)
  put-came got right left x = append-nil (got left)
  put-came got right right x = refl

  -- One more value from one side.
  pub IsMerge-snoc :
      {got : Side → List A} {out : List A} (c : Side) (x : A)
      → IsMerge got out
      → IsMerge (put got c (got c ++ x ∷ [])) (out ++ x ∷ [])
  IsMerge-snoc {got} c x m = record {
    order = m.order ++ (c, x) ∷ [];
    all = values-snoc m.order c x ∙ ap (λ z. z ++ x ∷ []) m.all;
    each = λ d.
        from-snoc d m.order (c, x) ∙ ap (λ z. z ++ came d (c, x)) (m.each d) ∙ put-came got c d x;
  }

  pub IsMerge-nil : IsMerge (λ c. []) []
  unfolding values from
  IsMerge-nil = record { order = []; all = refl; each = λ c. refl }

  -- The value that was received and not written yet.
  abbrev pub in_flight : Pc A → List A
  in_flight selecting = []
  in_flight returned = []
  in_flight (sending x) = x ∷ []

  -- One side of a merge of which `got` was received.
  pub record IsInput (got : List A) (i : Input A) : Type 0 where
    pub parts : i.sent ≡ got ++ i.waiting
    pub ended : i.gone ≡ true → (i.closed ≡ true) × (i.waiting ≡ [])

  -- Every value that was sent waits, is in flight, or was written.
  pub record Flows (s : State A) : Type 0 where
    pub got : Side → List A
    pub merged : IsMerge got (s.out ++ in_flight s.pc)
    pub inputs : (c : Side) → IsInput (got c) (s.input c)

  send-IsInput :
      (got : List A) (x : A) (i : Input A) (b : Bool)
      → i.closed ≡ b
      → IsInput got i
      → IsInput got (send_to b x i)
  unfolding send_to
  send-IsInput got x i true e v = v
  send-IsInput got x i false e v = record {
    parts = ap (λ z. z ++ x ∷ []) v.parts ∙ append_assoc got i.waiting (x ∷ []);
    ended = λ g. cc ((v.ended g).0, e);
  }

  -- A round that ends with no value has none in flight.
  pub after_round_none : (input : Side → Input A) → [] ≡ in_flight (after_round input)
  unfolding after_round
  after_round_none input = none_if ((input left).gone && (input right).gone)
    where
      none_if : (b : Bool) → [] ≡ in_flight (if b then returned else selecting)
      none_if true = refl
      none_if false = refl

  -- The ways of `receive`.
  receive_end-Flows :
      (b : Bool) (c : Side) (s : State A)
      → s.pc ≡ selecting
      → (s.input c).closed ≡ b
      → (s.input c).waiting ≡ []
      → Flows s
      → Flows (receive_end b c s)
  unfolding receive_end
  receive_end-Flows false c s p k e v = v
  receive_end-Flows true c s p k e v = record {
    got = v.got;
    merged =
        subst (λ z. IsMerge v.got (s.out ++ z))
          (ap in_flight p ∙ after_round_none (put s.input c (record (s.input c) { gone = true })))
          v.merged;
    inputs =
        put-right (λ d. IsInput) v.got s.input c _
          (record { parts = (v.inputs c).parts; ended = λ _. (k, e) }) v.inputs;
  }

  receive_case-Flows :
      (w : List A) (c : Side) (s : State A)
      → s.pc ≡ selecting
      → (s.input c).gone ≡ false
      → (s.input c).waiting ≡ w
      → Flows s
      → Flows (receive_case w c s)
  unfolding receive_case
  receive_case-Flows (x ∷ rest) c s p n e v = record {
    got = put v.got c (v.got c ++ x ∷ []);
    merged =
        subst (λ z. IsMerge (put v.got c (v.got c ++ x ∷ [])) (z ++ x ∷ []))
          (ap (λ z. s.out ++ in_flight z) p ∙ append-nil s.out) (IsMerge-snoc c x v.merged);
    inputs =
        put-all (λ d. IsInput) v.got s.input c _ _
          (record {
            parts =
                (v.inputs c).parts
                ∙ ap (λ z. v.got c ++ z) e
                ∙ sym (append_assoc (v.got c) (x ∷ []) rest);
            ended = λ g. cc (g, n);
          })
          v.inputs;
  }
  receive_case-Flows [] c s p n e v = receive_end-Flows (s.input c).closed c s p refl e v

  receive-Flows :
      (b : Bool) (c : Side) (s : State A)
      → s.pc ≡ selecting
      → (s.input c).gone ≡ b
      → Flows s
      → Flows (receive b c s)
  unfolding receive
  receive-Flows true c s p n v = v
  receive-Flows false c s p n v = receive_case-Flows (s.input c).waiting c s p n refl v

  step_at-Flows :
      (pc : Pc A) (e : Event A) (s : State A) → s.pc ≡ pc → Flows s → Flows (step_at pc e s)
  unfolding step_at
  step_at-Flows pc (sends c x) s p v = record {
    got = v.got;
    merged = v.merged;
    inputs =
        put-right (λ d. IsInput) v.got s.input c _
          (send-IsInput (v.got c) x (s.input c) _ refl (v.inputs c)) v.inputs;
  }
  step_at-Flows pc (closes c) s p v = record {
    got = v.got;
    merged = v.merged;
    inputs =
        put-right (λ d. IsInput) v.got s.input c _
          (record { parts = (v.inputs c).parts; ended = λ g. (refl, ((v.inputs c).ended g).1) })
          v.inputs;
  }
  step_at-Flows selecting (receives c) s p v = receive-Flows (s.input c).gone c s p refl v
  step_at-Flows returned (receives c) s p v = v
  step_at-Flows (sending x) (receives c) s p v = v
  step_at-Flows selecting delivers s p v = v
  step_at-Flows returned delivers s p v = v
  step_at-Flows (sending x) delivers s p v = record {
    got = v.got;
    merged =
        subst (λ z. IsMerge v.got z)
          (ap (λ z. s.out ++ in_flight z) p ∙ sym (append-nil (s.out ++ x ∷ []))) v.merged;
    inputs = v.inputs;
  }

  pub new-Flows : Flows new_merge
  unfolding new_merge
  new-Flows = record {
    got = λ c. [];
    merged = IsMerge-nil;
    inputs = λ c. record { parts = refl; ended = λ g. cc };
  }

  pub step-Flows : (e : Event A) (s : State A) → Flows s → Flows (step e s)
  unfolding step
  step-Flows e s v = step_at-Flows s.pc e s refl v
