-- ===== src/Queue/Fifo.antt =====
-- The queue of lab0/queue.go against the plain FIFO list.
use cs.Base.{
  ℕ, suc, ◌+◌, ◌-◌, ◌*◌, ◌%◌, ◌≤◌, ◌<◌, ◌≡◌, ◌≢◌, sym, inl, inr, ap, ◌∙◌, true, false, some, List,
  [], ◌∷◌, ◌++◌, arith,
}
use native.Mathlib.Nat.{mod-add-mod, mod-eq_of_lt}
use cs.Base.Tests.{◌==◌, ltb, ltb→lt, lt→ltb, ltb_false→le, le→ltb_false, Bool-cases}
use cs.Base.Lists.{
  length, get_elem?, set, length-append, length-set, get_elem?-set_self, get_elem?-set_ne,
  get_elem?-append,
}
use cs.Queue.{Queue, store, grown, push_in_place, push_growing, push, pop, pop_front}
use cs.Queue.Valid.{IsValid, Holds, circle_before, circle_after}
use cs.Queue.Grow.{Moved, grown-Moved}

module _ {A : Type 0} (dflt : A) where
  -- Two places of the circle at different distances from the head differ.
  circle_ne : (h i n s : ℕ) → h < s → i < n → n < s → (h + n) % s ≢ (h + i) % s
  circle_ne h i n s hh hi hn e = ground (
    arith,
    circle_before h i s,
    circle_before h n s,
    circle_after h i s hh,
    circle_after h n s hh,
  )

  -- One step round the circle.
  circle_next : (h n s : ℕ) → ((h + n) % s + 1) % s ≡ (h + (n + 1)) % s
  circle_next h n s = rw mod-add-mod (ap (λ k. k % s) (omega arith))

  circle_shift : (h i s : ℕ) → ((h + 1) % s + i) % s ≡ (h + suc i) % s
  circle_shift h i s = rw mod-add-mod (ap (λ k. k % s) (omega arith))

  -- The queue after `Push` found room.
  abbrev in_place : Queue A → A → Queue A
  in_place q t = record q {
    buf = set q.buf q.first_empty t;
    first_empty = (q.first_empty + 1) % q.size;
    num_elements = q.num_elements + 1;
  }

  -- `Push` writes inside the buffer.
  tail_in : (q : Queue A) → IsValid q → q.first_empty < length q.buf
  tail_in q v = omega arith

  in_place-at :
      (q : Queue A) (xs : List A) (t : A) (i : ℕ)
      → Holds q xs
      → q.num_elements < q.size
      → i < q.num_elements + 1
      → get_elem? (set q.buf q.first_empty t) ((q.head + i) % q.size) ≡ get_elem? (xs ++ t ∷ []) i
  in_place-at q xs t i h room k = elim (Bool-cases (ltb i q.num_elements)) [
    | inl old ↦ ground (
      arith,
      h.count,
      get_elem?-append xs (t ∷ []) i,
      get_elem?-set_ne q.buf q.first_empty ((q.head + i) % q.size) t (
          rw h.valid.tail
            (circle_ne q.head i q.num_elements q.size h.valid.head_in (ltb→lt _ _ old) room)),
      h.at i (ltb→lt _ _ old),
    )
    | inr new ↦
        let e : i ≡ q.num_elements = omega (arith, ltb_false→le _ _ new) in
        rw (e, ← h.valid.tail, get_elem?-append xs (t ∷ []) q.num_elements, h.count)
          (rw
            (
              get_elem?-set_self q.buf q.first_empty t (tail_in q h.valid),
              le→ltb_false q.num_elements q.num_elements (omega arith),
            )
            (ground arith))
  ]

  push_in_place-Holds :
      (q : Queue A) (xs : List A) (t : A)
      → Holds q xs
      → q.num_elements < q.size
      → (push_in_place dflt q t ≡ some (in_place q t)) × Holds (in_place q t) (xs ++ t ∷ [])
  unfolding push_in_place store
  push_in_place-Holds q xs t h room = (
    rw (lt→ltb q.first_empty (length q.buf) (tail_in q h.valid), push_in_place),
    record {
      valid = record {
        roomy = h.valid.roomy;
        storage = length-set q.buf q.first_empty t ∙ h.valid.storage;
        head_in = h.valid.head_in;
        within = omega arith;
        tail = rw h.valid.tail (circle_next q.head q.num_elements q.size);
      };
      count = omega (arith, length-append xs (t ∷ []), h.count);
      at = λ i k. in_place-at q xs t i h room k;
    },
  )

  -- The full queue in its new buffer.
  abbrev moved : Queue A → List A → Queue A
  moved q out = record {
    head = 0;
    first_empty = q.size;
    num_elements = q.num_elements;
    buf = out;
    size = q.size * 2;
  }

  moved-Holds :
      (q : Queue A) (xs : List A) (out : List A) (h : Holds q xs) (full : q.num_elements ≡ q.size)
      → Moved dflt q h.valid full out
      → Holds (moved q out) xs
  moved-Holds q xs out h full m = record {
    valid = record {
      roomy = omega arith;
      storage = m.1;
      head_in = omega arith;
      within = omega arith;
      tail = omega (arith, mod-eq_of_lt {n = 0 + q.num_elements} {m = q.size * 2} (omega arith));
    };
    count = h.count;
    at = λ i k.
        rw (mod-eq_of_lt {n = 0 + i} {m = q.size * 2} (omega arith))
          (ap (get_elem? out) (omega arith) ∙ m.2 i (omega arith) ∙ h.at i k);
  }

  push_growing-eq :
      (q : Queue A) (t : A) (out : List A)
      → 2 ≤ q.size
      → grown dflt q ≡ some out
      → length out ≡ q.size * 2
      → push_growing dflt q t ≡ some (in_place (moved q out) t)
  unfolding push_growing store
  push_growing-eq q t out two e size =
      rw (e, lt→ltb q.size (length out) (omega arith), push_growing)
        (ap
          (λ k. some (record {
            head = 0;
            first_empty = k;
            num_elements = q.num_elements + 1;
            buf = set out q.size t;
            size = q.size * 2;
          }))
          (omega (arith, mod-eq_of_lt {n = q.size + 1} {m = q.size * 2} (omega arith))))

  push_full-Holds :
      (q : Queue A) (xs : List A) (t : A)
      → Holds q xs
      → q.num_elements ≡ q.size
      → (q' : Queue A) × (push_growing dflt q t ≡ some q') × Holds q' (xs ++ t ∷ [])
  push_full-Holds q xs t h full =
      let r = grown-Moved dflt q h.valid full in
      (
        in_place (moved q r.0) t,
        push_growing-eq q t r.0 h.valid.roomy r.1.0 r.1.1,
        (push_in_place-Holds (moved q r.0) xs t (moved-Holds q xs r.0 h full r.1) (omega arith)).1,
      )

  -- `Push` never panics, and adds its element at the end, on both of its branches.
  pub push-Holds :
      (q : Queue A) (xs : List A) (t : A)
      → Holds q xs
      → (q' : Queue A) × (push dflt q t ≡ some q') × Holds q' (xs ++ t ∷ [])
  unfolding push
  push-Holds q xs t h = elim (Bool-cases (ltb q.num_elements q.size)) [
    | inl room ↦
        let r = push_in_place-Holds q xs t h (ltb→lt _ _ room) in (in_place q t, rw room r.0, r.1)
    | inr full ↦
        let r = push_full-Holds q xs t h (omega (arith, ltb_false→le _ _ full)) in
        (r.0, rw full r.1, r.2)
  ]

  -- `Pop` of an empty queue.
  pub pop-empty : (q : Queue A) → Holds q [] → pop dflt q ≡ some ((dflt, false), q)
  unfolding pop
  pop-empty q h = rw (let e : (q.num_elements == 0) ≡ true = ground (arith, h.count) in e)

  -- The queue after `Pop` took its front.
  abbrev rest : Queue A → Queue A
  rest q = record q { head = (q.head + 1) % q.size; num_elements = q.num_elements - 1 }

  pop_front-eq :
      (q : Queue A) (x : A)
      → get_elem? q.buf q.head ≡ some x
      → pop_front dflt q ≡ some ((x, true), rest q)
  unfolding pop_front
  pop_front-eq q x e = rw (e, pop_front)

  rest-Holds : (q : Queue A) (x : A) (xs : List A) → Holds q (x ∷ xs) → Holds (rest q) xs
  rest-Holds q x xs h = record {
    valid = record {
      roomy = h.valid.roomy;
      storage = h.valid.storage;
      head_in = omega arith;
      within = omega arith;
      tail =
          h.valid.tail
          ∙ ap (λ k. (q.head + k) % q.size) (omega (arith, h.count))
          ∙ sym (circle_shift q.head (q.num_elements - 1) q.size);
    };
    count = omega (arith, h.count);
    at = λ i k. rw (circle_shift q.head i q.size) (h.at (suc i) (omega arith));
  }

  -- `Pop` of a queue with elements returns the oldest and leaves the others.
  pub pop-Holds :
      (q : Queue A) (x : A) (xs : List A)
      → Holds q (x ∷ xs)
      → (q' : Queue A) × (pop dflt q ≡ some ((x, true), q')) × Holds q' xs
  unfolding pop
  pop-Holds q x xs h = (
    rest q,
    rw (let e : (q.num_elements == 0) ≡ false = ground (arith, h.count) in e)
        (pop_front-eq q x (ap (get_elem? q.buf) front ∙ h.at 0 (omega (arith, h.count)))),
    rest-Holds q x xs h,
  )
    where
      front : q.head ≡ (q.head + 0) % q.size
      front = omega (arith, circle_before q.head 0 q.size (omega arith))
