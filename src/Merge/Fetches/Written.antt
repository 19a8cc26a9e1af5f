-- ===== src/Merge/Fetches/Written.antt =====
-- What `MergeFetches` of lab0/merge_channels.go has written when it closes `out`.
use mathlib.Core.List.{append-nil, append_assoc}
use cs.Base.{
  ℕ, zero, suc, ◌+◌, ◌-◌, ◌≤◌, ◌≡◌, refl, sym, ap, ap₂, ◌∙◌, Bool, true, false, List, [], ◌∷◌, ◌++◌,
  arith,
}
use cs.Merge.{Side, left, right, put}
use cs.Merge.Flow.{IsMerge, IsMerge-snoc, IsMerge-nil, put-all, put-right}
use cs.Merge.Fetches.{
  FetchPc, fetching, finished, writing, Fetching, FetchEvent, turns, closes, start_fetches, fetch,
  write, turn, close_at, fetch_step, fetch_run,
}

abbrev running : {A : Type 0} → FetchPc A → ℕ
running fetching = 1
running (writing x) = 1
running finished = 0

abbrev held : {A : Type 0} → FetchPc A → List A
held fetching = []
held (writing x) = x ∷ []
held finished = []

module _ {A : Type 0} where
  -- One side: its fetcher's items are written, held, or left over.
  record IsSide (items got left_over : List A) (pc : FetchPc A) : Type 0 where
    pub parts : items ≡ got ++ (held pc ++ left_over)
    pub done : running pc ≡ 0 → left_over ≡ []

  record FetchInv (items : Side → List A) (s : Fetching A) : Type 0 where
    pub got : Side → List A
    pub merged : IsMerge got s.out
    pub sides : (c : Side) → IsSide (items c) (got c) (s.left_over c) (s.pc c)
    pub count : s.wait_group ≡ running (s.pc left) + running (s.pc right)
    pub shut : s.closed ≡ true → s.wait_group ≡ 0
    pub calm : s.panicked ≡ false

  count-put :
      (pc : Side → FetchPc A) (c : Side) (p : FetchPc A) (n : ℕ)
      → n + running (pc c) ≡ running (pc left) + running (pc right) + running p
      → n ≡ running (put pc c p left) + running (put pc c p right)
  count-put pc left p n e = omega arith
  count-put pc right p n e = omega arith

  running_le :
      (pc : Side → FetchPc A) (c : Side) → running (pc c) ≤ running (pc left) + running (pc right)
  running_le pc left = omega arith
  running_le pc right = omega arith

  fetch-Inv :
      (items : Side → List A) (l : List A) (c : Side) (s : Fetching A)
      → s.pc c ≡ fetching
      → s.left_over c ≡ l
      → FetchInv items s
      → FetchInv items (fetch l c s)
  unfolding fetch
  fetch-Inv items [] c s p e v = record {
    got = v.got;
    merged = v.merged;
    sides =
        put-right (λ d (r : List A) p. IsSide (items d) (v.got d) r p) s.left_over s.pc c finished
          (record {
            parts = (v.sides c).parts ∙ ap (λ z. v.got c ++ (held z ++ s.left_over c)) p;
            done = λ _. e;
          })
          v.sides;
    count =
        count-put s.pc c finished (s.wait_group - 1)
          (omega (arith, v.count, ap running p, running_le s.pc c));
    shut = λ k. omega (arith, v.shut k);
    calm = v.calm;
  }
  fetch-Inv items (x ∷ rest) c s p e v = record {
    got = v.got;
    merged = v.merged;
    sides =
        put-all (λ d r p. IsSide (items d) (v.got d) r p) s.left_over s.pc c rest (writing x)
          (record {
            parts = (v.sides c).parts ∙ ap₂ (λ z r. v.got c ++ (held z ++ r)) p e;
            done = λ h. absurd (omega arith);
          })
          v.sides;
    count = count-put s.pc c (writing x) s.wait_group (omega (arith, v.count, ap running p));
    shut = v.shut;
    calm = v.calm;
  }

  write-Inv :
      (items : Side → List A) (b : Bool) (x : A) (c : Side) (s : Fetching A)
      → s.pc c ≡ writing x
      → s.closed ≡ b
      → FetchInv items s
      → FetchInv items (write b x c s)
  unfolding write
  write-Inv items true x c s p e v =
      absurd (omega (arith, ap running p, v.count, v.shut e, running_le s.pc c))
  write-Inv items false x c s p e v = record {
    got = put v.got c (v.got c ++ x ∷ []);
    merged = IsMerge-snoc c x v.merged;
    sides =
        put-all (λ d g p. IsSide (items d) g (s.left_over d) p) v.got s.pc c (v.got c ++ x ∷ [])
          fetching
          (record {
            parts =
                (v.sides c).parts
                ∙ ap (λ z. v.got c ++ (held z ++ s.left_over c)) p
                ∙ sym (append_assoc (v.got c) (x ∷ []) (s.left_over c));
            done = λ h. absurd (omega arith);
          })
          v.sides;
    count = count-put s.pc c fetching s.wait_group (omega (arith, v.count, ap running p));
    shut = λ k. v.shut k;
    calm = v.calm;
  }

  turn-Inv :
      (items : Side → List A) (pc : FetchPc A) (c : Side) (s : Fetching A)
      → s.pc c ≡ pc
      → FetchInv items s
      → FetchInv items (turn pc c s)
  unfolding turn
  turn-Inv items fetching c s p v = fetch-Inv items (s.left_over c) c s p refl v
  turn-Inv items (writing x) c s p v = write-Inv items s.closed x c s p refl v
  turn-Inv items finished c s p v = v

  close_at-Inv :
      (items : Side → List A) (n : ℕ) (s : Fetching A)
      → s.wait_group ≡ n
      → FetchInv items s
      → FetchInv items (close_at n s)
  unfolding close_at
  close_at-Inv items zero s e v = record {
    got = v.got;
    merged = v.merged;
    sides = v.sides;
    count = v.count;
    shut = λ _. e;
    calm = v.calm;
  }
  close_at-Inv items (suc n) s e v = v

  fetch_step-Inv :
      (items : Side → List A) (e : FetchEvent) (s : Fetching A)
      → FetchInv items s
      → FetchInv items (fetch_step e s)
  unfolding fetch_step
  fetch_step-Inv items (turns c) s v = turn-Inv items (s.pc c) c s refl v
  fetch_step-Inv items closes s v = close_at-Inv items s.wait_group s refl v

  fetch_run-Inv :
      (items : Side → List A) (events : List FetchEvent) (s : Fetching A)
      → FetchInv items s
      → FetchInv items (fetch_run events s)
  unfolding fetch_run
  fetch_run-Inv items [] s v = v
  fetch_run-Inv items (e ∷ events) s v =
      fetch_run-Inv items events (fetch_step e s) (fetch_step-Inv items e s v)

  start-Inv : (items : Side → List A) → FetchInv items (start_fetches items)
  unfolding start_fetches
  start-Inv items = record {
    got = λ c. [];
    merged = IsMerge-nil;
    sides = λ c. record { parts = refl; done = λ h. absurd (omega arith) };
    count = refl;
    shut = λ k. cc;
    calm = refl;
  }

  -- A side that is finished has all its items written.
  side_done :
      (items got rest : List A) (pc : FetchPc A)
      → IsSide items got rest pc
      → running pc ≡ 0
      → got ≡ items
  side_done items got rest fetching v z = absurd (omega arith)
  side_done items got rest (writing x) v z = absurd (omega arith)
  side_done items got rest finished v z =
      sym (v.parts ∙ ap (λ r. got ++ r) (v.done z) ∙ append-nil got)

  none_running :
      (pc : Side → FetchPc A) (c : Side)
      → running (pc left) + running (pc right) ≡ 0
      → running (pc c) ≡ 0
  none_running pc left h = omega arith
  none_running pc right h = omega arith

  -- In whatever order the two goroutines run: no goroutine writes to a closed channel, and once `out`
  -- is closed it holds an interleaving of all that the two fetchers return.
  pub fetch_run_merges :
      (items : Side → List A) (events : List FetchEvent)
      → ((fetch_run events (start_fetches items)).panicked ≡ false)
        × ((fetch_run events (start_fetches items)).closed ≡ true
            → IsMerge items (fetch_run events (start_fetches items)).out)
  fetch_run_merges items events = (
    v.calm,
    λ k. record {
      order = v.merged.order;
      all = v.merged.all;
      each = λ c.
          v.merged.each c
          ∙ side_done (items c) (v.got c) (s.left_over c) (s.pc c) (v.sides c)
              (none_running s.pc c (sym v.count ∙ v.shut k));
    },
  )
    where
      s : Fetching A
      s = fetch_run events (start_fetches items)

      v : FetchInv items (fetch_run events (start_fetches items))
      v = fetch_run-Inv items events (start_fetches items) (start-Inv items)
