-- ===== src/Fetcher/Tests.antt =====
-- A limit of two and three callers.
use cs.Base.{
  ℕ, zero, suc, ◌≤◌, ◌<◌, ◌≡◌, refl, sym, ap, Bool, true, false, Option, none, some, List, [], ◌∷◌,
  arith,
}
use cs.Base.Tests.{ltb, of_some, lt→ltb, ltb→lt}
use cs.Fetcher.{
  Weighted, acquiring, Event, calls, acquires, releases, answers, new_parallel_fetcher, fetch_run,
  fetch_step, fetch_at, acquire_at, release_at,
}
use cs.Fetcher.Limit.{total, inside, fetch_run_limit}

-- The size, and how many are acquired.
abbrev take_if : Bool → ℕ × ℕ → Option (ℕ × ℕ)
take_if true (size, held) = some (size, suc held)
take_if false (size, held) = none

abbrev take_one : ℕ × ℕ → Option (ℕ × ℕ)
take_one s = take_if (ltb s.1 s.0) s

abbrev give_one : ℕ × ℕ → Option (ℕ × ℕ)
give_one (size, zero) = none
give_one (size, suc held) = some (size, held)

take_one-held :
    (s s' : ℕ × ℕ) → take_one s ≡ some s' → (s.1 < s.0) × (s'.1 ≡ suc s.1) × (s'.0 ≡ s.0)
take_one-held s s' e = taken (ltb s.1 s.0) refl e
  where
    taken :
        (b : Bool)
        → ltb s.1 s.0 ≡ b
        → take_if b s ≡ some s'
        → (s.1 < s.0) × (s'.1 ≡ suc s.1) × (s'.0 ≡ s.0)
    taken false k f = cc
    taken true k f =
        let q : (s.0, suc s.1) ≡ s' = of_some f in
        (ltb→lt s.1 s.0 k, ap (λ z. z.1) (sym q), ap (λ z. z.0) (sym q))

take_one_free : (s : ℕ × ℕ) → s.1 < s.0 → (s' : ℕ × ℕ) × (take_one s ≡ some s')
take_one_free s h = ((s.0, suc s.1), rw (lt→ltb s.1 s.0 h) refl)

give_one-held : (s s' : ℕ × ℕ) → give_one s ≡ some s' → (suc s'.1 ≡ s.1) × (s'.0 ≡ s.0)
give_one-held (size, zero) s' e = cc
give_one-held (size, suc held) s' e =
    let q : (size, held) ≡ s' = of_some e in (ap (λ z. suc z.1) (sym q), ap (λ z. z.0) (sym q))

give_one-some : (s : ℕ × ℕ) → 0 < s.1 → (s' : ℕ × ℕ) × (give_one s ≡ some s')
give_one-some (size, zero) h = absurd (omega arith)
give_one-some (size, suc held) h = ((size, held), refl)

abbrev counted : Weighted
counted = record {
  State = ℕ × ℕ;
  new_weighted = λ n. (n, 0);
  acquire = take_one;
  release = give_one;
  size = λ s. s.0;
  held = λ s. s.1;
  new-held = λ n. (refl, refl);
  acquire-held = take_one-held;
  acquire_free = take_one_free;
  release-held = give_one-held;
  release_some = give_one-some;
}

-- The third caller has to wait until the first has released.
abbrev busy_hour : List Event
busy_hour =
    calls 0
    ∷ calls 1
    ∷ calls 2
    ∷ acquires 0
    ∷ acquires 1
    ∷ acquires 2
    ∷ answers 0 (some 7)
    ∷ releases 0
    ∷ []

third_waits : (fetch_run counted busy_hour (new_parallel_fetcher counted 2)).pc 2 ≡ acquiring
unfolding fetch_run fetch_step fetch_at acquire_at release_at new_parallel_fetcher
third_waits = refl

fetch_run_limit_example :
    (total inside 3 (fetch_run counted busy_hour (new_parallel_fetcher counted 2)).pc ≤ 2)
    × ((fetch_run counted busy_hour (new_parallel_fetcher counted 2)).panicked ≡ false)
fetch_run_limit_example = fetch_run_limit counted 2 3 busy_hour
