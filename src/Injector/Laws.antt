-- ===== src/Injector/Laws.antt =====
-- When `MaybeInject` fails a request, drops its response or panics.
use mathlib.Core.Path.{subst}
use cs.Base.{
  Bool, ◌<◌, ◌↔◌, List, [], ◌∷◌, ℕ, zero, suc, ◌≡◌, ◌≢◌, refl, ◌⊎◌, inl, inr, true, false, none,
  some, arith,
}
use cs.Base.Tests.{◌==◌, ==_iff, Bool-cases}
use cs.Base.Int.{ℤ, pos, negsuc}
use cs.Injector.{
  Rand, FailureInjector, Injection, should_error, omits_response, panics, one_in, maybe_inject,
  clear_injection_config, set_injection_config,
}

abbrev pub IsNegative : ℤ → Type 0
IsNegative (pos n) = ⊥
IsNegative (negsuc n) = Unit

abbrev pub IsPositive : ℤ → Type 0
IsPositive (pos zero) = ⊥
IsPositive (pos (suc n)) = Unit
IsPositive (negsuc n) = ⊥

-- The failure rate and the omission rate with which a request can end so.
abbrev pub IsPossible : ℤ → ℤ → Injection → Type 0
IsPossible failure omission panics = IsNegative failure ⊎ IsNegative omission
IsPossible failure omission omits_response = (¬ IsNegative failure) × IsPositive omission
IsPossible failure omission (should_error true) =
    IsPositive failure × (¬ IsNegative omission) × (omission ≢ pos 1)
IsPossible failure omission (should_error false) =
    (¬ IsNegative failure) × (failure ≢ pos 1) × (¬ IsNegative omission) × (omission ≢ pos 1)

module _ (rand : Rand) where
  open rand use {State, int63n, int63n-lt}

  -- There is one number below one.
  int63n_one : (s : State) → (int63n 1 s).0 ≡ 0
  int63n_one s = omega (arith, int63n-lt 1 s (omega arith))

  -- With an injector that was just cleared no request fails, none is dropped, and no random number is
  -- drawn.
  pub maybe_inject-clear :
      (fi : FailureInjector) (s : State)
      → maybe_inject rand (clear_injection_config fi) s ≡ (should_error false, s)
  unfolding maybe_inject clear_injection_config
  maybe_inject-clear fi s = refl

  -- A positive rate of which the draw was not zero is not one.
  above_one : (n : ℕ) (s : State) → ((int63n (suc n) s).0 == 0) ≡ false → pos (suc n) ≢ pos 1
  above_one zero s h e = cc ((==_iff (int63n 1 s).0 0).1 (int63n_one s), h)
  above_one (suc n) s h e = cc

  -- `oneIn` panics, or finds a zero, or does not.
  one_in-cases :
      (rate : ℤ) (s : State)
      → (IsNegative rate × (one_in rand rate s ≡ none))
        ⊎ ((s' : State) × IsPositive rate × (one_in rand rate s ≡ some (true, s')))
        ⊎ ((s' : State) × ((¬ IsNegative rate) × (rate ≢ pos 1))
            × (one_in rand rate s ≡ some (false, s')))
  unfolding one_in
  one_in-cases (negsuc n) s = inl (tt, refl)
  one_in-cases (pos zero) s = inr (inr (s, (λ u. u, λ e. cc), refl))
  one_in-cases (pos (suc n)) s = elim (Bool-cases ((int63n (suc n) s).0 == 0)) [
    | inl t ↦ inr (inl ((int63n (suc n) s).1, tt, rw t refl))
    | inr f ↦ inr (inr ((int63n (suc n) s).1, (λ u. u, above_one n s f), rw f refl))
  ]

  IsPositive-IsNegative : (rate : ℤ) → IsPositive rate → ¬ IsNegative rate
  IsPositive-IsNegative (pos n) h = λ u. u
  IsPositive-IsNegative (negsuc n) h = absurd h

  -- Rates leave only some ways to end.
  maybe_inject-IsPossible :
      (fi : FailureInjector) (s : State) (sleep_ns failure omission : ℤ)
      → IsPossible failure omission
          (maybe_inject rand (set_injection_config sleep_ns failure omission fi) s).0
  unfolding maybe_inject set_injection_config
  maybe_inject-IsPossible fi s sleep_ns failure omission = elim (one_in-cases failure s) [
    | inl (n, e) ↦ rw e (inl n)
    | inr (inl (s', h, e)) ↦ elim (one_in-cases omission s') [
      | inl (n, e') ↦ rw (e, e') (inr n)
      | inr (inl (_, h', e')) ↦ rw (e, e') (IsPositive-IsNegative failure h, h')
      | inr (inr (_, h', e')) ↦ rw (e, e') (h, h'.0, h'.1)
    ]
    | inr (inr (s', h, e)) ↦ elim (one_in-cases omission s') [
      | inl (n, e') ↦ rw (e, e') (inr n)
      | inr (inl (_, h', e')) ↦ rw (e, e') (h.0, h')
      | inr (inr (_, h', e')) ↦ rw (e, e') (h.0, h.1, h'.0, h'.1)
    ]
  ]

-- A generator that draws a zero or, if it is told to and the bound allows it, a one.
scripted_draw : ℕ → List Bool → ℕ × List Bool
scripted_draw n [] = (0, [])
scripted_draw n (false ∷ ds) = (0, ds)
scripted_draw (suc (suc n)) (true ∷ ds) = (1, ds)
scripted_draw n (true ∷ ds) = (0, ds)

scripted_draw-lt : (n : ℕ) (ds : List Bool) → 0 < n → (scripted_draw n ds).0 < n
unfolding scripted_draw
scripted_draw-lt n [] h = h
scripted_draw-lt n (false ∷ ds) h = h
scripted_draw-lt zero (true ∷ ds) h = h
scripted_draw-lt (suc zero) (true ∷ ds) h = h
scripted_draw-lt (suc (suc n)) (true ∷ ds) h = omega arith

abbrev scripted : Rand
scripted = record { State = List Bool; int63n = scripted_draw; int63n-lt = scripted_draw-lt }

-- A request that ends as it can, with some draws.
abbrev Reached : ℤ → ℤ → Injection → FailureInjector → ℤ → Type 0
Reached failure omission how fi sleep_ns =
    (ds : List Bool) × ((maybe_inject scripted (set_injection_config sleep_ns failure omission fi)
        ds).0
      ≡ how)

reaches :
    (fi : FailureInjector) (sleep_ns failure omission : ℤ) (how : Injection)
    → IsPossible failure omission how
    → Reached failure omission how fi sleep_ns
unfolding maybe_inject set_injection_config one_in scripted_draw
reaches fi sleep_ns (negsuc n) omission panics h = ([], refl)
reaches fi sleep_ns (negsuc n) omission omits_response h = absurd (h.0 tt)
reaches fi sleep_ns (negsuc n) omission (should_error true) h = absurd h.0
reaches fi sleep_ns (negsuc n) omission (should_error false) h = absurd (h.0 tt)
reaches fi sleep_ns (pos zero) (negsuc m) panics h = ([], refl)
reaches fi sleep_ns (pos (suc n)) (negsuc m) panics h = ([], refl)
reaches fi sleep_ns (pos n) (pos m) panics h = elim h [ inl f ↦ absurd f | inr f ↦ absurd f ]
reaches fi sleep_ns (pos n) (negsuc m) omits_response h = absurd h.1
reaches fi sleep_ns (pos n) (pos zero) omits_response h = absurd h.1
reaches fi sleep_ns (pos zero) (pos (suc m)) omits_response h = ([], refl)
reaches fi sleep_ns (pos (suc n)) (pos (suc m)) omits_response h = ([], refl)
reaches fi sleep_ns (pos n) (negsuc m) (should_error true) h = absurd (h.1 tt)
reaches fi sleep_ns (pos zero) (pos m) (should_error true) h = absurd h.0
reaches fi sleep_ns (pos (suc n)) (pos zero) (should_error true) h = ([], refl)
reaches fi sleep_ns (pos (suc n)) (pos (suc zero)) (should_error true) h = absurd (h.2 refl)
reaches fi sleep_ns (pos (suc n)) (pos (suc (suc m))) (should_error true) h =
    (false ∷ true ∷ [], refl)
reaches fi sleep_ns (pos n) (negsuc m) (should_error false) h = absurd (h.2 tt)
reaches fi sleep_ns (pos zero) (pos zero) (should_error false) h = ([], refl)
reaches fi sleep_ns (pos n) (pos (suc zero)) (should_error false) h = absurd (h.3 refl)
reaches fi sleep_ns (pos (suc zero)) (pos m) (should_error false) h = absurd (h.1 refl)
reaches fi sleep_ns (pos zero) (pos (suc (suc m))) (should_error false) h = (true ∷ [], refl)
reaches fi sleep_ns (pos (suc (suc n))) (pos zero) (should_error false) h = (true ∷ [], refl)
reaches fi sleep_ns (pos (suc (suc n))) (pos (suc (suc m))) (should_error false) h =
    (true ∷ true ∷ [], refl)

-- After rates were set, these are exactly the ways in which a request can end with some generator: it
-- panics if a rate is negative; it drops its response if the omission rate is positive and the
-- failure rate not negative; it fails if the failure rate is positive and the omission rate neither
-- negative nor one; and it succeeds if neither rate is negative or one.
pub maybe_inject_lem :
    (fi : FailureInjector) (sleep_ns failure omission : ℤ) (how : Injection)
    → IsPossible failure omission how ↔ (
        (rand : Rand) × (s : rand.State) × ((maybe_inject rand
            (set_injection_config sleep_ns failure omission fi)
            s).0
          ≡ how))
maybe_inject_lem fi sleep_ns failure omission how = (
  λ h. let (ds, e) = reaches fi sleep_ns failure omission how h in (scripted, ds, e),
  λ (rand, s, e).
      subst (IsPossible failure omission) e
        (maybe_inject-IsPossible rand fi s sleep_ns failure omission),
)
