-- ===== src/Injector/Tests.antt =====
-- A generator to run the handlers with, and the injector at work.
use cs.Base.{◌↔◌, ℕ, suc, ◌≡◌, ◌<◌, refl, true, arith}
use cs.Base.Tests.{if◌then◌else◌, ltb}
use cs.Base.Int.{pos}
use cs.Injector.{
  Rand, FailureInjector, should_error, omits_response, maybe_inject, set_injection_config,
}
use cs.Injector.Laws.{IsPossible, maybe_inject_lem}

pub below : (n s : ℕ) → 0 < n → (if ltb s n then s else 0) < n
below n s h = ground arith

-- It counts, and starts again at zero for a bound that it has reached.
abbrev pub counter : Rand
counter = record { State = ℕ; int63n = λ n s. (if ltb s n then s else 0, suc s); int63n-lt = below }

abbrev pub flaky : FailureInjector
flaky = record {
  config = record { sleep_ns = pos 0; failure_rate = pos 3; response_omission_rate = pos 5 };
}

-- One request in three fails.
flaky-fails : maybe_inject counter flaky 3 ≡ (should_error true, 5)
unfolding maybe_inject
flaky-fails = refl

-- With a failure rate of one no request succeeds, but its response can be dropped.
maybe_inject_lem_example : IsPossible (pos 1) (pos 5) omits_response ↔ (
    (rand : Rand) × (s : rand.State) × ((maybe_inject rand
        (set_injection_config (pos 9) (pos 1) (pos 5) flaky)
        s).0
      ≡ omits_response))
maybe_inject_lem_example = maybe_inject_lem flaky (pos 9) (pos 1) (pos 5) omits_response
