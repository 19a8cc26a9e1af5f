-- ===== src/Injector.antt =====
-- lab1/failure_injection/failure_injection.go: the failure injector of the two backend services.
-- Sleeping has no effect on any state, and is left out; randomness is the interface `Rand`.
pub mod Laws
pub mod Tests
use cs.Base.{ℕ, zero, suc, ◌<◌, Bool, true, false, Option, none, some}
use cs.Base.Tests.{◌==◌}
use cs.Base.Int.{ℤ, pos, negsuc}

-- `math/rand`: `Int63n(n)` gives a number below `n`, and the generator moves on.
pub record Rand : Type 1 where
  pub State : Type 0
  pub int63n : ℕ → State → ℕ × State
  pub int63n-lt : (n : ℕ) (s : State) → 0 < n → (int63n n s).0 < n

-- `pb.InjectionConfig`
pub record InjectionConfig : Type 0 where
  pub sleep_ns : ℤ
  pub failure_rate : ℤ
  pub response_omission_rate : ℤ

-- The atomic value `Config`; every store replaces it as a whole.
pub record FailureInjector : Type 0 where
  pub config : InjectionConfig

pub make_failure_injector : FailureInjector
make_failure_injector = record {
  config = record { sleep_ns = pos 0; failure_rate = pos 0; response_omission_rate = pos 0 };
}

unfoldable pub set_injection_config : ℤ → ℤ → ℤ → FailureInjector → FailureInjector
set_injection_config sleep_ns failure_rate response_omission_rate fi = record {
  config = record {
    sleep_ns = sleep_ns;
    failure_rate = failure_rate;
    response_omission_rate = response_omission_rate;
  };
}

unfoldable pub clear_injection_config : FailureInjector → FailureInjector
unfolding set_injection_config
clear_injection_config = set_injection_config (pos 0) (pos 0) (pos 0)

pub set_injection_config_pb : InjectionConfig → FailureInjector → FailureInjector
set_injection_config_pb config fi = record { config = config }

pub get_injection_config : FailureInjector → InjectionConfig
get_injection_config fi = fi.config

-- How `MaybeInject` ends: it says whether to fail, or never returns, or `Int63n` panics.
pub data Injection : Type 0 where
  should_error : Bool → Injection
  omits_response : Injection
  panics : Injection

module _ (rand : Rand) where
  open rand use {State, int63n}

  -- `none`: `rand.Int63n` panics on a negative argument.
  pub one_in : ℤ → State → Option (Bool × State)
  one_in (negsuc n) s = none
  one_in (pos zero) s = some (false, s)
  one_in (pos (suc n)) s = let (r, s') = int63n (suc n) s in some (r == 0, s')

  pub maybe_inject : FailureInjector → State → Injection × State
  unfolding one_in get_injection_config
  maybe_inject fi s =
      let config = get_injection_config fi in
      elim (one_in config.failure_rate s) [
        | none ↦ (panics, s)
        | some (fails, s') ↦ elim (one_in config.response_omission_rate s') [
          | none ↦ (panics, s')
          | some (omits, s'') ↦ elim omits [
            | true ↦ (omits_response, s'')
            | false ↦ (should_error fails, s'')
          ]
        ]
      ]
