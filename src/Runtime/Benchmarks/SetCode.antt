-- ===== src/Runtime/Benchmarks/SetCode.antt =====
-- The set-up of the benchmark that sets the code, in `dispatch_benchmark` of runtime/src/apis.rs.
use nonfungible_adapter_tuto.Base.{ℕ, ◌%◌, ◌^◌, length, Option, List, Result, ok}

-- The benchmarks of the system pallet that set the code: `impl frame_system_benchmarking::Config for
-- Runtime`. `assert_last_event` panics, which is none, where the last event is another.
pub record SetCodeSdk : Type 1 where
  pub State : Type 0
  pub Event : Type 0
  pub BenchmarkError : Type 0
  pub initialize_for_set_code_benchmark : ℕ → State → State
  pub assert_last_event : Event → State → Option State
  pub validation_function_stored : Event

module _ (sdk : SetCodeSdk) where
  open sdk use {State, BenchmarkError}

  -- `code.len() as u32`
  abbrev pub setup_set_code_requirements : List ℕ → State → Result BenchmarkError (Unit {0}) × State
  setup_set_code_requirements code s =
      (ok tt, sdk.initialize_for_set_code_benchmark (length code % 2 ^ 32) s)

  abbrev pub verify_set_code : State → Option State
  verify_set_code s = sdk.assert_last_event (sdk.validation_function_stored) s
