-- ===== src/Pallet/Mock.antt =====
-- The mock runtime of pallets/template/src/mock.rs, and the two unit tests of tests.rs that run on
-- it. Events are the calls of `deposit_event`, also in the block 0 of the tests.
use nonfungible_adapter_tuto.Base.{
  ℕ, ◌≡◌, ◌⊎◌, inr, Bool, true, false, none, [], u64_max, Result, ok, err, arith,
}
use nonfungible_adapter_tuto.Sdk.Numbers.{Numbers, RuntimeDbWeight}
use nonfungible_adapter_tuto.Pallet.{
  Config, Storage, none_value, module_error, DispatchError, do_something_call, cause_error_call,
  dispatch,
}
use nonfungible_adapter_tuto.Pallet.Weights.{WeightInfo, unit_weight_info}
use nonfungible_adapter_tuto.Pallet.Benchmarking.{has_block_number}

-- The origins of the mock runtime, whose accounts are u64.
pub record MockOrigins : Type 1 where
  pub RuntimeOrigin : Type 0
  pub BadOrigin : Type 0
  pub signed : ℕ → RuntimeOrigin
  pub ensure_signed : RuntimeOrigin → BadOrigin ⊎ ℕ
  pub ensure_signed-signed : (who : ℕ) → ensure_signed (signed who) ≡ inr who

-- What `frame_system::Config for Test` sets.
pub record TestSystem : Type 0 where
  pub block_hash_count : ℕ
  pub db_weight : RuntimeDbWeight

abbrev pub test_system : RuntimeDbWeight → TestSystem
test_system rocks_db_weight = record { block_hash_count = 250; db_weight = rocks_db_weight }

-- `crate::Config for Test`: the weights of a call are those of `()`.
abbrev pub test_weights : (n : Numbers) → RuntimeDbWeight → WeightInfo n
test_weights n rocks_db_weight = unit_weight_info n rocks_db_weight

module _ (o : MockOrigins) where
  open o use {signed, ensure_signed}

  -- `Test`. The block number of `MockBlock` is a u64.
  abbrev pub test : Config
  test = record {
    AccountId = ℕ;
    Origin = o.RuntimeOrigin;
    BadOrigin = o.BadOrigin;
    ensure_signed = ensure_signed;
    max_block_number = u64_max;
    u32_fits = omega arith;
  }

  -- The storage of a default genesis.
  abbrev pub new_test_ext : Storage ℕ
  new_test_ext = record { something = none; events = [] }

  -- Whether `assert_ok!` and the comparison that follows it pass.
  pub it_works_for_default_value : Bool
  unfolding has_block_number
  it_works_for_default_value =
      let (r, s) = dispatch test (signed 1) (do_something_call 42) new_test_ext in
      elim r [ ok _ ↦ has_block_number test 42 s.something | err _ ↦ false ]

  -- `Error::<Test>::NoneValue`
  is_none_value : Result (DispatchError o.BadOrigin) (Unit {0}) → Bool
  is_none_value (err (module_error none_value)) = true
  is_none_value _ = false

  -- The error that `assert_noop!` asks for. Its comparison of the storage is left to the theorem.
  pub correct_error_for_none_value : Bool
  unfolding is_none_value
  correct_error_for_none_value =
      is_none_value (dispatch test (signed 1) cause_error_call new_test_ext).0

  -- Both unit tests pass, and the second leaves the storage as it was.
  tests_pass :
      (it_works_for_default_value ≡ true)
      × (correct_error_for_none_value ≡ true)
      × ((dispatch test (signed 1) cause_error_call new_test_ext).1 ≡ new_test_ext)
  unfolding it_works_for_default_value correct_error_for_none_value dispatch
  tests_pass = (
    ground (arith, o.ensure_signed-signed 1),
    ground (arith, o.ensure_signed-signed 1),
    ground (arith, o.ensure_signed-signed 1),
  )
