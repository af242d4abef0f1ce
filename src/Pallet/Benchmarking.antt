-- ===== src/Pallet/Benchmarking.antt =====
-- pallets/template/src/benchmarking.rs: the benchmark of each call, with the check that ends it.
use nonfungible_adapter_tuto.Base.{
  ℕ, ◌≡◌, ◌++◌, inr, Bool, false, Option, none, some, [], ◌∷◌, ok, err, arith, ◌==◌, if◌then◌else◌,
}
use nonfungible_adapter_tuto.Pallet.{
  Config, CompositeStruct, Storage, Call, do_something_call, cause_error_call, dispatch,
  something_stored,
}

module _ (c : Config) where
  open c use {AccountId, Origin}

  -- `#[extrinsic_call]` unwraps the result of the call.
  extrinsic_call : Origin → Call → Storage AccountId → Option (Storage AccountId)
  unfolding dispatch
  extrinsic_call origin call s =
      let (r, t) = dispatch c origin call s in elim r [ ok _ ↦ some t | err _ ↦ none ]

  -- `Something::<T>::get().map(|v| v.block_number) == Some(expected)`
  unfoldable pub has_block_number : ℕ → Option CompositeStruct → Bool
  has_block_number expected none = false
  has_block_number expected (some v) = v.block_number == expected

  -- `assert_eq!` on the stored block number, which panics where it fails.
  assert_block_number : ℕ → Option (Storage AccountId) → Option (Storage AccountId)
  unfolding has_block_number
  assert_block_number expected none = none
  assert_block_number expected (some t) =
      if has_block_number expected t.something then some t else none

  module _ (signed : AccountId → Origin) (whitelisted_caller : AccountId) where
    pub benchmark_do_something : Storage AccountId → Option (Storage AccountId)
    unfolding extrinsic_call assert_block_number
    benchmark_do_something s =
        assert_block_number 100
          (extrinsic_call (signed whitelisted_caller) (do_something_call 100) s)

    pub benchmark_cause_error : Storage AccountId → Option (Storage AccountId)
    unfolding extrinsic_call assert_block_number
    benchmark_cause_error s = assert_block_number 101 (
        extrinsic_call (signed whitelisted_caller) cause_error_call
          (record s { something = some (record { block_number = 100 }) }))

    -- Where `RawOrigin::Signed` is an origin signed by its account, both benchmarks end without a
    -- panic from every storage, the first with 100 stored and announced, and the second, which
    -- measures the call on its path without an error, with 101 stored and no event.
    benchmarks_succeed :
        (s : Storage AccountId)
        → ((who : AccountId) → c.ensure_signed (signed who) ≡ inr who)
        → (benchmark_do_something s
            ≡ some (record {
              something = some (record { block_number = 100 });
              events = s.events ++ something_stored 100 whitelisted_caller ∷ [];
            }))
          × (benchmark_cause_error s
              ≡ some
                  (record { something = some (record { block_number = 101 }); events = s.events }))
    unfolding benchmark_do_something benchmark_cause_error
    benchmarks_succeed s h =
        (ground (arith, h whitelisted_caller), ground (arith, h whitelisted_caller, c.u32_fits))
