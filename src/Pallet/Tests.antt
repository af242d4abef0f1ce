-- ===== src/Pallet/Tests.antt =====
-- The template pallet of pallets/template/src/lib.rs on concrete histories: accounts are numbers, an
-- origin is signed by an account or not at all, and block numbers are `u32`.
use nonfungible_adapter_tuto.Base.{
  ℕ, ◌+◌, ◌≡◌, ◌↔◌, refl, inl, inr, Option, none, some, [], ◌∷◌, ◌++◌, ok, err, arith, u32_max,
}
use nonfungible_adapter_tuto.Sdk.Numbers.{RuntimeDbWeight}
use nonfungible_adapter_tuto.Sdk.Samples.{numbers}
use nonfungible_adapter_tuto.Pallet.{
  Config, none_value, storage_overflow, bad_origin, module_error, Storage, cause_error,
  do_something_call, cause_error_call, dispatch, something_stored,
}
use nonfungible_adapter_tuto.Pallet.Weights
use nonfungible_adapter_tuto.Pallet.Weights.{
  declared_do_something, declared_cause_error, declared_below_benchmarked,
}
use nonfungible_adapter_tuto.Pallet.Calls.{IsValid, dispatch_error_unchanged, cause_error_failures}
use nonfungible_adapter_tuto.Pallet.History.{Calls, run, run-IsValid, all_announced, run-events}
use nonfungible_adapter_tuto.Pallet.Counting.{
  counter, counter-run, signed_calls, spec_run, increments, failures, stored, run-increments,
}

abbrev config : Config
config = record {
  AccountId = ℕ;
  Origin = Option ℕ;
  BadOrigin = Unit {0};
  ensure_signed = λ origin. elim origin [ none ↦ inl tt | some who ↦ inr who ];
  max_block_number = u32_max;
  u32_fits = omega arith;
}

abbrev genesis : Storage ℕ
genesis = record { something = none; events = [] }

abbrev almost_full : Storage ℕ
almost_full = record { something = stored 4_294_967_294; events = [] }

-- Account 7 counts up and stops; an unsigned call is of no effect; account 9 starts again.
abbrev history : Calls config
history =
    (some 7, cause_error_call)
    ∷ (some 7, cause_error_call)
    ∷ (none, do_something_call 5)
    ∷ (some 9, do_something_call 3)
    ∷ (some 7, cause_error_call)
    ∷ []

run_example : run config history almost_full ≡ (
  ok tt ∷ err (module_error storage_overflow) ∷ err (bad_origin tt) ∷ ok tt ∷ ok tt ∷ [],
  record { something = stored 4; events = something_stored 3 9 ∷ [] },
)
unfolding run dispatch
run_example = refl

counter-run_example :
    counter config (run config history almost_full).1
    ≡ spec_run config.max_block_number (signed_calls config history) (counter config almost_full)
counter-run_example =
    counter-run config history almost_full (tt, (tt, (omega arith, (omega arith, (tt, tt)))))
      (omega arith)

history-IsValid : IsValid config (run config history almost_full).1
history-IsValid =
    run-IsValid config history almost_full (tt, (tt, (omega arith, (omega arith, (tt, tt)))))
      (omega arith)

run-events_example :
    (run config history almost_full).1.events ≡ almost_full.events ++ all_announced config history
run-events_example = run-events config history almost_full

run-increments_example :
    let (rs, t) = run config (increments config (some 7) 3) almost_full in
    (t.something ≡ stored 4_294_967_295) × (failures rs ≡ 2)
run-increments_example =
    run-increments config (some 7) refl 3 4_294_967_294 almost_full refl (omega arith)

-- On an empty item `cause_error` fails with `none_value`.
empty_fails : (dispatch config (some 7) cause_error_call genesis).0 ≡ err (module_error none_value)
unfolding dispatch
empty_fails = refl

failed_unchanged : (dispatch config (some 7) cause_error_call genesis).1 ≡ genesis
failed_unchanged = dispatch_error_unchanged config (some 7) cause_error_call genesis empty_fails

cause_error_failures_example :
    let r = (cause_error config (some 7) almost_full).0 in
    let signer = config.ensure_signed (some 7) in
    ((bad : Unit {0}) → (r ≡ err (bad_origin bad)) ↔ (signer ≡ inl bad))
    × ((r ≡ err (module_error none_value))
        ↔ ((who : ℕ) × (signer ≡ inr who) × (almost_full.something ≡ none)))
    × ((r ≡ err (module_error storage_overflow))
        ↔ ((who : ℕ) × (signer ≡ inr who) × (almost_full.something ≡ stored u32_max)))
cause_error_failures_example = cause_error_failures config (some 7) almost_full (omega arith)

-- A database whose read takes 25 and whose write takes 100 microseconds.
abbrev database : RuntimeDbWeight
database = record { read = 25_000_000; write = 100_000_000 }

declared_below_benchmarked_example :
    (numbers.ref_time (declared_do_something numbers database) + 8_990_000
      ≡ numbers.ref_time (Weights.do_something numbers database))
    × (numbers.ref_time (declared_cause_error numbers database) + 5_990_000
        ≡ numbers.ref_time (Weights.cause_error numbers database))
    × (numbers.proof_size (declared_cause_error numbers database) ≡ 0)
    × (numbers.proof_size (Weights.cause_error numbers database) ≡ 1489)
declared_below_benchmarked_example =
    declared_below_benchmarked numbers database (omega arith) (omega arith)
