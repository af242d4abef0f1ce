-- ===== src/Runtime/Tests/Answers.antt =====
-- Fees, benchmarks, the preparation of extrinsics and the collators of a preset, on concrete inputs.
use Prim.Native.String.{String}
use text.Mathlib.Text.{◌==◌ as str_eq}
use text.Mathlib.TextEquality.{eq_iff}
use mathlib.Core.List.{Memᴰ}
use nonfungible_adapter_tuto.Base.{
  ℕ, some, true, ◌+◌, ◌-◌, ◌*◌, ◌≤◌, ◌≡◌, ◌⊎◌, refl, min, leb, List, [], ◌∷◌, Result, ok, err, ◌==◌,
  arith, u128_max, if◌then◌else◌,
}
use nonfungible_adapter_tuto.Sdk.Samples.{numbers}
use nonfungible_adapter_tuto.Runtime.Units.{milli_unit, micro_unit}
use nonfungible_adapter_tuto.Runtime.Apis.Payment.{
  PaymentApi, query_weight_to_fee, query_length_to_fee, query_fees_bounds,
}
use nonfungible_adapter_tuto.Runtime.Benchmarks.{
  BenchmarkSdk, benchmarks, push, IsUnselected, dispatch_benchmark, dispatch_benchmark_cases,
}
use nonfungible_adapter_tuto.Runtime.Extrinsics.{
  ExtensionsApi, and_then, tx_extension, checks_before, accepted_after_payment,
}
use nonfungible_adapter_tuto.Runtime.Tests.{evaluator}
use nonfungible_adapter_tuto.Runtime.Tests.Limits.{limits_api, limits, limits_built}

-- A payment pallet that answers with the length.
abbrev pub payment : PaymentApi numbers
payment = record {
  Call = ℕ;
  Extrinsic = ℕ;
  State = Unit {0};
  DispatchInfo = ℕ;
  FeeDetails = ℕ;
  query_info = λ x len s. len;
  query_fee_details = λ x len s. len;
  query_call_info = λ c len s. len;
  query_call_fee_details = λ c len s. len;
  weight_to_fee = λ price most w.
      price (min (numbers.ref_time w) (numbers.ref_time most), numbers.proof_size w);
  length_to_fee = λ byte_fee len. min (len * byte_fee) u128_max;
  weight_to_fee_capped = λ price most w.
      ((min (numbers.ref_time w) (numbers.ref_time most), numbers.proof_size w), refl, omega arith);
  length_to_fee_lem = λ byte_fee len. refl;
}

-- An extrinsic of 3 seconds, more than a block takes, and of 200 bytes.
query_fees_bounds_example :
    let w : numbers.Weight = (3_000_000_000_000, 0) in
    let time = min (numbers.ref_time w) 2_000_000_000_000 in
    let fee = query_weight_to_fee numbers evaluator 5_242_880 limits_api payment limits w in
    (125 * fee ≤ time + 62)
    × (time ≤ 125 * fee + 62)
    × (fee ≤ 16 * milli_unit)
    × (query_length_to_fee numbers evaluator 5_242_880 limits_api payment 200
        ≡ 10 * micro_unit * 200)
query_fees_bounds_example =
    query_fees_bounds numbers evaluator 5_242_880 limits_api payment {limits = limits}
      (3_000_000_000_000, 0) 200 (omega arith) limits_built (omega arith)

-- A request names a pallet; a batch is the name of the type that was run.
abbrev benchmark_sdk : BenchmarkSdk
benchmark_sdk = record {
  BenchmarkConfig = String;
  BenchmarkBatch = String;
  BenchmarkList = String;
  StorageInfo = ℕ;
  pallet = λ c. c;
  selects = λ c e. str_eq c e.0;
  StorageKey = ℕ;
  whitelisted_storage_keys = [];
  run_benchmark = λ c w e. ok (some e.1);
  list_benchmark = λ e extra. e.0;
  add_benchmark = λ c w e bs. if str_eq c e.0 then push bs (ok (some e.1)) else ok bs;
  storage_info = [];
  selects_pallet = λ c e h. (eq_iff c e.0).0 h;
  add_benchmark-selected = λ c w e bs h. rw h refl;
  add_benchmark-other = λ c w e bs h. rw h refl;
}

dispatch_benchmark_cases_example :
    ((e : String × String) × Memᴰ e benchmarks
      × ((str_eq "pallet_sudo" e.0) ≡ true)
      × (dispatch_benchmark benchmark_sdk "pallet_sudo" ≡ ok (e.1 ∷ [])))
    ⊎ (IsUnselected benchmark_sdk "pallet_sudo" benchmarks
        × (dispatch_benchmark benchmark_sdk "pallet_sudo"
            ≡ err "Benchmark not found for this pallet."))
dispatch_benchmark_cases_example = dispatch_benchmark_cases benchmark_sdk "pallet_sudo"

-- The one account of a chain, with its nonce and its balance.
record Account : Type 0 where
  nonce : ℕ
  balance : ℕ

abbrev in_order : List (ℕ → Account → Result String Account) → ℕ → Account → Result String Account
in_order [] x s = ok s
in_order (e ∷ es) x s = and_then (e x s) (in_order es x)

abbrev pass : ℕ → Account → Result String Account
pass x s = ok s

-- An extrinsic is its nonce; each costs 5.
abbrev next_nonce : ℕ → Account → Result String Account
next_nonce x s = if x == s.nonce then ok (record s { nonce = s.nonce + 1 }) else err "nonce"

abbrev pay : ℕ → Account → Result String Account
pay x s = if leb 5 s.balance then ok (record s { balance = s.balance - 5 }) else err "payment"

next_nonce-balance : (x : ℕ) (s t : Account) → next_nonce x s ≡ ok t → t.balance ≡ s.balance
next_nonce-balance x s t h = ground arith

pass-balance : (x : ℕ) (s t : Account) → pass x s ≡ ok t → t.balance ≡ s.balance
pass-balance x s t h = ground arith

abbrev extensions : ExtensionsApi
extensions = record {
  Extension = ℕ → Account → Result String Account;
  Extrinsic = ℕ;
  State = Account;
  Error = String;
  Balances = ℕ;
  balances = λ s. s.balance;
  prepare = λ e. e;
  check_non_zero_sender = pass;
  check_spec_version = pass;
  check_tx_version = pass;
  check_genesis = pass;
  check_era = pass;
  check_nonce = next_nonce;
  check_weight = pass;
  charge_transaction_payment = pay;
  check_metadata_hash = pass;
  storage_weight_reclaim = λ e. e;
  tuple = in_order;
  prepare-storage_weight_reclaim = λ e x s. refl;
  prepare-tuple_nil = λ x s. refl;
  prepare-tuple_cons = λ e es x s. refl;
  checks_move_nothing = (
    pass-balance,
    (
      pass-balance,
      (
        pass-balance,
        (pass-balance, (pass-balance, (next_nonce-balance, (pass-balance, (pass-balance, tt))))),
      ),
    ),
  );
}

abbrev before : Account
before = record { nonce = 2; balance = 12 }

abbrev after : Account
after = record { nonce = 3; balance = 7 }

accepted : tx_extension extensions 2 before ≡ ok after
unfolding tx_extension
accepted = refl

accepted_pays_once :
    (checked : Account) × (paid : Account) × (in_order (checks_before extensions) 2 before
      ≡ ok checked)
    × (pay 2 checked ≡ ok paid)
    × (pass 2 paid ≡ ok after)
    × (checked.balance ≡ 12)
    × (7 ≡ paid.balance)
accepted_pays_once = accepted_after_payment extensions 2 before after accepted
