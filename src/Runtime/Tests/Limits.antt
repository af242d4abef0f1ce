-- ===== src/Runtime/Tests/Limits.antt =====
-- The block limits of runtime/src/configs/mod.rs on concrete weights, and the messages that fit.
use nonfungible_adapter_tuto.Base.{
  ℕ, ◌+◌, ◌*◌, ◌≤◌, ◌<◌, ◌≡◌, ◌↔◌, ◌⊎◌, refl, ap, sym, min, leb, Option, none, some, arith, u64_max,
  if◌then◌else◌,
}
use nonfungible_adapter_tuto.Sdk.Samples.{numbers}
use nonfungible_adapter_tuto.Pallet.Weights.{declared_do_something, declared_cause_error}
use nonfungible_adapter_tuto.Runtime.Weights.{
  extrinsic_base_weight, maximum_block_weight, rocks_db_weight,
}
use nonfungible_adapter_tuto.Runtime.Transact.{template_weight_info}
use nonfungible_adapter_tuto.Runtime.Capacity.{template_calls_per_block}
use nonfungible_adapter_tuto.Runtime.BlockWeights.{
  BlockWeightsApi, DispatchClass, operational, normal, mandatory, contains, WeightsPerClass,
  normal_share, runtime_builder, operational_reserve, runtime_block_weights,
}
use nonfungible_adapter_tuto.Runtime.BlockWeights.Limits.{runtime_block_weights_limits}
use nonfungible_adapter_tuto.Runtime.BlockWeights.Queues.{
  unit_weight_cost, ref_time-unit_weight_cost, proof_size-unit_weight_cost,
  message_queue_service_weight, message_fits,
}

abbrev pub larger : ℕ → ℕ → ℕ
larger a b = if leb a b then b else a

abbrev pub limit : Option (ℕ × ℕ) → ℕ × ℕ
limit none = (0, 0)
limit (some w) = w

-- The largest of the limits, in each component.
abbrev pub largest : (DispatchClass → Option (ℕ × ℕ)) → ℕ × ℕ
largest f = (
  larger (limit (f normal)).0 (larger (limit (f operational)).0 (limit (f mandatory)).0),
  larger (limit (f normal)).1 (larger (limit (f operational)).1 (limit (f mandatory)).1),
)

pub largest_upper :
    (f : DispatchClass → Option (ℕ × ℕ)) (d : DispatchClass) (w : ℕ × ℕ)
    → f d ≡ some w
    → (min w.0 u64_max ≤ min (largest f).0 u64_max) × (min w.1 u64_max ≤ min (largest f).1 u64_max)
largest_upper f normal w h = let e = ap limit h in rw (← e) (ground arith, ground arith)
largest_upper f operational w h = let e = ap limit h in rw (← e) (ground arith, ground arith)
largest_upper f mandatory w h = let e = ap limit h in rw (← e) (ground arith, ground arith)

pub limit_least :
    (o : Option (ℕ × ℕ)) (p : ℕ × ℕ → ℕ) (t : ℕ)
    → p (0, 0) ≤ t
    → ((w : ℕ × ℕ) → o ≡ some w → p w ≤ t)
    → p (limit o) ≤ t
limit_least none p t zero h = zero
limit_least (some w) p t zero h = h w refl

pub largest_least :
    (f : DispatchClass → Option (ℕ × ℕ)) (t : ℕ)
    → (((d : DispatchClass) (w : ℕ × ℕ) → f d ≡ some w → min w.0 u64_max ≤ t)
        → min (largest f).0 u64_max ≤ t)
      × (((d : DispatchClass) (w : ℕ × ℕ) → f d ≡ some w → min w.1 u64_max ≤ t)
          → min (largest f).1 u64_max ≤ t)
largest_least f t = (
  λ h.
      let each =
        λ (d : DispatchClass). limit_least (f d) (λ w. min w.0 u64_max) t (omega arith) (h d) in
      ground (arith, each normal, each operational, each mandatory),
  λ h.
      let each =
        λ (d : DispatchClass). limit_least (f d) (λ w. min w.1 u64_max) t (omega arith) (h d) in
      ground (arith, each normal, each operational, each mandatory),
)

-- A builder that keeps the limits of each class.
abbrev pub limits_api : BlockWeightsApi numbers
limits_api = record {
  Builder = DispatchClass → WeightsPerClass numbers;
  BlockWeights = DispatchClass → WeightsPerClass numbers;
  builder = λ d. record {
    base_extrinsic = (0, 0);
    max_extrinsic = none;
    max_total = none;
    reserved = none;
  };
  base_block = λ w b. b;
  for_class = λ ds f b d. if contains d ds then f (b d) else b d;
  avg_block_initialization = λ r b. b;
  build_or_panic = λ b. some b;
  max_block = λ l. largest (λ d. (l d).max_total);
  class = λ b. b;
  built = λ b. b;
  class-builder = refl;
  class-base_block = λ w b d. refl;
  class-avg_block_initialization = λ r b d. refl;
  class-for_class = λ ds f b d. refl;
  built_lem = λ b limits d h.
      let e : b ≡ limits = cc in
      (
        ap (λ (l : DispatchClass → WeightsPerClass numbers). (l d).base_extrinsic) (sym e),
        ap (λ (l : DispatchClass → WeightsPerClass numbers). (l d).max_total) (sym e),
        ap (λ (l : DispatchClass → WeightsPerClass numbers). (l d).reserved) (sym e),
      );
  ref_time-max_block = λ b limits h.
      let e : b ≡ limits = cc in
      rw (← e) (
        λ d w h. (largest_upper (λ c. (b c).max_total) d w h).0,
        λ t h. (largest_least (λ c. (b c).max_total) t).0 h,
      );
  proof_size-max_block = λ b limits h.
      let e : b ≡ limits = cc in
      rw (← e) (
        λ d w h. (largest_upper (λ c. (b c).max_total) d w h).1,
        λ t h. (largest_least (λ c. (b c).max_total) t).1 h,
      );
}

abbrev pub limits : DispatchClass → WeightsPerClass numbers
limits = runtime_builder numbers 5_242_880 limits_api

pub limits_built : runtime_block_weights numbers 5_242_880 limits_api ≡ some limits
unfolding runtime_block_weights
limits_built = refl

runtime_block_weights_limits_example :
    let m = maximum_block_weight numbers 5_242_880 in
    let share = normal_share numbers 5_242_880 in
    let reserve = operational_reserve numbers 5_242_880 in
    ((d : DispatchClass) → (limits d).base_extrinsic ≡ extrinsic_base_weight numbers)
    × ((limits mandatory).max_total ≡ none)
    × ((limits operational).max_total ≡ some m)
    × ((limits normal).max_total ≡ some share)
    × ((limits operational).reserved ≡ some reserve)
    × (4 * numbers.ref_time share ≡ 3 * numbers.ref_time m)
    × (4 * numbers.proof_size share ≤ 3 * 5_242_880 + 2)
    × (3 * 5_242_880 ≤ 4 * numbers.proof_size share + 2)
    × (numbers.ref_time share + numbers.ref_time reserve ≡ numbers.ref_time m)
    × (numbers.proof_size share + numbers.proof_size reserve ≡ numbers.proof_size m)
runtime_block_weights_limits_example =
    runtime_block_weights_limits numbers 5_242_880 limits_api {limits = limits} (omega arith)
      limits_built

-- A message of ten instructions.
abbrev ten : ℕ × ℕ
ten = (10 * 1_000_000_000, 10 * 65536)

ten_time : numbers.ref_time ten ≡ 10 * numbers.ref_time (unit_weight_cost numbers)
ten_time = omega (arith, ref_time-unit_weight_cost numbers)

ten_size : numbers.proof_size ten ≡ 10 * numbers.proof_size (unit_weight_cost numbers)
ten_size = omega (arith, proof_size-unit_weight_cost numbers)

message_fits_example :
    let service = message_queue_service_weight numbers 5_242_880 limits_api limits in
    (numbers.ref_time ten ≤ numbers.ref_time service)
    × (((numbers.proof_size ten ≤ numbers.proof_size service)
          × (6_553_600 * 10 ≤ 35 * 5_242_880 + 50))
        ⊎ ((numbers.proof_size service < numbers.proof_size ten)
            × (35 * 5_242_880 ≤ 6_553_600 * 10 + 50)))
message_fits_example =
    message_fits numbers 5_242_880 limits_api {limits = limits} (omega arith) limits_built 10 ten
      (omega arith) ten_time ten_size

normal_limit : (limits normal).max_total ≡ some (normal_share numbers 5_242_880)
normal_limit =
    let e =
      runtime_block_weights_limits numbers 5_242_880 limits_api {limits = limits} (omega arith)
        limits_built in
    e.3

template_calls_per_block_example :
    let time = numbers.ref_time in
    let base = time (limits normal).base_extrinsic in
    let share = time (normal_share numbers 5_242_880) in
    let db = rocks_db_weight numbers in
    let benchmarked = template_weight_info numbers in
    ((6_000 * (base + time (declared_do_something numbers db)) ≤ share) ↔ (6_000 ≤ 6_666))
    × ((6_000 * (base + time (declared_cause_error numbers db)) ≤ share) ↔ (6_000 ≤ 5_999))
    × ((6_000 * (base + time benchmarked.do_something) ≤ share) ↔ (6_000 ≤ 6_410))
    × ((6_000 * (base + time benchmarked.cause_error) ≤ share) ↔ (6_000 ≤ 5_859))
template_calls_per_block_example =
    template_calls_per_block numbers 5_242_880 limits_api {limits = limits}
      (normal_share numbers 5_242_880) (omega arith) limits_built normal_limit 6_000
