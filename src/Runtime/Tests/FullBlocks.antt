-- ===== src/Runtime/Tests/FullBlocks.antt =====
-- A block with two extrinsics, under the limits of runtime/src/configs/mod.rs.
use nonfungible_adapter_tuto.Base.{
  ℕ, ◌+◌, ◌*◌, ◌≤◌, ◌≡◌, ◌≢◌, refl, [], ◌∷◌, length, ap, ◌∙◌, arith,
}
use nonfungible_adapter_tuto.Sdk.Samples.{numbers}
use nonfungible_adapter_tuto.Runtime.Units.{unit, milli_unit, micro_unit}
use nonfungible_adapter_tuto.Runtime.Weights.{ref_time-extrinsic_base_weight}
use nonfungible_adapter_tuto.Runtime.BlockWeights.{
  DispatchClass, normal, operational, mandatory, normal_share,
}
use nonfungible_adapter_tuto.Runtime.BlockWeights.Limits.{
  normal_share_lem, runtime_block_weights_limits,
}
use nonfungible_adapter_tuto.Runtime.BlockLength.{
  BlockLengthApi, runtime_block_length, runtime_block_length_limits,
}
use nonfungible_adapter_tuto.Runtime.FullBlock.{
  Extrinsics, total_time, total_length, weight_fees, length_fees, full_block_fees,
}
use nonfungible_adapter_tuto.Runtime.Tests.{evaluator}
use nonfungible_adapter_tuto.Runtime.Tests.Limits.{limits_api, limits, limits_built}
use nonfungible_adapter_tuto.Runtime.Tests.Answers.{payment}

-- Limits on bytes, by class.
abbrev lengths : BlockLengthApi numbers
lengths = record {
  BlockLength = DispatchClass → ℕ;
  max = λ l. l;
  max_with_normal_ratio = λ total ratio d. elim d [ normal ↦ numbers.mul ratio total | _ ↦ total ];
  max_normal = λ total ratio. refl;
  max_other = λ total ratio d other.
      elim d
          as (λ c.
            c ≢ normal
            → (let m : ℕ = elim c [ normal ↦ numbers.mul ratio total | _ ↦ total ] in m) ≡ total) [
              | normal ↦ λ h. absurd (h refl)
              | operational ↦ λ _. refl
              | mandatory ↦ λ _. refl
            ]
        other;
}

-- A call of the template pallet, and a heavier extrinsic.
abbrev two : Extrinsics numbers evaluator 5_242_880 limits_api payment limits
two = ((100_010_000, 0), 120) ∷ ((4_000_000_000, 1489), 900) ∷ []

base_time : numbers.ref_time (limits normal).base_extrinsic ≡ 125_000_000
base_time =
    let of_classes =
      runtime_block_weights_limits numbers 5_242_880 limits_api {limits = limits} (omega arith)
        limits_built in
    ap numbers.ref_time (of_classes.0 normal) ∙ ref_time-extrinsic_base_weight numbers

two_in_time :
    total_time numbers evaluator 5_242_880 limits_api payment limits two
    ≤ numbers.ref_time (normal_share numbers 5_242_880)
two_in_time = omega (arith, base_time, (normal_share_lem numbers 5_242_880 (omega arith)).0)

two_in_bytes :
    total_length numbers evaluator 5_242_880 limits_api payment limits two
    ≤ lengths.max (runtime_block_length numbers 5_242_880 lengths) normal
two_in_bytes = omega (arith, (runtime_block_length_limits numbers 5_242_880 lengths).0)

full_block_fees_example :
    let time = total_time numbers evaluator 5_242_880 limits_api payment limits two in
    let weights = weight_fees numbers evaluator 5_242_880 limits_api payment limits two in
    let bytes = length_fees numbers evaluator 5_242_880 limits_api payment limits two in
    (length two ≤ 12_000)
    × (125 * weights ≤ time + 124 * length two)
    × (time ≤ 125 * weights + 124 * length two)
    × (weights ≤ 12 * milli_unit + 12_000)
    × (bytes
        ≡ 10 * micro_unit * total_length numbers evaluator 5_242_880 limits_api payment limits two)
    × (bytes ≤ 40 * unit)
full_block_fees_example =
    full_block_fees numbers evaluator 5_242_880 limits_api payment limits (omega arith) limits_built
      lengths two two_in_time two_in_bytes
