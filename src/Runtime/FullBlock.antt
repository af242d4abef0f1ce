-- ===== src/Runtime/FullBlock.antt =====
-- The fees that runtime/src/apis.rs answers for the weights and lengths of the normal extrinsics of a
-- block, within the limits of runtime/src/configs/mod.rs. They are before the multiplier that the
-- payment pallet applies to the fees for weights.
use nonfungible_adapter_tuto.Base.{
  ℕ, ◌+◌, ◌*◌, ◌≤◌, ◌≡◌, refl, some, List, [], ◌∷◌, length, ap, ◌∙◌, arith, u32_max, u64_max,
}
use nonfungible_adapter_tuto.Sdk.Numbers.{Numbers}
use nonfungible_adapter_tuto.Runtime.Units.{unit, milli_unit, micro_unit}
use nonfungible_adapter_tuto.Runtime.Fees.{Evaluator}
use nonfungible_adapter_tuto.Runtime.Weights.{ref_time-extrinsic_base_weight}
use nonfungible_adapter_tuto.Runtime.BlockWeights.{
  BlockWeightsApi, normal, normal_share, runtime_block_weights,
}
use nonfungible_adapter_tuto.Runtime.BlockWeights.Limits.{
  normal_share_lem, runtime_block_weights_limits,
}
use nonfungible_adapter_tuto.Runtime.BlockLength.{
  BlockLengthApi, runtime_block_length, runtime_block_length_limits,
}
use nonfungible_adapter_tuto.Runtime.Apis.Payment.{
  PaymentApi, query_weight_to_fee, query_length_to_fee, query_fees_bounds,
}

module _ (n : Numbers) (e : Evaluator n) (max_pov_size : ℕ) (blocks : BlockWeightsApi n)
    (api : PaymentApi n) (limits : blocks.BlockWeights) where
  -- The weight and the length of each extrinsic.
  abbrev pub Extrinsics : Type 0
  Extrinsics = List (n.Weight × ℕ)

  abbrev base : n.Weight
  base = (blocks.built limits normal).base_extrinsic

  -- The time that extrinsics take, each with the base of its class, and their bytes.
  abbrev pub total_time : Extrinsics → ℕ
  total_time [] = 0
  total_time ((w, len) ∷ xs) = n.ref_time base + n.ref_time w + total_time xs

  abbrev pub total_length : Extrinsics → ℕ
  total_length [] = 0
  total_length ((w, len) ∷ xs) = len + total_length xs

  -- The fees for the base and for the weight of each extrinsic, and those for its length.
  abbrev pub weight_fees : Extrinsics → ℕ
  weight_fees [] = 0
  weight_fees ((w, len) ∷ xs) =
      query_weight_to_fee n e max_pov_size blocks api limits base
      + query_weight_to_fee n e max_pov_size blocks api limits w
      + weight_fees xs

  abbrev pub length_fees : Extrinsics → ℕ
  length_fees [] = 0
  length_fees ((w, len) ∷ xs) = query_length_to_fee n e max_pov_size blocks api len + length_fees xs

  module _ (small : max_pov_size ≤ u64_max)
      (built : runtime_block_weights n max_pov_size blocks ≡ some limits) where
    base_time : n.ref_time base ≡ 125_000_000
    base_time =
        ap n.ref_time ((runtime_block_weights_limits n max_pov_size blocks small built).0 normal)
        ∙ ref_time-extrinsic_base_weight n

    weight_fees_bounds :
        (xs : Extrinsics)
        → total_time xs ≤ 2_000_000_000_000
        → (125 * weight_fees xs ≤ total_time xs + 124 * length xs)
          × (total_time xs ≤ 125 * weight_fees xs + 124 * length xs)
          × (125_000_000 * length xs ≤ total_time xs)
    weight_fees_bounds [] h = omega arith
    weight_fees_bounds ((w, len) ∷ xs) h =
        let (below, above, count) = weight_fees_bounds xs (omega arith) in
        let (b1, b2, _, _) =
          query_fees_bounds n e max_pov_size blocks api base 0 small built (omega arith) in
        let (w1, w2, _, _) =
          query_fees_bounds n e max_pov_size blocks api w 0 small built (omega arith) in
        omega (arith, base_time)

    length_fees_lem :
        (xs : Extrinsics)
        → total_length xs ≤ u32_max
        → length_fees xs ≡ 10 * micro_unit * total_length xs
    length_fees_lem [] h = refl
    length_fees_lem ((w, len) ∷ xs) h =
        let (_, _, _, fee) =
          query_fees_bounds n e max_pov_size blocks api base len small built (omega arith) in
        omega (arith, length_fees_lem xs (omega arith))

    -- Where the limits of a block can be built, with a proof size that fits u64: normal extrinsics
    -- that fit a block, in time with the bases of their class and in bytes, are at most 12000. The
    -- fees that the API answers for their weights and bases, which no multiplier has changed, are a
    -- 125th of the time, up to less than one indivisible part of the balance for each extrinsic,
    -- so at most 12 milli units and 12000 such parts; those that it answers for their lengths are
    -- exactly 10 micro units for each byte, and at most 40 units.
    pub full_block_fees :
        (lengths : BlockLengthApi n) (xs : Extrinsics)
        → total_time xs ≤ n.ref_time (normal_share n max_pov_size)
        → total_length xs ≤ lengths.max (runtime_block_length n max_pov_size lengths) normal
        → (length xs ≤ 12_000)
          × (125 * weight_fees xs ≤ total_time xs + 124 * length xs)
          × (total_time xs ≤ 125 * weight_fees xs + 124 * length xs)
          × (weight_fees xs ≤ 12 * milli_unit + 12_000)
          × (length_fees xs ≡ 10 * micro_unit * total_length xs)
          × (length_fees xs ≤ 40 * unit)
    full_block_fees lengths xs time bytes =
        let share = (normal_share_lem n max_pov_size small).0 in
        let most = (runtime_block_length_limits n max_pov_size lengths).0 in
        let weight = weight_fees_bounds xs (omega arith) in
        let len = length_fees_lem xs (omega arith) in omega arith
