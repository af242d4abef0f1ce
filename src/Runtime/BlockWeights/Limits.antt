-- ===== src/Runtime/BlockWeights/Limits.antt =====
-- What the limits of a block (`RuntimeBlockWeights` of runtime/src/configs/mod.rs) are for each class.
use nonfungible_adapter_tuto.Base.{
  ◌+◌, ◌*◌, ◌≤◌, ◌≡◌, refl, ◌∙◌, Option, none, some, ℕ, arith, u64_max,
}
use nonfungible_adapter_tuto.Sdk.Numbers.{Numbers}
use nonfungible_adapter_tuto.Runtime.Weights.{
  extrinsic_base_weight, maximum_block_weight, ref_time-maximum_block_weight,
  proof_size-maximum_block_weight,
}
use nonfungible_adapter_tuto.Runtime.BlockWeights.{
  DispatchClass, normal, operational, mandatory, BlockWeightsApi, normal_dispatch_ratio,
  normal_share, operational_reserve, runtime_builder, runtime_block_weights,
}

module _ (n : Numbers) (max_pov_size : ℕ) where
  module _ (small : max_pov_size ≤ u64_max) where
    -- Three quarters of a block, up to rounding in the proof size.
    pub normal_share_lem :
        (n.ref_time (normal_share n max_pov_size) ≡ 1_500_000_000_000)
        × (4 * n.proof_size (normal_share n max_pov_size) ≤ 3 * max_pov_size + 2)
        × (3 * max_pov_size ≤ 4 * n.proof_size (normal_share n max_pov_size) + 2)
    unfolding normal_share normal_dispatch_ratio
    normal_share_lem =
        let m = maximum_block_weight n max_pov_size in
        let ratio = n.from_percent 75 in
        let seventy_five : n.parts ratio ≡ 750_000_000 = omega (arith, n.parts-from_percent) in
        let time : n.parts ratio * n.ref_time m ≡ 750_000_000 * n.ref_time m = rw seventy_five in
        let proof : n.parts ratio * n.proof_size m ≡ 750_000_000 * n.proof_size m =
          rw seventy_five in
        omega (
          arith,
          n.ref_time-scale ratio m,
          n.proof_size-scale ratio m,
          n.mul_le ratio (n.ref_time m),
          n.mul_ge ratio (n.ref_time m),
          n.mul_le ratio (n.proof_size m),
          n.mul_ge ratio (n.proof_size m),
          ref_time-maximum_block_weight n max_pov_size,
          proof_size-maximum_block_weight n max_pov_size small,
        )

    -- The share and the reserve are the whole block, in both components.
    normal_share-operational_reserve :
        let m = maximum_block_weight n max_pov_size in
        (n.ref_time (normal_share n max_pov_size) + n.ref_time (operational_reserve n max_pov_size)
          ≡ n.ref_time m)
        × (n.proof_size (normal_share n max_pov_size)
              + n.proof_size (operational_reserve n max_pov_size)
            ≡ n.proof_size m)
    unfolding operational_reserve
    normal_share-operational_reserve =
        let m = maximum_block_weight n max_pov_size in
        omega (
          arith,
          normal_share_lem,
          n.ref_time-sub m (normal_share n max_pov_size),
          n.proof_size-sub m (normal_share n max_pov_size),
          ref_time-maximum_block_weight n max_pov_size,
          proof_size-maximum_block_weight n max_pov_size small,
        )

  module _ (api : BlockWeightsApi n) where
    open api use {builder}

    -- What the chain of calls has put in for each class.
    unfoldable pub expected : DispatchClass → Option n.Weight × Option n.Weight
    expected normal = (some (normal_share n max_pov_size), (api.class builder normal).reserved)
    expected operational =
        (some (maximum_block_weight n max_pov_size), some (operational_reserve n max_pov_size))
    expected mandatory = (none, (api.class builder mandatory).reserved)

    pub class-runtime_builder :
        (d : DispatchClass)
        → let c = api.class (runtime_builder n max_pov_size api) d in
          (c.base_extrinsic ≡ extrinsic_base_weight n)
          × (c.max_total ≡ (expected d).0)
          × (c.reserved ≡ (expected d).1)
    unfolding runtime_builder expected
    class-runtime_builder normal =
        simp (api.class-avg_block_initialization, api.class-for_class, api.class-base_block)
          (refl, refl, refl)
    class-runtime_builder operational =
        simp (api.class-avg_block_initialization, api.class-for_class, api.class-base_block)
          (refl, refl, refl)
    class-runtime_builder mandatory =
        simp
          (
            api.class-avg_block_initialization, api.class-for_class, api.class-base_block,
            api.class-builder,
          )
          (refl, refl, refl)

    -- Where the limits can be built, with a proof size that fits u64: every class has the base
    -- weight of an extrinsic, mandatory extrinsics have no limit, operational ones have the whole
    -- block, normal ones have 75% of its time and of its proof size (rounded to a nearest
    -- integer), and what normal extrinsics leave is exactly what is reserved for operational ones.
    pub runtime_block_weights_limits :
        {limits : api.BlockWeights}
        → max_pov_size ≤ u64_max
        → (runtime_block_weights n max_pov_size api) ≡ some limits
        → let class = api.built limits in
          let m = maximum_block_weight n max_pov_size in
          ((d : DispatchClass) → (class d).base_extrinsic ≡ extrinsic_base_weight n)
          × ((class mandatory).max_total ≡ none)
          × ((class operational).max_total ≡ some m)
          × ((class normal).max_total ≡ some (normal_share n max_pov_size))
          × ((class operational).reserved ≡ some (operational_reserve n max_pov_size))
          × (4 * n.ref_time (normal_share n max_pov_size) ≡ 3 * n.ref_time m)
          × (4 * n.proof_size (normal_share n max_pov_size) ≤ 3 * max_pov_size + 2)
          × (3 * max_pov_size ≤ 4 * n.proof_size (normal_share n max_pov_size) + 2)
          × (n.ref_time (normal_share n max_pov_size)
                + n.ref_time (operational_reserve n max_pov_size)
              ≡ n.ref_time m)
          × (n.proof_size (normal_share n max_pov_size)
                + n.proof_size (operational_reserve n max_pov_size)
              ≡ n.proof_size m)
    unfolding runtime_block_weights expected
    runtime_block_weights_limits {limits} small h =
        let from =
          λ (d : DispatchClass). api.built_lem (runtime_builder n max_pov_size api) limits d h in
        let share = normal_share_lem small in
        let whole = normal_share-operational_reserve small in
        (
          λ d. (from d).0 ∙ (class-runtime_builder d).0,
          (from mandatory).1 ∙ (class-runtime_builder mandatory).1,
          (from operational).1 ∙ (class-runtime_builder operational).1,
          (from normal).1 ∙ (class-runtime_builder normal).1,
          (from operational).2 ∙ (class-runtime_builder operational).2,
          omega (arith, share, ref_time-maximum_block_weight n max_pov_size),
          share.1,
          share.2,
          whole.0,
          whole.1,
        )
