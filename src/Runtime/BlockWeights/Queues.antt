-- ===== src/Runtime/BlockWeights/Queues.antt =====
-- The shares of a block for messages from other chains (runtime/src/configs/mod.rs), and the weight
-- of an XCM instruction (runtime/src/configs/xcm_config.rs).
use nonfungible_adapter_tuto.Base.{
  ℕ, ◌+◌, ◌*◌, ◌/◌, ◌≤◌, ◌<◌, ◌≡◌, ◌⊎◌, inl, inr, Bool-cases, leb, some, arith, u64_max,
}
use nonfungible_adapter_tuto.Sdk.Numbers.{Numbers}
use nonfungible_adapter_tuto.Runtime.Weights.{
  maximum_block_weight, ref_time-maximum_block_weight, proof_size-maximum_block_weight,
}
use nonfungible_adapter_tuto.Runtime.BlockWeights.{
  BlockWeightsApi, DispatchClass, normal, operational, mandatory, normal_share, runtime_builder,
  runtime_block_weights,
}
use nonfungible_adapter_tuto.Runtime.BlockWeights.Limits.{
  normal_share_lem, expected, class-runtime_builder,
}

-- `UnitWeightCost` and `MaxInstructions`
pub unit_weight_cost : (n : Numbers) → n.Weight
unit_weight_cost n = n.from_parts 1_000_000_000 (64 * 1024)

pub ref_time-unit_weight_cost : (n : Numbers) → n.ref_time (unit_weight_cost n) ≡ 1_000_000_000
unfolding unit_weight_cost
ref_time-unit_weight_cost n = n.ref_time-from_parts 1_000_000_000 (64 * 1024) (omega arith)

pub proof_size-unit_weight_cost : (n : Numbers) → n.proof_size (unit_weight_cost n) ≡ 65536
unfolding unit_weight_cost
proof_size-unit_weight_cost n = n.proof_size-from_parts 1_000_000_000 (64 * 1024) (omega arith)

abbrev pub max_instructions : ℕ
max_instructions = 100

module _ (n : Numbers) (max_pov_size : ℕ) where
  -- `ReservedXcmpWeight` and `ReservedDmpWeight`
  pub reserved_xcmp_weight : n.Weight
  reserved_xcmp_weight = n.saturating_div (maximum_block_weight n max_pov_size) 4

  pub reserved_dmp_weight : n.Weight
  reserved_dmp_weight = n.saturating_div (maximum_block_weight n max_pov_size) 4

  module _ (api : BlockWeightsApi n) where
    -- `MessageQueueServiceWeight`
    pub message_queue_service_weight : api.BlockWeights → n.Weight
    message_queue_service_weight limits = n.scale (n.from_percent 35) (api.max_block limits)

    module _ {limits : api.BlockWeights} (small : max_pov_size ≤ u64_max)
        (built : runtime_block_weights n max_pov_size api ≡ some limits) where
      -- No class has a limit above the whole block.
      below_block :
          (d : DispatchClass) (w : n.Weight)
          → (api.class (runtime_builder n max_pov_size api) d).max_total ≡ some w
          → (n.ref_time w ≤ 2_000_000_000_000) × (n.proof_size w ≤ max_pov_size)
      unfolding expected
      below_block normal w h =
          let limit = (class-runtime_builder n max_pov_size api normal).1 in
          let e : normal_share n max_pov_size ≡ w = cc in
          rw (← e) (omega (arith, normal_share_lem n max_pov_size small))
      below_block operational w h =
          let limit = (class-runtime_builder n max_pov_size api operational).1 in
          let e : maximum_block_weight n max_pov_size ≡ w = cc in
          rw (← e) (
            omega (
              arith,
              ref_time-maximum_block_weight n max_pov_size,
              proof_size-maximum_block_weight n max_pov_size small,
            ))
      below_block mandatory w h =
          let limit = (class-runtime_builder n max_pov_size api mandatory).1 in absurd (cc)

      -- The largest limit is that of the operational class, the whole block.
      pub max_block_lem :
          (n.ref_time (api.max_block limits) ≡ 2_000_000_000_000)
          × (n.proof_size (api.max_block limits) ≡ max_pov_size)
      unfolding runtime_block_weights expected
      max_block_lem =
          let b = runtime_builder n max_pov_size api in
          let whole = (class-runtime_builder n max_pov_size api operational).1 in
          let m = maximum_block_weight n max_pov_size in
          let time = api.ref_time-max_block b limits built in
          let size = api.proof_size-max_block b limits built in
          omega (
            arith,
            time.0 operational m whole,
            time.1 2_000_000_000_000 (λ d w h. (below_block d w h).0),
            size.0 operational m whole,
            size.1 max_pov_size (λ d w h. (below_block d w h).1),
            ref_time-maximum_block_weight n max_pov_size,
            proof_size-maximum_block_weight n max_pov_size small,
          )

      service_weight_lem :
          let service = message_queue_service_weight limits in
          (n.ref_time service ≡ 700_000_000_000)
          × (100 * n.proof_size service ≤ 35 * max_pov_size + 50)
          × (35 * max_pov_size ≤ 100 * n.proof_size service + 50)
      unfolding message_queue_service_weight
      service_weight_lem =
          let m = api.max_block limits in
          let ratio = n.from_percent 35 in
          let thirty_five : n.parts ratio ≡ 350_000_000 = omega (arith, n.parts-from_percent) in
          let time : n.parts ratio * n.ref_time m ≡ 350_000_000 * n.ref_time m = rw thirty_five in
          let proof : n.parts ratio * n.proof_size m ≡ 350_000_000 * n.proof_size m =
            rw thirty_five in
          omega (
            arith,
            max_block_lem,
            n.ref_time-scale ratio m,
            n.proof_size-scale ratio m,
            n.mul_le ratio (n.ref_time m),
            n.mul_ge ratio (n.ref_time m),
            n.mul_le ratio (n.proof_size m),
            n.mul_ge ratio (n.proof_size m),
          )

      -- What a block sets aside for messages: a quarter of it for those of siblings, a quarter for
      -- those of the relay chain, and 35% of it, up to rounding in the proof size, for
      -- serving the queue.
      queues_within_block :
          let m = maximum_block_weight n max_pov_size in
          let x = reserved_xcmp_weight in
          let d = reserved_dmp_weight in
          let service = message_queue_service_weight limits in
          (n.ref_time x + n.ref_time d ≡ n.ref_time m / 2)
          × (n.proof_size x + n.proof_size d ≤ n.proof_size m / 2)
          × (100 * n.ref_time service ≡ 35 * n.ref_time m)
          × (100 * n.proof_size service ≤ 35 * n.proof_size m + 50)
          × (35 * n.proof_size m ≤ 100 * n.proof_size service + 50)
      unfolding reserved_xcmp_weight reserved_dmp_weight
      queues_within_block =
          let m = maximum_block_weight n max_pov_size in
          omega (
            arith,
            service_weight_lem,
            n.ref_time-saturating_div m 4,
            n.proof_size-saturating_div m 4,
            ref_time-maximum_block_weight n max_pov_size,
            proof_size-maximum_block_weight n max_pov_size small,
          )

      -- Where the limits of a block can be built, with a proof size that fits u64: a message of
      -- `k` instructions, each of the cost of a unit, is within the service weight of the queue in
      -- time for every `k` that `MaxInstructions` allows. In proof size it either is, and `k` is
      -- at most 35% of the block's proof size counted in units of 64 KiB, or it is not, and `k` is
      -- at least that, up to rounding.
      pub message_fits :
          (k : ℕ) (w : n.Weight)
          → k ≤ max_instructions
          → n.ref_time w ≡ k * n.ref_time (unit_weight_cost n)
          → n.proof_size w ≡ k * n.proof_size (unit_weight_cost n)
          → let service = message_queue_service_weight limits in
            (n.ref_time w ≤ n.ref_time service)
            × (((n.proof_size w ≤ n.proof_size service) × (6_553_600 * k ≤ 35 * max_pov_size + 50))
                ⊎ ((n.proof_size service < n.proof_size w)
                    × (35 * max_pov_size ≤ 6_553_600 * k + 50)))
      message_fits k w few time size =
          let t : n.ref_time w ≡ k * 1_000_000_000 = rw (← (ref_time-unit_weight_cost n)) time in
          let p : n.proof_size w ≡ k * 65536 = rw (← (proof_size-unit_weight_cost n)) size in
          let service = service_weight_lem in
          (
            omega arith,
            elim (Bool-cases
                (leb (n.proof_size w) (n.proof_size (message_queue_service_weight limits)))) [
                  | inl h ↦ inl (ground arith)
                  | inr h ↦ inr (ground arith)
                ],
          )
