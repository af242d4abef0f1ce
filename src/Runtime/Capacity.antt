-- ===== src/Runtime/Capacity.antt =====
-- How many calls of the template pallet fit into a block: the weights of pallets/template/src over
-- the runtime's database, against the limits of runtime/src/configs/mod.rs.
use nonfungible_adapter_tuto.Base.{ℕ, ◌+◌, ◌*◌, ◌≤◌, ◌≡◌, ap, ◌∙◌, ◌↔◌, some, arith, u64_max}
use nonfungible_adapter_tuto.Sdk.Numbers.{Numbers}
use nonfungible_adapter_tuto.Pallet.Weights.{
  declared_do_something, declared_cause_error, ref_time-declared_do_something,
  ref_time-declared_cause_error, ref_time-do_something, ref_time-cause_error,
}
use nonfungible_adapter_tuto.Runtime.Weights.{
  rocks_db_weight, rocks_db_weight_lem, ref_time-extrinsic_base_weight,
}
use nonfungible_adapter_tuto.Runtime.BlockWeights.{
  BlockWeightsApi, normal, normal_share, runtime_block_weights,
}
use nonfungible_adapter_tuto.Runtime.BlockWeights.Limits.{
  normal_share_lem, runtime_block_weights_limits,
}
use nonfungible_adapter_tuto.Runtime.Transact.{template_weight_info}

module _ (n : Numbers) where
  -- The times of the calls on the runtime's database.
  call_times :
      let db = rocks_db_weight n in
      let benchmarked = template_weight_info n in
      (n.ref_time (declared_do_something n db) ≡ 100_010_000)
      × (n.ref_time (declared_cause_error n db) ≡ 125_010_000)
      × (n.ref_time benchmarked.do_something ≡ 109_000_000)
      × (n.ref_time benchmarked.cause_error ≡ 131_000_000)
  call_times =
      let db = rocks_db_weight n in
      let (read, write) = rocks_db_weight_lem n in
      let r : db.read ≤ 1_000_000_000_000_000_000 = omega (arith, read) in
      let w : db.write ≤ 1_000_000_000_000_000_000 = omega (arith, write) in
      (
        omega (arith, read, write, ref_time-declared_do_something n db r w),
        omega (arith, read, write, ref_time-declared_cause_error n db r w),
        omega (arith, read, write, ref_time-do_something n db r w),
        omega (arith, read, write, ref_time-cause_error n db r w),
      )

  module _ (max_pov_size : ℕ) (api : BlockWeightsApi n) where
    -- Where the limits of a block can be built, with a proof size that fits u64: by the time that
    -- the calls declare, with the base weight of a normal extrinsic for each, the normal share of
    -- a block takes exactly up to 6666 calls of `do_something` alone and up to 5999 of
    -- `cause_error` alone; by the time that was benchmarked, exactly up to 6410 and up to 5859.
    pub template_calls_per_block :
        {limits : api.BlockWeights} (share : n.Weight)
        → max_pov_size ≤ u64_max
        → runtime_block_weights n max_pov_size api ≡ some limits
        → (api.built limits normal).max_total ≡ some share
        → let base = n.ref_time (api.built limits normal).base_extrinsic in
          let db = rocks_db_weight n in
          let benchmarked = template_weight_info n in
          (k : ℕ)
          → ((k * (base + n.ref_time (declared_do_something n db)) ≤ n.ref_time share)
              ↔ (k ≤ 6_666))
            × ((k * (base + n.ref_time (declared_cause_error n db)) ≤ n.ref_time share)
                ↔ (k ≤ 5_999))
            × ((k * (base + n.ref_time benchmarked.do_something) ≤ n.ref_time share) ↔ (k ≤ 6_410))
            × ((k * (base + n.ref_time benchmarked.cause_error) ≤ n.ref_time share) ↔ (k ≤ 5_859))
    template_calls_per_block {limits} share small built limit k =
        let limits_of = runtime_block_weights_limits n max_pov_size api small built in
        let total = limits_of.3 in
        let same : normal_share n max_pov_size ≡ share = cc in
        let time : n.ref_time share ≡ 1_500_000_000_000 =
          rw (← same) ((normal_share_lem n max_pov_size small).0) in
        let start : n.ref_time (api.built limits normal).base_extrinsic ≡ 125_000_000 =
          ap n.ref_time (limits_of.0 normal) ∙ ref_time-extrinsic_base_weight n in
        let (d, c, bd, bc) = call_times in
        rw (time, start, d, c, bd, bc)
          (
            (λ h. omega arith, λ h. omega arith),
            (λ h. omega arith, λ h. omega arith),
            (λ h. omega arith, λ h. omega arith),
            (λ h. omega arith, λ h. omega arith),
          )
