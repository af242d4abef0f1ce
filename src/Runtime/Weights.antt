-- ===== src/Runtime/Weights.antt =====
-- runtime/src/weights: the weight of an empty block, of an empty extrinsic, and of a read and a
-- write of each database, with the checks that the unit tests beside them make; and the largest
-- block weight, of runtime/src/lib.rs.
use nonfungible_adapter_tuto.Base.{
  ◌*◌, ℕ, ◌≤◌, ◌≡◌, Bool, true, ◌&&◌, leb, saturating_mul, u64_max, arith,
}
use nonfungible_adapter_tuto.Sdk.Numbers.{Numbers, RuntimeDbWeight}

module _ (n : Numbers) where
  open n use {
    Weight, from_parts, ref_time, reads, writes, per_second, per_millis, per_micros, per_nanos,
  }

  pub block_execution_weight : Weight
  block_execution_weight = from_parts (saturating_mul per_nanos 5_000_000) 0

  pub extrinsic_base_weight : Weight
  extrinsic_base_weight = from_parts (saturating_mul per_nanos 125_000) 0

  pub rocks_db_weight : RuntimeDbWeight
  rocks_db_weight = record { read = 25_000 * per_nanos; write = 100_000 * per_nanos }

  pub parity_db_weight : RuntimeDbWeight
  parity_db_weight = record { read = 8_000 * per_nanos; write = 50_000 * per_nanos }

  -- `sane` in block_weights.rs, extrinsic_weights.rs, and in the two files of database weights,
  -- where the test is the same: the conjunction of what it asserts.
  pub block_weight_sane : Weight → Bool
  block_weight_sane w = leb (100 * per_micros) (ref_time w) && leb (ref_time w) (50 * per_millis)

  pub extrinsic_weight_sane : Weight → Bool
  extrinsic_weight_sane w = leb (10 * per_micros) (ref_time w) && leb (ref_time w) per_millis

  pub db_weight_sane : RuntimeDbWeight → Bool
  db_weight_sane db =
      leb per_micros (ref_time (reads db 1))
      && leb per_micros (ref_time (writes db 1))
      && leb (ref_time (reads db 1)) per_millis
      && leb (ref_time (writes db 1)) per_millis

  -- The tests of the two weights for databases.
  pub rocks_db_sane : Bool
  rocks_db_sane = db_weight_sane rocks_db_weight

  pub parity_db_sane : Bool
  parity_db_sane = db_weight_sane parity_db_weight

  -- `MAXIMUM_BLOCK_WEIGHT`, over the relay chain's `MAX_POV_SIZE`.
  pub maximum_block_weight : ℕ → Weight
  maximum_block_weight max_pov_size = from_parts (saturating_mul per_second 2) max_pov_size

  pub ref_time-extrinsic_base_weight : ref_time extrinsic_base_weight ≡ 125_000_000
  unfolding extrinsic_base_weight
  ref_time-extrinsic_base_weight = omega (arith, n.ref_time-from_parts, n.per_nanos_lem)

  pub rocks_db_weight_lem :
      (rocks_db_weight.read ≡ 25_000_000) × (rocks_db_weight.write ≡ 100_000_000)
  unfolding rocks_db_weight
  rocks_db_weight_lem = omega (arith, n.per_nanos_lem)

  ref_time-block_execution_weight : ref_time block_execution_weight ≡ 5_000_000_000
  unfolding block_execution_weight
  ref_time-block_execution_weight = omega (arith, n.ref_time-from_parts, n.per_nanos_lem)

  pub ref_time-maximum_block_weight :
      (max_pov_size : ℕ) → ref_time (maximum_block_weight max_pov_size) ≡ 2_000_000_000_000
  unfolding maximum_block_weight
  ref_time-maximum_block_weight max_pov_size =
      omega (arith, n.ref_time-from_parts, n.per_second_lem)

  db_weight_sane_of_range :
      (db : RuntimeDbWeight)
      → 1_000_000 ≤ db.read
      → db.read ≤ 1_000_000_000
      → 1_000_000 ≤ db.write
      → db.write ≤ 1_000_000_000
      → db_weight_sane db ≡ true
  unfolding db_weight_sane
  db_weight_sane_of_range db r1 r2 w1 w2 =
      ground
        (arith, n.ref_time-reads db 1, n.ref_time-writes db 1, n.per_micros_lem, n.per_millis_lem)

  -- The four unit tests of the weight files pass.
  weights_sane :
      (block_weight_sane block_execution_weight ≡ true)
      × (extrinsic_weight_sane extrinsic_base_weight ≡ true)
      × (rocks_db_sane ≡ true)
      × (parity_db_sane ≡ true)
  unfolding block_weight_sane extrinsic_weight_sane rocks_db_weight parity_db_weight rocks_db_sane
      parity_db_sane
  weights_sane = (
    ground (arith, ref_time-block_execution_weight, n.per_micros_lem, n.per_millis_lem),
    ground (arith, ref_time-extrinsic_base_weight, n.per_micros_lem, n.per_millis_lem),
    db_weight_sane_of_range _ (omega (arith, n.per_nanos_lem)) (omega (arith, n.per_nanos_lem))
        (omega (arith, n.per_nanos_lem)) (omega (arith, n.per_nanos_lem)),
    db_weight_sane_of_range _ (omega (arith, n.per_nanos_lem)) (omega (arith, n.per_nanos_lem))
        (omega (arith, n.per_nanos_lem)) (omega (arith, n.per_nanos_lem)),
  )

  pub proof_size-maximum_block_weight :
      (max_pov_size : ℕ)
      → max_pov_size ≤ u64_max
      → n.proof_size (maximum_block_weight max_pov_size) ≡ max_pov_size
  unfolding maximum_block_weight
  proof_size-maximum_block_weight max_pov_size h = n.proof_size-from_parts _ max_pov_size h
