-- ===== src/Pallet/Weights.antt =====
-- pallets/template/src/weights.rs, and the weight annotations of the calls in
-- pallets/template/src/lib.rs.
use nonfungible_adapter_tuto.Base.{◌+◌, ◌≤◌, ◌≡◌, arith}
use nonfungible_adapter_tuto.Sdk.Numbers.{Numbers, RuntimeDbWeight}

module _ (n : Numbers) where
  open n use {
    Weight, from_parts, ref_time, proof_size, saturating_add, add, reads, writes, reads_writes,
  }

  pub record WeightInfo : Type 0 where
    pub do_something : Weight
    pub cause_error : Weight

  -- `WeightInfo for SubstrateWeight<T>`, over `T::DbWeight`.
  pub do_something : RuntimeDbWeight → Weight
  do_something db = saturating_add (from_parts 9_000_000 0) (writes db 1)

  pub cause_error : RuntimeDbWeight → Weight
  cause_error db =
      saturating_add (saturating_add (from_parts 6_000_000 1489) (reads db 1)) (writes db 1)

  abbrev pub substrate_weight : RuntimeDbWeight → WeightInfo
  substrate_weight db = record { do_something = do_something db; cause_error = cause_error db }

  -- `WeightInfo for ()`, over the SDK's `RocksDbWeight`.
  abbrev pub unit_weight_info : RuntimeDbWeight → WeightInfo
  unit_weight_info rocks_db_weight = record {
    do_something = saturating_add (from_parts 9_000_000 0) (writes rocks_db_weight 1);
    cause_error =
        saturating_add (saturating_add (from_parts 6_000_000 1489) (reads rocks_db_weight 1))
          (writes rocks_db_weight 1);
  }

  -- `#[pallet::weight(..)]` of the two calls: what a dispatch is charged.
  pub declared_do_something : RuntimeDbWeight → Weight
  declared_do_something db = add (from_parts 10_000 0) (writes db 1)

  pub declared_cause_error : RuntimeDbWeight → Weight
  declared_cause_error db = add (from_parts 10_000 0) (reads_writes db 1 1)

  module _ (db : RuntimeDbWeight) (r : db.read ≤ 1_000_000_000_000_000_000)
      (w : db.write ≤ 1_000_000_000_000_000_000) where
    -- The time of each call, declared and benchmarked.
    pub ref_time-declared_do_something : ref_time (declared_do_something db) ≡ 10_000 + db.write
    unfolding declared_do_something
    ref_time-declared_do_something =
        omega (arith, n.ref_time-from_parts, n.ref_time-add, n.ref_time-writes)

    pub ref_time-declared_cause_error :
        ref_time (declared_cause_error db) ≡ 10_000 + db.read + db.write
    unfolding declared_cause_error
    ref_time-declared_cause_error =
        omega (arith, n.ref_time-from_parts, n.ref_time-add, n.ref_time-reads_writes)

    pub ref_time-do_something : ref_time (do_something db) ≡ 9_000_000 + db.write
    unfolding do_something
    ref_time-do_something =
        omega (arith, n.ref_time-from_parts, n.ref_time-saturating_add, n.ref_time-writes)

    pub ref_time-cause_error : ref_time (cause_error db) ≡ 6_000_000 + db.read + db.write
    unfolding cause_error
    ref_time-cause_error = grind (
      arith, n.ref_time-from_parts, n.ref_time-saturating_add, n.ref_time-reads, n.ref_time-writes,
    )

  -- For a database whose read and write take less than a million seconds, each call is charged less
  -- than its benchmarked weight, by the same amount for every database, and `cause_error` is
  -- charged no proof size at all for the one value that it reads.
  pub declared_below_benchmarked :
      (db : RuntimeDbWeight)
      → db.read ≤ 1_000_000_000_000_000_000
      → db.write ≤ 1_000_000_000_000_000_000
      → (ref_time (declared_do_something db) + 8_990_000 ≡ ref_time (do_something db))
        × (ref_time (declared_cause_error db) + 5_990_000 ≡ ref_time (cause_error db))
        × (proof_size (declared_cause_error db) ≡ 0)
        × (proof_size (cause_error db) ≡ 1489)
  unfolding cause_error declared_cause_error
  declared_below_benchmarked db hr hw = (
    omega (arith, ref_time-declared_do_something db hr hw, ref_time-do_something db hr hw),
    omega (arith, ref_time-declared_cause_error db hr hw, ref_time-cause_error db hr hw),
    omega (arith, n.proof_size-from_parts, n.proof_size-add, n.proof_size-reads_writes),
    grind (
      arith, n.proof_size-from_parts, n.proof_size-saturating_add, n.proof_size-reads,
      n.proof_size-writes,
    ),
  )
