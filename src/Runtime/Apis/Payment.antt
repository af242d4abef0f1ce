-- ===== src/Runtime/Apis/Payment.antt =====
-- The fees that the runtime answers (`TransactionPaymentApi` and `TransactionPaymentCallApi` of
-- runtime/src/apis.rs), with `TransactionByteFee` of runtime/src/configs/mod.rs. What
-- `pallet_transaction_payment` does is the record `PaymentApi`.
use nonfungible_adapter_tuto.Base.{
  ℕ, ◌+◌, ◌*◌, ◌≤◌, ◌≡◌, min, some, u32_max, u64_max, u128_max, arith,
}
use nonfungible_adapter_tuto.Sdk.Numbers.{Numbers}
use nonfungible_adapter_tuto.Runtime.Units.{milli_unit, micro_unit, transaction_byte_fee}
use nonfungible_adapter_tuto.Runtime.Fees.{Evaluator, weight_to_fee, weight_to_fee_bounds}
use nonfungible_adapter_tuto.Runtime.BlockWeights.{BlockWeightsApi, runtime_block_weights}
use nonfungible_adapter_tuto.Runtime.BlockWeights.Queues.{max_block_lem}

-- The pallet over its configuration: the fee of a weight, the fee of a byte, the block's limits.
pub record PaymentApi (n : Numbers) : Type 1 where
  pub Call : Type 0
  pub Extrinsic : Type 0
  pub State : Type 0
  pub DispatchInfo : Type 0
  pub FeeDetails : Type 0
  pub query_info : Extrinsic → ℕ → State → DispatchInfo
  pub query_fee_details : Extrinsic → ℕ → State → FeeDetails
  pub query_call_info : Call → ℕ → State → DispatchInfo
  pub query_call_fee_details : Call → ℕ → State → FeeDetails
  pub weight_to_fee : (n.Weight → ℕ) → n.Weight → n.Weight → ℕ
  pub length_to_fee : ℕ → ℕ → ℕ
  -- A weight is cut, in time, at the most that a block takes, before it is priced.
  pub weight_to_fee_capped :
      (price : n.Weight → ℕ) (max_block w : n.Weight)
      → (cut : n.Weight) × (weight_to_fee price max_block w ≡ price cut)
        × (n.ref_time cut ≡ min (n.ref_time w) (n.ref_time max_block))
  -- `ConstantMultiplier`, which saturates at u128.
  pub length_to_fee_lem :
      (byte_fee len : ℕ) → length_to_fee byte_fee len ≡ min (len * byte_fee) u128_max

module _ (n : Numbers) (e : Evaluator n) (max_pov_size : ℕ) (blocks : BlockWeightsApi n)
    (api : PaymentApi n) where
  open api use {Call, Extrinsic, State, DispatchInfo, FeeDetails}

  -- The methods of the two APIs; those for weights and lengths are the same in both.
  pub query_weight_to_fee : blocks.BlockWeights → n.Weight → ℕ
  query_weight_to_fee limits w = api.weight_to_fee (weight_to_fee n e) (blocks.max_block limits) w

  pub query_length_to_fee : ℕ → ℕ
  query_length_to_fee len = api.length_to_fee transaction_byte_fee len

  abbrev pub query_info : Extrinsic → ℕ → State → DispatchInfo
  query_info uxt len = api.query_info uxt len

  abbrev pub query_fee_details : Extrinsic → ℕ → State → FeeDetails
  query_fee_details uxt len = api.query_fee_details uxt len

  abbrev pub query_call_info : Call → ℕ → State → DispatchInfo
  query_call_info call len = api.query_call_info call len

  abbrev pub query_call_fee_details : Call → ℕ → State → FeeDetails
  query_call_fee_details call len = api.query_call_fee_details call len

  -- Where the limits of a block can be built, with a proof size that fits u64, and for lengths
  -- that fit u32: the fee for a weight is a 125th of its time, rounded to a nearest integer, up to
  -- the time of a full block and constant from there on, so that no weight costs more than 16
  -- milli units; the fee for the length of an extrinsic is 10 micro units for each of its bytes.
  pub query_fees_bounds :
      {limits : blocks.BlockWeights} (w : n.Weight) (len : ℕ)
      → max_pov_size ≤ u64_max
      → runtime_block_weights n max_pov_size blocks ≡ some limits
      → len ≤ u32_max
      → let time = min (n.ref_time w) 2_000_000_000_000 in
        let fee = query_weight_to_fee limits w in
        (125 * fee ≤ time + 62)
        × (time ≤ 125 * fee + 62)
        × (fee ≤ 16 * milli_unit)
        × (query_length_to_fee len ≡ 10 * micro_unit * len)
  unfolding query_weight_to_fee query_length_to_fee
  query_fees_bounds {limits} w len small built short =
      let (cut, e1, e2) =
        api.weight_to_fee_capped (weight_to_fee n e) (blocks.max_block limits) w in
      omega (
        arith,
        e1,
        e2,
        weight_to_fee_bounds n e cut,
        max_block_lem n max_pov_size blocks small built,
        api.length_to_fee_lem transaction_byte_fee len,
      )
