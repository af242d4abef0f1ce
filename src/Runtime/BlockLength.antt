-- ===== src/Runtime/BlockLength.antt =====
-- `RuntimeBlockLength` of runtime/src/configs/mod.rs: the limits on the bytes of a block. Making
-- the limits from a total and a ratio is the SDK's; `BlockLengthApi` has what it makes.
use nonfungible_adapter_tuto.Base.{ℕ, ◌*◌, ◌≡◌, ◌≢◌, arith}
use nonfungible_adapter_tuto.Sdk.Numbers.{Numbers}
use nonfungible_adapter_tuto.Runtime.BlockWeights.{
  DispatchClass, normal, operational, mandatory, normal_dispatch_ratio,
}

pub record BlockLengthApi (n : Numbers) : Type 1 where
  pub BlockLength : Type 0
  -- The most bytes that the extrinsics of a class may have.
  pub max : BlockLength → DispatchClass → ℕ
  pub max_with_normal_ratio : ℕ → n.Perbill → BlockLength
  pub max_normal :
      (total : ℕ) (ratio : n.Perbill)
      → max (max_with_normal_ratio total ratio) normal ≡ n.mul ratio total
  pub max_other :
      (total : ℕ) (ratio : n.Perbill) (d : DispatchClass)
      → d ≢ normal
      → max (max_with_normal_ratio total ratio) d ≡ total

module _ (n : Numbers) (max_pov_size : ℕ) (api : BlockLengthApi n) where
  pub runtime_block_length : api.BlockLength
  runtime_block_length =
      api.max_with_normal_ratio (5 * 1024 * 1024) (normal_dispatch_ratio n max_pov_size)

  -- A block has five mebibytes for operational and for mandatory extrinsics, and of those exactly
  -- three quarters for normal ones.
  pub runtime_block_length_limits :
      (api.max runtime_block_length normal ≡ 3_932_160)
      × (api.max runtime_block_length operational ≡ 5_242_880)
      × (api.max runtime_block_length mandatory ≡ 5_242_880)
  unfolding runtime_block_length normal_dispatch_ratio
  runtime_block_length_limits =
      let ratio = n.from_percent 75 in
      let total : ℕ = 5 * 1024 * 1024 in
      let seventy_five : n.parts ratio ≡ 750_000_000 = omega (arith, n.parts-from_percent) in
      let share : n.parts ratio * total ≡ 750_000_000 * total = rw seventy_five in
      (
        omega (arith, api.max_normal total ratio, n.mul_le ratio total, n.mul_ge ratio total),
        api.max_other total ratio operational (λ q. cc),
        api.max_other total ratio mandatory (λ q. cc),
      )
