-- ===== src/Runtime/Fees.antt =====
-- `WeightToFee` of runtime/src/lib.rs: the polynomial that turns reference time into a fee. The SDK
-- evaluates it; what is used of that is the parameter `evaluate` with its law.
use nonfungible_adapter_tuto.Base.{
  ℕ, ◌+◌, ◌*◌, ◌/◌, ◌%◌, ◌≤◌, ◌≡◌, refl, Bool, false, List, [], ◌∷◌, u128_max, arith,
}
use nonfungible_adapter_tuto.Sdk.Numbers.{Numbers}
use nonfungible_adapter_tuto.Runtime.Units.{milli_unit, micro_unit}
use nonfungible_adapter_tuto.Runtime.Weights.{
  extrinsic_base_weight, ref_time-extrinsic_base_weight, maximum_block_weight,
  ref_time-maximum_block_weight,
}

-- `WeightToFeeCoefficient`, a struct of the SDK with public fields.
pub record Coefficient (n : Numbers) : Type 0 where
  pub degree : ℕ
  pub negative : Bool
  pub coeff_frac : n.Perbill
  pub coeff_integer : ℕ

-- `WeightToFeePolynomial::weight_to_fee`: of one positive coefficient of degree one it makes the
-- product with the reference time, unless that passes u128.
pub record Evaluator (n : Numbers) : Type 0 where
  pub evaluate : List (Coefficient n) → n.Weight → ℕ
  pub evaluate_linear :
      (c : Coefficient n) (w : n.Weight)
      → c.degree ≡ 1
      → c.negative ≡ false
      → n.mul c.coeff_frac (n.ref_time w) + c.coeff_integer * n.ref_time w ≤ u128_max
      → evaluate (c ∷ []) w ≡ n.mul c.coeff_frac (n.ref_time w) + c.coeff_integer * n.ref_time w

module _ (n : Numbers) (e : Evaluator n) where
  -- A coefficient of 8 parts of a thousand makes a 125th.
  evaluate_bounds :
      (c : Coefficient n) (w : n.Weight)
      → c.degree ≡ 1
      → c.negative ≡ false
      → n.parts c.coeff_frac ≡ 8_000_000
      → c.coeff_integer ≡ 0
      → (125 * e.evaluate (c ∷ []) w ≤ n.ref_time w + 62)
        × (n.ref_time w ≤ 125 * e.evaluate (c ∷ []) w + 62)
  evaluate_bounds c w degree negative frac integer =
      let t = n.ref_time w in
      let whole : c.coeff_integer * t ≡ 0 = rw integer (omega arith) in
      let product : n.parts c.coeff_frac * t ≡ 8_000_000 * t = rw frac in
      let le = n.mul_le c.coeff_frac t in
      let ge = n.mul_ge c.coeff_frac t in
      let fits : n.mul c.coeff_frac t + c.coeff_integer * t ≤ u128_max =
        omega (arith, n.ref_time_le w) in
      omega (arith, e.evaluate_linear c w degree negative fits)

module _ (n : Numbers) where
  -- The coefficient p / q, as its integer part and its fraction.
  coefficient : ℕ → ℕ → Coefficient n
  coefficient p q = record {
    degree = 1;
    negative = false;
    coeff_frac = n.from_rational (p % q) q;
    coeff_integer = p / q;
  }

  pub polynomial : List (Coefficient n)
  unfolding coefficient
  polynomial =
      let p = milli_unit / 10 in
      let q = 100 * n.ref_time (extrinsic_base_weight n) in coefficient p q ∷ []

module _ (n : Numbers) (e : Evaluator n) where
  -- What `pallet_transaction_payment` charges for the weight of a call.
  abbrev pub weight_to_fee : n.Weight → ℕ
  weight_to_fee w = e.evaluate (polynomial n) w

  -- The fee of any weight is a 125th of its reference time, rounded to a nearest integer.
  pub weight_to_fee_bounds :
      (w : n.Weight)
      → (125 * weight_to_fee w ≤ n.ref_time w + 62) × (n.ref_time w ≤ 125 * weight_to_fee w + 62)
  unfolding polynomial
  weight_to_fee_bounds w =
      evaluate_bounds n e _ w refl refl
        (rw (ref_time-extrinsic_base_weight n) (omega (arith, n.parts-from_rational)))
        (rw (ref_time-extrinsic_base_weight n) (omega arith))

  -- The time of `k` empty extrinsics costs `k` micro units: a hundredth of the tenth of a milli unit
  -- that the fee of one is said to be.
  pub weight_to_fee-base :
      (k : ℕ) (w : n.Weight)
      → n.ref_time w ≡ k * n.ref_time (extrinsic_base_weight n)
      → (weight_to_fee w ≡ k * micro_unit) × (100 * weight_to_fee w ≡ k * (milli_unit / 10))
  weight_to_fee-base k w h =
      let time : n.ref_time w ≡ k * 125_000_000 = rw (← ref_time-extrinsic_base_weight n) h in
      omega (arith, weight_to_fee_bounds w)

  -- A full block costs 16 milli units, whatever its proof size may be.
  weight_to_fee-maximum_block_weight :
      (max_pov_size : ℕ) → weight_to_fee (maximum_block_weight n max_pov_size) ≡ 16 * milli_unit
  weight_to_fee-maximum_block_weight max_pov_size = omega (
    arith,
    weight_to_fee_bounds (maximum_block_weight n max_pov_size),
    ref_time-maximum_block_weight n max_pov_size,
  )
