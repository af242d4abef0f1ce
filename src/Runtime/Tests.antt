-- ===== src/Runtime/Tests.antt =====
-- The runtime of runtime/src on concrete numbers, assets, messages and presets.
pub mod Messages
pub mod Locations
pub mod Origins
pub mod Assets
pub mod Executor
pub mod Limits
pub mod Trading
pub mod Transacting
pub mod Chain
mod Histories
mod Networks
pub mod Answers
mod FullBlocks
use mathlib.Core.List.{Memᴰ}
use nonfungible_adapter_tuto.Base.{
  ℕ, ◌+◌, ◌*◌, ◌/◌, ◌≡◌, ◌⊎◌, refl, Option, none, some, [], ◌∷◌, ok, All, arith, min, u128_max,
}
use nonfungible_adapter_tuto.Sdk.Samples.{numbers, keyring, genesis_names}
use nonfungible_adapter_tuto.Runtime.Units.{milli_unit, micro_unit}
use nonfungible_adapter_tuto.Runtime.Weights.{extrinsic_base_weight, ref_time-extrinsic_base_weight}
use nonfungible_adapter_tuto.Runtime.Fees.{
  Evaluator, weight_to_fee, weight_to_fee_bounds, weight_to_fee-base,
}
use nonfungible_adapter_tuto.Runtime.Genesis.{Genesis, testnet_genesis, preset_names, get_preset}
use nonfungible_adapter_tuto.Runtime.Genesis.Configs.{IsConsistent, testnet_genesis-IsConsistent}
use nonfungible_adapter_tuto.Runtime.Genesis.Presets.{IsPreset}
use nonfungible_adapter_tuto.Runtime.Genesis.Lookup.{get_preset_total}

-- The sum of the terms, cut at u128.
abbrev pub evaluator : Evaluator numbers
evaluator = record {
  evaluate = λ cs w. elim cs [
    | [] ↦ 0
    | c ∷ _ ↦
        min (numbers.mul c.coeff_frac (numbers.ref_time w) + c.coeff_integer * numbers.ref_time w)
          u128_max
  ];
  evaluate_linear = λ c w d g h. omega arith;
}

-- Two base extrinsics cost two micro units.
weight_to_fee_example : weight_to_fee numbers evaluator (250_000_000, 0) ≡ 2_000_000
weight_to_fee_example = omega (arith, weight_to_fee_bounds numbers evaluator (250_000_000, 0))

two_extrinsics :
    numbers.ref_time (250_000_000, 0) ≡ 2 * numbers.ref_time (extrinsic_base_weight numbers)
two_extrinsics = omega (arith, ref_time-extrinsic_base_weight numbers)

weight_to_fee-base_example :
    (weight_to_fee numbers evaluator (250_000_000, 0) ≡ 2 * micro_unit)
    × (100 * weight_to_fee numbers evaluator (250_000_000, 0) ≡ 2 * (milli_unit / 10))
weight_to_fee-base_example = weight_to_fee-base numbers evaluator 2 (250_000_000, 0) two_extrinsics

-- Alice and the third account collate, Bob has the sudo key.
testnet_genesis-IsConsistent_example :
    IsConsistent {A = ℕ} {U = ℕ}
      (testnet_genesis genesis_names ((1, 10) ∷ (3, 30) ∷ []) (1 ∷ 2 ∷ 3 ∷ []) 2 2000)
testnet_genesis-IsConsistent_example =
    testnet_genesis-IsConsistent genesis_names ((1, 10) ∷ (3, 30) ∷ []) (1 ∷ 2 ∷ 3 ∷ []) 2 2000
      ((omega arith, tt), (tt, tt)) (Memᴰ.head refl, (Memᴰ.tail (Memᴰ.tail (Memᴰ.head refl)), tt))
      (Memᴰ.tail (Memᴰ.head refl)) (omega arith)

-- A configuration's text is the id of its chain.
abbrev to_json : Genesis keyring genesis_names → Option ℕ
to_json g = some g.parachain_info.parachain_id

get_preset_total_example :
    (Memᴰ "parachain-a" (preset_names keyring genesis_names)
      × (g : Genesis keyring genesis_names) × (text : ℕ) × (to_json g ≡ some text)
      × (get_preset keyring genesis_names to_json "parachain-a" ≡ ok (some text))
      × IsPreset keyring genesis_names g)
    ⊎ (¬ (Memᴰ "parachain-a" (preset_names keyring genesis_names))
        × (get_preset keyring genesis_names to_json "parachain-a" ≡ ok none))
get_preset_total_example = get_preset_total keyring genesis_names to_json (λ g h. cc) "parachain-a"
