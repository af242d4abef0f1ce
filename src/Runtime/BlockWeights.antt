-- ===== src/Runtime/BlockWeights.antt =====
-- `RuntimeBlockWeights` of runtime/src/configs/mod.rs: the limits on the weight of a block, as the
-- calls of the SDK's builder, whose documented effect on the limits of a class is the record
-- `BlockWeightsApi`.
pub mod Limits
pub mod Queues
use nonfungible_adapter_tuto.Base.{
  ◌≤◌, ◌≡◌, Bool, true, false, ◌||◌, Option, none, some, List, [], ◌∷◌, ℕ, if◌then◌else◌,
}
use nonfungible_adapter_tuto.Sdk.Numbers.{Numbers}
use nonfungible_adapter_tuto.Runtime.Weights.{
  block_execution_weight, extrinsic_base_weight, maximum_block_weight,
}

pub data DispatchClass : Type 0 where
  normal operational mandatory : DispatchClass

abbrev pub is_class : DispatchClass → DispatchClass → Bool
is_class normal normal = true
is_class operational operational = true
is_class mandatory mandatory = true
is_class _ _ = false

abbrev pub contains : DispatchClass → List DispatchClass → Bool
contains d [] = false
contains d (x ∷ xs) = is_class d x || contains d xs

-- `WeightsPerClass`, a struct of the SDK with public fields.
pub record WeightsPerClass (n : Numbers) : Type 0 where
  pub base_extrinsic : n.Weight
  pub max_extrinsic : Option n.Weight
  pub max_total : Option n.Weight
  pub reserved : Option n.Weight

-- `BlockWeightsBuilder`. `class` is what a builder holds for a class so far, and `built` what the
-- finished limits hold; `build_or_panic` fills in `max_extrinsic` alone.
pub record BlockWeightsApi (n : Numbers) : Type 1 where
  pub Builder : Type 0
  pub BlockWeights : Type 0
  pub builder : Builder
  pub base_block : n.Weight → Builder → Builder
  pub for_class : List DispatchClass → (WeightsPerClass n → WeightsPerClass n) → Builder → Builder
  pub avg_block_initialization : n.Perbill → Builder → Builder
  pub build_or_panic : Builder → Option BlockWeights
  pub max_block : BlockWeights → n.Weight
  pub class : Builder → DispatchClass → WeightsPerClass n
  pub built : BlockWeights → DispatchClass → WeightsPerClass n
  pub class-builder : (class builder mandatory).max_total ≡ none
  pub class-base_block :
      (w : n.Weight) (b : Builder) (d : DispatchClass) → class (base_block w b) d ≡ class b d
  pub class-avg_block_initialization :
      (r : n.Perbill) (b : Builder) (d : DispatchClass)
      → class (avg_block_initialization r b) d ≡ class b d
  pub class-for_class :
      (ds : List DispatchClass) (f : WeightsPerClass n → WeightsPerClass n) (b : Builder)
      (d : DispatchClass)
      → class (for_class ds f b) d ≡ (if contains d ds then f (class b d) else class b d)
  pub built_lem :
      (b : Builder) (limits : BlockWeights) (d : DispatchClass)
      → build_or_panic b ≡ some limits
      → ((built limits d).base_extrinsic ≡ (class b d).base_extrinsic)
        × ((built limits d).max_total ≡ (class b d).max_total)
        × ((built limits d).reserved ≡ (class b d).reserved)
  -- `max_block` is, in each component, the largest of the limits of the classes.
  pub ref_time-max_block :
      (b : Builder) (limits : BlockWeights)
      → build_or_panic b ≡ some limits
      → ((d : DispatchClass) (w : n.Weight)
          → (class b d).max_total ≡ some w
          → n.ref_time w ≤ n.ref_time (max_block limits))
        × ((t : ℕ)
            → ((d : DispatchClass) (w : n.Weight)
                → (class b d).max_total ≡ some w
                → n.ref_time w ≤ t)
            → n.ref_time (max_block limits) ≤ t)
  pub proof_size-max_block :
      (b : Builder) (limits : BlockWeights)
      → build_or_panic b ≡ some limits
      → ((d : DispatchClass) (w : n.Weight)
          → (class b d).max_total ≡ some w
          → n.proof_size w ≤ n.proof_size (max_block limits))
        × ((t : ℕ)
            → ((d : DispatchClass) (w : n.Weight)
                → (class b d).max_total ≡ some w
                → n.proof_size w ≤ t)
            → n.proof_size (max_block limits) ≤ t)

module _ (n : Numbers) (max_pov_size : ℕ) where
  -- `NORMAL_DISPATCH_RATIO` and `AVERAGE_ON_INITIALIZE_RATIO` of runtime/src/lib.rs.
  unfoldable pub normal_dispatch_ratio : n.Perbill
  normal_dispatch_ratio = n.from_percent 75

  abbrev pub average_on_initialize_ratio : n.Perbill
  average_on_initialize_ratio = n.from_percent 5

  -- The share of a block for normal extrinsics, and what is kept for operational ones.
  pub normal_share : n.Weight
  normal_share = n.scale normal_dispatch_ratio (maximum_block_weight n max_pov_size)

  pub operational_reserve : n.Weight
  operational_reserve = n.sub (maximum_block_weight n max_pov_size) normal_share

  abbrev class_names : List DispatchClass
  class_names = normal ∷ operational ∷ mandatory ∷ []

  module _ (api : BlockWeightsApi n) where
    open api use {Builder, builder, base_block, for_class, avg_block_initialization, build_or_panic}

    -- The chain of builder calls, before `build_or_panic`.
    pub runtime_builder : Builder
    runtime_builder = avg_block_initialization average_on_initialize_ratio (
        for_class (operational ∷ [])
          (λ weights. record weights {
            max_total = some (maximum_block_weight n max_pov_size);
            reserved = some operational_reserve;
          })
          (for_class (normal ∷ []) (λ weights. record weights { max_total = some normal_share })
            (for_class class_names
              (λ weights. record weights { base_extrinsic = extrinsic_base_weight n })
              (base_block (block_execution_weight n) builder))))

    unfoldable pub runtime_block_weights : Option api.BlockWeights
    unfolding runtime_builder
    runtime_block_weights = build_or_panic runtime_builder
