-- ===== src/Runtime/Xcm/Fees.antt =====
-- What the execution of a message costs: the `Weigher` and the `Trader` of `XcmConfig`, in
-- runtime/src/configs/xcm_config.rs. Weighing and trading are the SDK's; `TradeApi` has the weight
-- that a message is given and what a purchase takes.
use nonfungible_adapter_tuto.Base.{
  ℕ, ◌+◌, ◌*◌, ◌≤◌, ◌<◌, min, ◌≡◌, ◌≢◌, ◌↔◌, inl, inr, Bool, true, Bool-cases, leb, Option, none,
  some, arith, u64_max,
}
use nonfungible_adapter_tuto.Sdk.Numbers.{Numbers}
use nonfungible_adapter_tuto.Sdk.Xcm.{Location}
use nonfungible_adapter_tuto.Runtime.Units.{micro_unit, existential_deposit}
use nonfungible_adapter_tuto.Runtime.Fees.{Evaluator, weight_to_fee, weight_to_fee_bounds}
use nonfungible_adapter_tuto.Runtime.BlockWeights.Queues.{
  unit_weight_cost, ref_time-unit_weight_cost, max_instructions,
}
use nonfungible_adapter_tuto.Runtime.Xcm.Accounts.{parent}

pub record TradeApi (n : Numbers) (R Message : Type 0) : Type 1 where
  -- The instructions of a message, those of its nested messages counted; whether its calls decode,
  -- and the reference time that they declare.
  pub instructions : Message → ℕ
  pub decodes : Message → Bool
  pub calls_time : Message → ℕ
  pub Weigher : Type 0
  pub weigh : Weigher → Message → Option n.Weight
  pub fixed_weight_bounds : n.Weight → ℕ → Weigher
  -- `FixedWeightBounds` refuses more instructions than its limit, and gives each the unit.
  pub weigh_many :
      (unit : n.Weight) (limit : ℕ) (m : Message)
      → limit < instructions m
      → weigh (fixed_weight_bounds unit limit) m ≡ none
  pub weigh_few :
      (unit : n.Weight) (limit : ℕ) (m : Message)
      → instructions m ≤ limit
      → decodes m ≡ true
      → (w : n.Weight) × (weigh (fixed_weight_bounds unit limit) m ≡ some w)
        × (n.ref_time w ≡ min (instructions m * n.ref_time unit + calls_time m) u64_max)
  -- What a message holds, by the location of its currency.
  pub Holding : Type 0
  pub balance : Holding → Location R → ℕ
  pub Trader : Type 0
  pub buy_weight : Trader → n.Weight → Holding → Option Holding
  pub using_components : (n.Weight → ℕ) → Location R → Trader
  -- `UsingComponents` takes a price in one currency out of the payment, and returns the rest.
  pub buy_weight-none :
      (price : n.Weight → ℕ) (l : Location R) (w : n.Weight) (h : Holding)
      → 0 < price w
      → (buy_weight (using_components price l) w h ≡ none) ↔ (balance h l < price w)
  pub buy_weight-some :
      (price : n.Weight → ℕ) (l : Location R) (w : n.Weight) (h rest : Holding)
      → buy_weight (using_components price l) w h ≡ some rest
      → (balance rest l + price w ≡ balance h l)
        × ((other : Location R) → other ≢ l → balance rest other ≡ balance h other)

-- `FixedWeightBounds<UnitWeightCost, RuntimeCall, MaxInstructions>`
pub weigher : {n : Numbers} {R Message : Type 0} (api : TradeApi n R Message) → api.Weigher
weigher {n} api = api.fixed_weight_bounds (unit_weight_cost n) max_instructions

module _ {n : Numbers} {R Message : Type 0} (api : TradeApi n R Message) (e : Evaluator n) where
  open api use {instructions, decodes, calls_time, weigh, Holding, balance, Trader}

  -- `UsingComponents<WeightToFee, RelayLocation, AccountId, Balances, ToAuthor<Runtime>>`
  pub trader : Trader
  trader = api.using_components (weight_to_fee n e) parent

  -- A weighed message without calls: its instructions, and what they cost.
  weighed_price :
      (m : Message) (w : n.Weight)
      → decodes m ≡ true
      → calls_time m ≡ 0
      → weigh (weigher api) m ≡ some w
      → (instructions m ≤ max_instructions)
        × (weight_to_fee n e w ≡ instructions m * (8 * micro_unit))
  unfolding weigher
  weighed_price m w decoded no_calls h =
      let unit = unit_weight_cost n in
      elim (Bool-cases (leb (instructions m) max_instructions)) [
        | inl few ↦
            let (v, e', time) = api.weigh_few unit max_instructions m (ground arith) decoded in
            let same : v ≡ w = cc in
            let t : n.ref_time w ≡ min (instructions m * 1_000_000_000 + 0) u64_max =
              rw (← (ref_time-unit_weight_cost n)) (rw (← no_calls) (rw (← same) time)) in
            (ground arith, ground (arith, weight_to_fee_bounds n e w))
        | inr many ↦
            let refused = api.weigh_many unit max_instructions m (ground arith) in absurd (cc)
      ]

  -- Of a message with an instruction, and without calls that take time or do not decode: it is not
  -- weighed exactly if it has more than 100 instructions. If it is weighed, each instruction costs
  -- eight micro units of the relay chain's currency, the whole less than the existential deposit;
  -- the purchase of its weight fails exactly if less than that is held, and takes exactly that and
  -- nothing of another currency.
  pub execution_price :
      (m : Message)
      → decodes m ≡ true
      → calls_time m ≡ 0
      → 0 < instructions m
      → let price = instructions m * (8 * micro_unit) in
        ((weigh (weigher api) m ≡ none) ↔ (100 < instructions m))
        × ((w : n.Weight)
            → weigh (weigher api) m ≡ some w
            → (price < existential_deposit)
              × ((h : Holding)
                  → ((api.buy_weight trader w h ≡ none) ↔ (balance h parent < price))
                    × ((rest : Holding)
                        → api.buy_weight trader w h ≡ some rest
                        → (balance rest parent + price ≡ balance h parent)
                          × ((l : Location R) → l ≢ parent → balance rest l ≡ balance h l))))
  unfolding trader weigher
  execution_price m decoded no_calls some_instruction = (
    (
      λ h. elim (Bool-cases (leb (instructions m) max_instructions)) [
        | inl few ↦
            let (w, e', _) =
              api.weigh_few (unit_weight_cost n) max_instructions m (ground arith) decoded in
            absurd (cc)
        | inr many ↦ ground arith
      ],
      api.weigh_many (unit_weight_cost n) max_instructions m,
    ),
    λ w weighed.
        let (few, price) = weighed_price m w decoded no_calls weighed in
        (
          omega arith,
          λ h. (
            rw (← price) (api.buy_weight-none (weight_to_fee n e) parent w h (omega arith)),
            rw (← price) (api.buy_weight-some (weight_to_fee n e) parent w h),
          ),
        ),
  )
