-- ===== src/Runtime/Tests/Trading.antt =====
-- The weigher and the trader of runtime/src/configs/xcm_config.rs on concrete messages: a holding is
-- a function from the location of a currency to an amount.
use nonfungible_adapter_tuto.Base.{
  ℕ, ◌+◌, ◌-◌, ◌*◌, ◌<◌, min, ◌≡◌, ◌≢◌, ◌↔◌, refl, true, Bool-cases, inl, inr, Option, none, some,
  leb, if◌then◌else◌, arith, u64_max,
}
use nonfungible_adapter_tuto.Sdk.Samples.{numbers}
use nonfungible_adapter_tuto.Sdk.Xcm.{Location}
use nonfungible_adapter_tuto.Runtime.Units.{micro_unit, existential_deposit}
use nonfungible_adapter_tuto.Runtime.Xcm.Accounts.{parent}
use nonfungible_adapter_tuto.Runtime.Xcm.Fees.{TradeApi, weigher, trader, execution_price}
use nonfungible_adapter_tuto.Runtime.Tests.{evaluator}
use nonfungible_adapter_tuto.Runtime.Tests.Locations.{same}

abbrev pub Holding : Type 0
Holding = Location ℕ → ℕ

-- The holding with less of one currency.
abbrev pub spent : ℕ → Location ℕ → Holding → Holding
spent p l h x = elim (same x l) [ yes _ ↦ h l - p | no _ ↦ h x ]

pub spent_here : (p : ℕ) (l : Location ℕ) (h : Holding) → spent p l h l ≡ h l - p
spent_here p l h =
    elim (same l l) as (λ d. let r : ℕ = elim d [ yes _ ↦ h l - p | no _ ↦ h l ] in r ≡ h l - p) [
      | yes _ ↦ refl
      | no other ↦ absurd (other refl)
    ]

pub spent_elsewhere :
    (p : ℕ) (l : Location ℕ) (h : Holding) (x : Location ℕ) → x ≢ l → spent p l h x ≡ h x
spent_elsewhere p l h x other =
    elim (same x l) as (λ d. let r : ℕ = elim d [ yes _ ↦ h l - p | no _ ↦ h x ] in r ≡ h x) [
      | yes e ↦ absurd (other e)
      | no _ ↦ refl
    ]

abbrev pub pay : ℕ → Location ℕ → Holding → Option Holding
pay p l h = if leb p (h l) then some (spent p l h) else none

pub pay-none : (p : ℕ) (l : Location ℕ) (h : Holding) → (pay p l h ≡ none) ↔ (h l < p)
pay-none p l h = (λ e. ground arith, λ less. ground arith)

pub pay-some :
    (p : ℕ) (l : Location ℕ) (h rest : Holding)
    → pay p l h ≡ some rest
    → (rest l + p ≡ h l) × ((x : Location ℕ) → x ≢ l → rest x ≡ h x)
pay-some p l h rest e = elim (Bool-cases (leb p (h l))) [
  | inl enough ↦
      let same_holding : spent p l h ≡ rest = ground (arith) in
      (
        rw (← same_holding) (rw (spent_here p l h) (ground arith)),
        λ x other. rw (← same_holding) (spent_elsewhere p l h x other),
      )
  | inr less ↦ absurd (ground arith)
]

abbrev pub weighed : (ℕ × ℕ) → ℕ → ℕ → Option (ℕ × ℕ)
weighed unit limit k =
    if leb k limit then some (min (k * numbers.ref_time unit) u64_max, 0) else none

-- Messages whose instructions are counted by a function, and which make no calls.
abbrev pub trade : (Message : Type 0) → (Message → ℕ) → TradeApi numbers ℕ Message
trade Message instructions = record {
  instructions = instructions;
  decodes = λ m. true;
  calls_time = λ m. 0;
  Weigher = ℕ → Option (ℕ × ℕ);
  weigh = λ g m. g (instructions m);
  fixed_weight_bounds = weighed;
  weigh_many = λ unit limit m h. ground arith;
  weigh_few = λ unit limit m h d.
      ((min (instructions m * numbers.ref_time unit) u64_max, 0), ground arith, omega arith);
  Holding = Holding;
  balance = λ h l. h l;
  Trader = (ℕ × ℕ) → Holding → Option Holding;
  buy_weight = λ t w h. t w h;
  using_components = λ price l w h. pay (price w) l h;
  buy_weight-none = λ price l w h _. pay-none (price w) l h;
  buy_weight-some = λ price l w h rest. pay-some (price w) l h rest;
}

-- A message of three instructions, of a sender that holds 30 micro units of the relay chain's
-- currency.
abbrev three_instructions : TradeApi numbers ℕ ℕ
three_instructions = trade ℕ (λ m. m)

execution_price_example :
    let price = 3 * (8 * micro_unit) in
    ((three_instructions.weigh (weigher three_instructions) 3 ≡ none) ↔ (100 < 3))
    × ((w : ℕ × ℕ)
        → three_instructions.weigh (weigher three_instructions) 3 ≡ some w
        → (price < existential_deposit)
          × ((h : Holding)
              → ((three_instructions.buy_weight (trader three_instructions evaluator) w h ≡ none)
                  ↔ (h parent < price))
                × ((rest : Holding)
                    → three_instructions.buy_weight (trader three_instructions evaluator) w h
                      ≡ some rest
                    → (rest parent + price ≡ h parent)
                      × ((l : Location ℕ) → l ≢ parent → rest l ≡ h l))))
execution_price_example = execution_price three_instructions evaluator 3 refl refl (omega arith)
