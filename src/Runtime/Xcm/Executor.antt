-- ===== src/Runtime/Xcm/Executor.antt =====
-- `XcmConfig`, and the configuration of `pallet_xcm`, of runtime/src/configs/xcm_config.rs: which of the
-- parts the XCM executor works with. The items that only name a type of the SDK are left out; `()` in the
-- place of a handler is none.
use nonfungible_adapter_tuto.Base.{
  ℕ, ◌≡◌, ◌⊎◌, inl, inr, true, Option, none, some, List, [], ◌∷◌, arith,
}
use nonfungible_adapter_tuto.Sdk.Numbers.{Numbers}
use nonfungible_adapter_tuto.Sdk.Xcm.{Location, parachain, OriginKind}
use nonfungible_adapter_tuto.Runtime.Pallets.{
  RuntimePallet, all_pallets_with_system, balances, polkadot_xcm,
}
use nonfungible_adapter_tuto.Runtime.Fees.{Evaluator}
use nonfungible_adapter_tuto.Runtime.Xcm.Accounts.{location_to_account_id}
use nonfungible_adapter_tuto.Runtime.Xcm.Origins.{
  OriginsApi, xcm_origin_to_transact_dispatch_origin,
}
use nonfungible_adapter_tuto.Runtime.Xcm.Assets.{
  AssetsApi, local_asset_transactor, is_reserve_asset,
}
use nonfungible_adapter_tuto.Runtime.Xcm.LocalOrigins.{LocalOriginsApi, local_origin_to_location}
use nonfungible_adapter_tuto.Runtime.Xcm.Router.{RouterApi, xcm_router}
use nonfungible_adapter_tuto.Runtime.Xcm.Fees.{TradeApi, weigher, trader}
use nonfungible_adapter_tuto.Runtime.Xcm.Barrier.{BarrierApi, barrier, admits-barrier_iff}
use nonfungible_adapter_tuto.Runtime.Governance.{
  ChecksApi, collator_selection_update_origin, transact_updates_collators_iff,
}

-- `UniversalLocation`, from the id of this parachain.
abbrev pub universal_location : {R : Type 0} → ℕ → Location R
universal_location id = record { parents = 0; interior = parachain id ∷ [] }

abbrev pub max_assets_into_holding : ℕ
max_assets_into_holding = 64

-- `Nothing`, and the empty tuple, accept nothing; `Everything` does not ask.
pub data Filter : Type 0 where
  nothing everything : Filter

-- The parts of the SDK that the configuration puts together.
pub record XcmSdk (n : Numbers) (R : Type 0) : Type 1 where
  pub origins : OriginsApi R
  pub assets : AssetsApi origins.accounts
  pub router : RouterApi R
  pub gates : BarrierApi R
  pub checks : ChecksApi origins
  pub locals : LocalOriginsApi origins
  pub evaluator : Evaluator n
  pub trade : TradeApi n R gates.Message

module _ {n : Numbers} {R : Type 0} (sdk : XcmSdk n R) (para_id : ℕ) where
  open sdk use {origins, assets, router, gates, checks, locals, evaluator, trade}

  pub record XcmConfig : Type 0 where
    pub xcm_sender : router.Router
    pub xcm_event_emitter : RuntimePallet
    pub asset_transactor : assets.Transactor
    pub origin_converter : origins.OriginConverter
    pub is_reserve : assets.ReserveFilter
    pub is_teleporter : Filter
    pub universal_location : Location R
    pub barrier : gates.Gate
    pub weigher : trade.Weigher
    pub trader : trade.Trader
    pub response_handler : RuntimePallet
    pub asset_trap : RuntimePallet
    pub asset_claims : RuntimePallet
    pub subscription_service : RuntimePallet
    pub pallet_instances_info : List RuntimePallet
    pub max_assets_into_holding : ℕ
    pub asset_locker : Option RuntimePallet
    pub asset_exchanger : Option RuntimePallet
    pub fee_manager : Option RuntimePallet
    pub message_exporter : Option RuntimePallet
    pub universal_aliases : Filter
    pub safe_call_filter : Filter
    pub aliasers : Filter
    pub hrmp_new_channel_open_request_handler : Option RuntimePallet
    pub hrmp_channel_accepted_handler : Option RuntimePallet
    pub hrmp_channel_closing_handler : Option RuntimePallet
    pub xcm_recorder : RuntimePallet

  abbrev pub xcm_config : XcmConfig
  xcm_config = record {
    xcm_sender = xcm_router router;
    xcm_event_emitter = polkadot_xcm;
    asset_transactor = local_asset_transactor origins.accounts assets;
    origin_converter = xcm_origin_to_transact_dispatch_origin origins;
    is_reserve = is_reserve_asset origins.accounts assets;
    is_teleporter = nothing;
    universal_location = universal_location para_id;
    barrier = barrier gates (universal_location para_id);
    weigher = weigher trade;
    trader = trader trade evaluator;
    response_handler = polkadot_xcm;
    asset_trap = polkadot_xcm;
    asset_claims = polkadot_xcm;
    subscription_service = polkadot_xcm;
    pallet_instances_info = all_pallets_with_system;
    max_assets_into_holding = max_assets_into_holding;
    asset_locker = none;
    asset_exchanger = none;
    fee_manager = none;
    message_exporter = none;
    universal_aliases = nothing;
    safe_call_filter = everything;
    aliasers = nothing;
    hrmp_new_channel_open_request_handler = none;
    hrmp_channel_accepted_handler = none;
    hrmp_channel_closing_handler = none;
    xcm_recorder = polkadot_xcm;
  }

  -- Who may send and execute messages is `EnsureXcmOrigin` over the converter.
  pub record PalletXcmConfig : Type 0 where
    pub send_xcm_origin : locals.Ensure
    pub execute_xcm_origin : locals.Ensure
    pub xcm_router : router.Router
    pub xcm_execute_filter : Filter
    pub xcm_executor : XcmConfig
    pub xcm_teleport_filter : Filter
    pub xcm_reserve_transfer_filter : Filter
    pub weigher : trade.Weigher
    pub universal_location : Location R
    pub version_discovery_queue_size : ℕ
    pub currency : RuntimePallet
    pub currency_matcher : Option RuntimePallet
    pub trusted_lockers : Option RuntimePallet
    pub sovereign_account_of : origins.accounts.Converter
    pub max_lockers : ℕ
    pub admin_origin : checks.Check
    pub max_remote_lock_consumers : ℕ

  abbrev pub pallet_xcm_config : PalletXcmConfig
  pallet_xcm_config = record {
    send_xcm_origin = locals.ensure_xcm_origin (local_origin_to_location origins locals);
    execute_xcm_origin = locals.ensure_xcm_origin (local_origin_to_location origins locals);
    xcm_router = xcm_router router;
    xcm_execute_filter = nothing;
    xcm_executor = xcm_config;
    xcm_teleport_filter = nothing;
    xcm_reserve_transfer_filter = everything;
    weigher = weigher trade;
    universal_location = universal_location para_id;
    version_discovery_queue_size = 100;
    currency = balances;
    currency_matcher = none;
    trusted_lockers = none;
    sovereign_account_of = location_to_account_id origins.accounts;
    max_lockers = 8;
    admin_origin = checks.ensure_root;
    max_remote_lock_consumers = 0;
  }

  -- `cumulus_pallet_xcm::Config`
  pub record CumulusXcmConfig : Type 0 where
    pub xcm_executor : XcmConfig

  abbrev pub cumulus_xcm_config : CumulusXcmConfig
  cumulus_xcm_config = record { xcm_executor = xcm_config }

  -- A message that the barrier lets in, and that with its computed origin can have the collators
  -- changed, has credit for its weight or buys its execution: the free execution that the parent and
  -- its executive plurality have is of no use for it.
  pub collators_changed_at_a_price :
      (m m' : gates.Message) (k : OriginKind) (o : origins.RuntimeOrigin)
      → gates.admits xcm_config.barrier m ≡ true
      → gates.computed xcm_config.universal_location 8 (gates.without_topic m) ≡ some m'
      → origins.convert_origin xcm_config.origin_converter (gates.origin m') k ≡ some o
      → checks.passes (collator_selection_update_origin origins checks) o ≡ true
      → (gates.has_weight_credit (gates.without_topic m) ≡ true) ⊎ (gates.buys_execution m' ≡ true)
  collators_changed_at_a_price m m' k o admitted computed converted passed =
      let (from, _) =
        (transact_updates_collators_iff origins checks (gates.origin m') k).0
          (o, converted, passed) in
      let (_, ways) = (admits-barrier_iff gates (universal_location para_id) m).0 admitted in
      elim ways [
        | inl credit ↦ inl credit
        | inr (x, e, inl buys) ↦ inr (ground arith)
        | inr (x, e, inr (_, inl p)) ↦ absurd (ground (arith, from))
        | inr (x, e, inr (_, inr (part, p))) ↦ absurd (ground (arith, from))
      ]
