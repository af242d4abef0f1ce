-- ===== src/Runtime/Configs.antt =====
-- The `Config` implementations of runtime/src/configs/mod.rs, one record for each pallet: the numbers
-- that the runtime gives it and the pallets of the runtime that it is joined to. The items that
-- only name a type of the SDK, or the type that a macro makes, are left out. `()` in the place of a
-- handler is none.
pub mod Collating
pub mod Consistency
use nonfungible_adapter_tuto.Base.{ℕ, ◌*◌, ◌^◌, Option, none}
use nonfungible_adapter_tuto.Sdk.Numbers.{Numbers, RuntimeDbWeight}
use nonfungible_adapter_tuto.Runtime.Units.{
  existential_deposit, transaction_byte_fee, nfts_collection_deposit, nfts_item_deposit,
  nfts_metadata_deposit_base, nfts_attribute_deposit_base, nfts_deposit_per_byte,
  relay_chain_slot_duration_millis, block_processing_velocity, unincluded_segment_capacity,
}
use nonfungible_adapter_tuto.Runtime.Weights.{rocks_db_weight}
use nonfungible_adapter_tuto.Runtime.Fees.{Evaluator, weight_to_fee}
use nonfungible_adapter_tuto.Runtime.BlockWeights.{BlockWeightsApi}
use nonfungible_adapter_tuto.Runtime.BlockWeights.Queues.{
  reserved_xcmp_weight, reserved_dmp_weight, message_queue_service_weight,
}
use nonfungible_adapter_tuto.Runtime.Pallets.{
  RuntimePallet, system, parachain_system, parachain_info, balances, xcmp_queue, message_queue,
}
use nonfungible_adapter_tuto.Runtime.Xcm.Origins.{
  OriginsApi, xcm_origin_to_transact_dispatch_origin,
}
use nonfungible_adapter_tuto.Runtime.Governance.{ChecksApi}
use nonfungible_adapter_tuto.Runtime.Apis.{RuntimeVersion, version}

pub record BalancesConfig : Type 0 where
  pub max_locks : ℕ
  pub dust_removal : Option RuntimePallet
  pub existential_deposit : ℕ
  pub account_store : RuntimePallet
  pub max_reserves : ℕ
  pub done_slash_handler : Option RuntimePallet

abbrev pub balances_config : BalancesConfig
balances_config = record {
  max_locks = 50;
  dust_removal = none;
  existential_deposit = existential_deposit;
  account_store = system;
  max_reserves = 50;
  done_slash_handler = none;
}

-- `ConsensusHook`: `FixedVelocityConsensusHook<Runtime, slot duration, velocity, capacity>`.
pub record ConsensusHook : Type 0 where
  pub relay_chain_slot_duration_millis : ℕ
  pub block_processing_velocity : ℕ
  pub unincluded_segment_capacity : ℕ

abbrev pub consensus_hook : ConsensusHook
consensus_hook = record {
  relay_chain_slot_duration_millis = relay_chain_slot_duration_millis;
  block_processing_velocity = block_processing_velocity;
  unincluded_segment_capacity = unincluded_segment_capacity;
}

module _ {R : Type 0} (origins : OriginsApi R) (checks : ChecksApi origins) where
  pub record XcmpQueueConfig : Type 0 where
    pub channel_info : RuntimePallet
    pub xcmp_queue : RuntimePallet
    pub max_inbound_suspended : ℕ
    pub max_active_outbound_channels : ℕ
    pub max_page_size : ℕ
    pub controller_origin : checks.Check
    pub controller_origin_converter : origins.OriginConverter

  abbrev pub xcmp_queue_config : XcmpQueueConfig
  xcmp_queue_config = record {
    channel_info = parachain_system;
    xcmp_queue = message_queue;
    max_inbound_suspended = 1_000;
    max_active_outbound_channels = 128;
    -- `1 << 16`
    max_page_size = 1 * 2 ^ 16;
    controller_origin = checks.ensure_root;
    controller_origin_converter = xcm_origin_to_transact_dispatch_origin origins;
  }

  pub record NftsConfig : Type 0 where
    pub currency : RuntimePallet
    pub force_origin : checks.Check
    pub create_origin : checks.Check
    pub locker : Option RuntimePallet
    pub collection_deposit : ℕ
    pub item_deposit : ℕ
    pub metadata_deposit_base : ℕ
    pub attribute_deposit_base : ℕ
    pub deposit_per_byte : ℕ
    pub string_limit : ℕ
    pub key_limit : ℕ
    pub value_limit : ℕ
    pub approvals_limit : ℕ
    pub item_attributes_approvals_limit : ℕ
    pub max_tips : ℕ
    pub max_deadline_duration : ℕ
    pub max_attributes_per_call : ℕ
    pub block_number_provider : RuntimePallet

  abbrev pub nfts_config : NftsConfig
  nfts_config = record {
    currency = balances;
    force_origin = checks.ensure_root;
    create_origin = checks.as_ensure_origin_with_arg checks.ensure_signed;
    locker = none;
    collection_deposit = nfts_collection_deposit;
    item_deposit = nfts_item_deposit;
    metadata_deposit_base = nfts_metadata_deposit_base;
    attribute_deposit_base = nfts_attribute_deposit_base;
    deposit_per_byte = nfts_deposit_per_byte;
    string_limit = 256;
    key_limit = 64;
    value_limit = 256;
    approvals_limit = 20;
    item_attributes_approvals_limit = 30;
    max_tips = 10;
    max_deadline_duration = 12960000;
    max_attributes_per_call = 10;
    block_number_provider = system;
  }

module _ (n : Numbers) where
  pub record SystemConfig : Type 0 where
    pub version : RuntimeVersion
    pub db_weight : RuntimeDbWeight
    pub ss58_prefix : ℕ
    pub on_set_code : RuntimePallet
    pub max_consumers : ℕ

  abbrev pub system_config : SystemConfig
  system_config = record {
    version = version;
    db_weight = rocks_db_weight n;
    ss58_prefix = 42;
    on_set_code = parachain_system;
    max_consumers = 16;
  }

  -- `FungibleAdapter<Balances, ()>` charges in a currency, and gives the fees to no pallet.
  pub record TransactionPaymentConfig : Type 0 where
    pub currency : RuntimePallet
    pub on_fees : Option RuntimePallet
    pub weight_to_fee : n.Weight → ℕ
    pub transaction_byte_fee : ℕ
    pub operational_fee_multiplier : ℕ

  abbrev pub transaction_payment_config : Evaluator n → TransactionPaymentConfig
  transaction_payment_config e = record {
    currency = balances;
    on_fees = none;
    weight_to_fee = weight_to_fee n e;
    transaction_byte_fee = transaction_byte_fee;
    operational_fee_multiplier = 5;
  }

  pub record ParachainSystemConfig : Type 0 where
    pub on_system_event : Option RuntimePallet
    pub self_para_id : RuntimePallet
    pub outbound_xcmp_message_source : RuntimePallet
    pub dmp_queue : RuntimePallet
    pub reserved_dmp_weight : n.Weight
    pub xcmp_message_handler : RuntimePallet
    pub reserved_xcmp_weight : n.Weight
    pub consensus_hook : ConsensusHook

  abbrev pub parachain_system_config : ℕ → ParachainSystemConfig
  parachain_system_config max_pov_size = record {
    on_system_event = none;
    self_para_id = parachain_info;
    outbound_xcmp_message_source = xcmp_queue;
    dmp_queue = message_queue;
    reserved_dmp_weight = reserved_dmp_weight n max_pov_size;
    xcmp_message_handler = xcmp_queue;
    reserved_xcmp_weight = reserved_xcmp_weight n max_pov_size;
    consensus_hook = consensus_hook;
  }

  pub record MessageQueueConfig : Type 0 where
    pub queue_change_handler : RuntimePallet
    pub queue_paused_query : RuntimePallet
    pub heap_size : ℕ
    pub max_stale : ℕ
    pub service_weight : n.Weight
    pub idle_max_service_weight : Option n.Weight

  abbrev pub message_queue_config :
      ℕ → (api : BlockWeightsApi n) → api.BlockWeights → MessageQueueConfig
  message_queue_config max_pov_size api limits = record {
    queue_change_handler = xcmp_queue;
    queue_paused_query = xcmp_queue;
    heap_size = 103 * 1024;
    max_stale = 8;
    service_weight = message_queue_service_weight n max_pov_size api limits;
    idle_max_service_weight = none;
  }
