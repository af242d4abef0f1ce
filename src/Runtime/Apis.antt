-- ===== src/Runtime/Apis.antt =====
-- runtime/src/apis.rs: what the runtime answers to the node. Most methods hand their arguments to a
-- pallet; `RuntimeSdk` has those operations, over a state where they read or change it.
pub mod Payment
pub mod Genesis
use Prim.Native.String.{String}
use nonfungible_adapter_tuto.Base.{[], ℕ, Bool, Option, List, Result, ok, err, Stop, panicked}
use nonfungible_adapter_tuto.Runtime.Units.{
  slot_duration, unincluded_segment_capacity, block_processing_velocity,
  relay_chain_slot_duration_millis,
}

-- `VERSION`, of runtime/src/lib.rs, without the table of API versions that a macro makes.
pub record RuntimeVersion : Type 0 where
  pub spec_name : String
  pub impl_name : String
  pub authoring_version : ℕ
  pub spec_version : ℕ
  pub impl_version : ℕ
  pub transaction_version : ℕ
  pub system_version : ℕ

abbrev pub version : RuntimeVersion
version = record {
  spec_name = "parachain-template-runtime";
  impl_name = "parachain-template-runtime";
  authoring_version = 1;
  spec_version = 1;
  impl_version = 0;
  transaction_version = 1;
  system_version = 1;
}

-- The version for a runtime that runs natively, with the spec versions besides its own that it can
-- author for.
pub record NativeVersion : Type 0 where
  pub runtime_version : RuntimeVersion
  pub can_author_with : List ℕ

abbrev pub native_version : NativeVersion
native_version = record { runtime_version = version; can_author_with = [] }

-- The types of blocks and the pallets that the methods call.
pub record RuntimeSdk : Type 1 where
  pub State : Type 0
  pub Block : Type 0
  pub Header : Type 0
  pub Extrinsic : Type 0
  pub Hash : Type 0
  pub AuraId : Type 0
  pub AccountId : Type 0
  pub Bytes : Type 0
  pub InherentData : Type 0
  pub InclusionMode : Type 0
  pub ApplyResult : Type 0
  pub CheckResult : Type 0
  pub Source : Type 0
  pub Validity : Type 0
  pub KeyTypeId : Type 0
  pub CollationInfo : Type 0
  pub Weight : Type 0
  pub TryError : Type 0
  pub Checks : Type 0
  pub Select : Type 0
  pub ViewFunctionId : Type 0
  pub ViewFunctionError : Type 0
  -- `Runtime::metadata` and its variants, and the view functions that the pallets have.
  pub metadata : Bytes
  pub metadata_at_version : ℕ → Option Bytes
  pub metadata_versions : List ℕ
  pub execute_view_function : ViewFunctionId → Bytes → State → Result ViewFunctionError Bytes
  -- `Executive`; executing a block panics where the block is invalid.
  pub execute_block : Block → State → Option State
  pub initialize_block : Header → State → InclusionMode × State
  pub apply_extrinsic : Extrinsic → State → ApplyResult × State
  pub finalize_block : State → Header × State
  pub validate_transaction : Source → Extrinsic → Hash → State → Validity
  pub offchain_worker : Header → State → State
  pub try_runtime_upgrade : Checks → State → Result TryError Weight
  pub try_execute_block : Block → Bool → Bool → Select → State → Result TryError Weight
  -- `InherentDataExt`
  pub create_extrinsics : InherentData → State → List Extrinsic
  pub check_extrinsics : InherentData → Block → State → CheckResult
  -- `Authorities`, `System`, `SessionKeys`, `ParachainSystem`
  pub authorities : State → List AuraId
  pub account_nonce : AccountId → State → ℕ
  pub generate : Option Bytes → State → Bytes
  pub decode_into_raw_public_keys : Bytes → Option (List (Bytes × KeyTypeId))
  pub collect_collation_info : Header → State → CollationInfo
  -- `FixedVelocityConsensusHook<Runtime, slot duration, velocity, capacity>`
  pub can_build_upon : ℕ → ℕ → ℕ → Hash → ℕ → State → Bool

module _ (sdk : RuntimeSdk) where
  open sdk use {
    State, Block, Header, Extrinsic, Hash, AuraId, AccountId, Bytes, InherentData, Weight, TryError,
  }

  -- `AuraApi` and `AuraUnincludedSegmentApi`
  pub record AuraApi : Type 0 where
    pub slot_duration_millis : ℕ
    pub authorities : State → List AuraId
    pub can_build_upon : Hash → ℕ → State → Bool

  abbrev pub impl_can_build_upon : Hash → ℕ → State → Bool
  impl_can_build_upon =
      sdk.can_build_upon relay_chain_slot_duration_millis block_processing_velocity
        unincluded_segment_capacity

  abbrev pub aura_api : AuraApi
  aura_api = record {
    slot_duration_millis = slot_duration;
    authorities = sdk.authorities;
    can_build_upon = impl_can_build_upon;
  }

  -- `Core`
  pub record Core : Type 0 where
    pub version_of : RuntimeVersion
    pub execute_block : Block → State → Option State
    pub initialize_block : Header → State → sdk.InclusionMode × State

  abbrev pub core : Core
  core = record {
    version_of = version;
    execute_block = sdk.execute_block;
    initialize_block = sdk.initialize_block;
  }

  -- `Metadata` and `RuntimeViewFunction`
  pub record Metadata : Type 0 where
    pub metadata : Bytes
    pub metadata_at_version : ℕ → Option Bytes
    pub metadata_versions : List ℕ

  abbrev pub metadata_api : Metadata
  metadata_api = record {
    metadata = sdk.metadata;
    metadata_at_version = sdk.metadata_at_version;
    metadata_versions = sdk.metadata_versions;
  }

  abbrev pub execute_view_function :
      sdk.ViewFunctionId → Bytes → State → Result sdk.ViewFunctionError Bytes
  execute_view_function id input = sdk.execute_view_function id input

  -- `BlockBuilder`
  pub record BlockBuilder : Type 0 where
    pub apply_extrinsic : Extrinsic → State → sdk.ApplyResult × State
    pub finalize_block : State → Header × State
    pub inherent_extrinsics : InherentData → State → List Extrinsic
    pub check_inherents : Block → InherentData → State → sdk.CheckResult

  abbrev pub block_builder : BlockBuilder
  block_builder = record {
    apply_extrinsic = sdk.apply_extrinsic;
    finalize_block = sdk.finalize_block;
    inherent_extrinsics = sdk.create_extrinsics;
    check_inherents = λ block given. sdk.check_extrinsics given block;
  }

  -- `TaggedTransactionQueue` and `OffchainWorkerApi`
  abbrev pub validate_transaction : sdk.Source → Extrinsic → Hash → State → sdk.Validity
  validate_transaction source tx block_hash = sdk.validate_transaction source tx block_hash

  abbrev pub offchain_worker : Header → State → State
  offchain_worker header = sdk.offchain_worker header

  -- `SessionKeys`
  pub record SessionKeysApi : Type 0 where
    pub generate_session_keys : Option Bytes → State → Bytes
    pub decode_session_keys : Bytes → Option (List (Bytes × sdk.KeyTypeId))

  abbrev pub session_keys : SessionKeysApi
  session_keys = record {
    generate_session_keys = sdk.generate;
    decode_session_keys = sdk.decode_into_raw_public_keys;
  }

  -- `AccountNonceApi` and `CollectCollationInfo`
  abbrev pub account_nonce : AccountId → State → ℕ
  account_nonce account = sdk.account_nonce account

  abbrev pub collect_collation_info : Header → State → sdk.CollationInfo
  collect_collation_info header = sdk.collect_collation_info header

  -- `TryRuntime`, of which both methods unwrap a result.
  abbrev unwrap : {A : Type 0} → Result TryError A → Result (Stop ⊥) A
  unwrap (ok a) = ok a
  unwrap (err _) = err panicked

  abbrev pub on_runtime_upgrade : Weight → sdk.Checks → State → Result (Stop ⊥) (Weight × Weight)
  on_runtime_upgrade max_block checks s = elim (unwrap (sdk.try_runtime_upgrade checks s)) [
    | ok weight ↦ ok (weight, max_block)
    | err e ↦ err e
  ]

  abbrev pub try_execute_block : Block → Bool → Bool → sdk.Select → State → Result (Stop ⊥) Weight
  try_execute_block block state_root_check signature_check select s =
      unwrap (sdk.try_execute_block block state_root_check signature_check select s)
