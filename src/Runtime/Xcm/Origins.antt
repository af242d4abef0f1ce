-- ===== src/Runtime/Xcm/Origins.antt =====
-- `XcmOriginToTransactDispatchOrigin` of runtime/src/configs/xcm_config.rs, the origin that a
-- `Transact` is dispatched with. The converters are the SDK's; `OriginsApi` has what they convert.
pub mod Dispatch
use nonfungible_adapter_tuto.Base.{
  ℕ, ◌≡◌, ◌≢◌, ◌↔◌, ◌⊎◌, first_some, Option, none, some, List, [], ◌∷◌,
}
use nonfungible_adapter_tuto.Sdk.Xcm.{Location, OriginKind, native, sovereign_account, xcm}
use nonfungible_adapter_tuto.Runtime.Xcm.Accounts.{
  AccountsApi, parent, sibling, relay_network, location_to_account_id,
}

pub record OriginsApi (R : Type 0) : Type 1 where
  pub accounts : AccountsApi R
  -- `RuntimeOrigin`: root, an account, the relay chain, a parachain, or an XCM location.
  pub RuntimeOrigin : Type 0
  pub root : RuntimeOrigin
  pub signed : accounts.AccountId → RuntimeOrigin
  pub relay : RuntimeOrigin
  pub sibling_para : ℕ → RuntimeOrigin
  pub xcm_origin : Location R → RuntimeOrigin
  pub signed_differs : (a : accounts.AccountId) → signed a ≢ root
  pub relay_differs : relay ≢ root
  pub sibling_para_differs : (id : ℕ) → sibling_para id ≢ root
  pub xcm_origin_differs : (l : Location R) → xcm_origin l ≢ root
  pub signed-xcm_origin : (a : accounts.AccountId) (l : Location R) → signed a ≢ xcm_origin l
  pub relay-xcm_origin : (l : Location R) → relay ≢ xcm_origin l
  pub sibling_para-xcm_origin : (id : ℕ) (l : Location R) → sibling_para id ≢ xcm_origin l
  pub xcm_origin_injective : (l m : Location R) → xcm_origin l ≡ xcm_origin m → l ≡ m
  -- `ConvertOrigin`, whose error hands the location back to the next converter.
  pub OriginConverter : Type 0
  pub convert_origin : OriginConverter → Location R → OriginKind → Option RuntimeOrigin
  pub sovereign_signed_via_location : accounts.Converter → OriginConverter
  pub relay_chain_as_native : RuntimeOrigin → OriginConverter
  pub sibling_parachain_as_native : OriginConverter
  pub signed_account_id32_as_native : Option accounts.NetworkId → OriginConverter
  pub xcm_passthrough : OriginConverter
  pub converters : List OriginConverter → OriginConverter
  pub convert-sovereign_signed :
      (c : accounts.Converter) (l : Location R) (k : OriginKind) (o : RuntimeOrigin)
      → (convert_origin (sovereign_signed_via_location c) l k ≡ some o) ↔ (
          (k ≡ sovereign_account)
          × (a : accounts.AccountId) × (accounts.convert c l ≡ some a)
          × (o ≡ signed a))
  pub convert-relay_chain :
      (r : RuntimeOrigin) (l : Location R) (k : OriginKind) (o : RuntimeOrigin)
      → (convert_origin (relay_chain_as_native r) l k ≡ some o)
        ↔ ((k ≡ native) × (l ≡ parent) × (o ≡ r))
  pub convert-sibling_parachain :
      (l : Location R) (k : OriginKind) (o : RuntimeOrigin)
      → (convert_origin sibling_parachain_as_native l k ≡ some o)
        ↔ ((k ≡ native) × (id : ℕ) × (l ≡ sibling id) × (o ≡ sibling_para id))
  pub convert-signed_account_id32 :
      (network : Option accounts.NetworkId) (l : Location R) (k : OriginKind) (o : RuntimeOrigin)
      → (convert_origin (signed_account_id32_as_native network) l k ≡ some o) ↔ (
          (k ≡ native)
          × (a : accounts.AccountId) × ((l
                ≡ record { parents = 0; interior = accounts.account_id32 none a ∷ [] })
              ⊎ (l ≡ record { parents = 0; interior = accounts.account_id32 network a ∷ [] }))
          × (o ≡ signed a))
  pub convert-xcm_passthrough :
      (l : Location R) (k : OriginKind) (o : RuntimeOrigin)
      → (convert_origin xcm_passthrough l k ≡ some o) ↔ ((k ≡ xcm) × (o ≡ xcm_origin l))
  pub convert-converters_nil :
      (l : Location R) (k : OriginKind) → convert_origin (converters []) l k ≡ none
  pub convert-converters_cons :
      (c : OriginConverter) (cs : List OriginConverter) (l : Location R) (k : OriginKind)
      → convert_origin (converters (c ∷ cs)) l k
        ≡ first_some (convert_origin c l k) (convert_origin (converters cs) l k)

module _ {R : Type 0} (api : OriginsApi R) where
  open api use {accounts, RuntimeOrigin, OriginConverter, convert_origin}

  -- `RelayChainOrigin`.
  abbrev pub relay_chain_origin : RuntimeOrigin
  relay_chain_origin = api.relay

  pub xcm_origin_to_transact_dispatch_origin : OriginConverter
  xcm_origin_to_transact_dispatch_origin = api.converters (
      api.sovereign_signed_via_location (location_to_account_id accounts)
      ∷ api.relay_chain_as_native relay_chain_origin
      ∷ api.sibling_parachain_as_native
      ∷ api.signed_account_id32_as_native (relay_network accounts)
      ∷ api.xcm_passthrough
      ∷ [])
