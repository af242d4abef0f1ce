-- ===== src/Runtime/Xcm/LocalOrigins.antt =====
-- `LocalOriginToLocation` of runtime/src/configs/xcm_config.rs: the location of an origin of this chain,
-- for which the XCM pallet sends and executes messages.
use nonfungible_adapter_tuto.Base.{◌≡◌, ◌↔◌, ◌⊎◌, inr, Option, none, some, [], ◌∷◌}
use nonfungible_adapter_tuto.Sdk.Xcm.{Location, native, sovereign_account}
use nonfungible_adapter_tuto.Runtime.Xcm.Accounts.{
  relay_network, location_to_account_id, location_to_account_id_iff,
}
use nonfungible_adapter_tuto.Runtime.Xcm.Origins.{
  OriginsApi, xcm_origin_to_transact_dispatch_origin,
}
use nonfungible_adapter_tuto.Runtime.Xcm.Origins.Dispatch.{transact_origin_iff}

-- `SignedToAccountId32<RuntimeOrigin, AccountId, network>`: an account as a location of this chain.
pub record LocalOriginsApi {R : Type 0} (origins : OriginsApi R) : Type 1 where
  pub Converter : Type 0
  pub try_convert : Converter → origins.RuntimeOrigin → Option (Location R)
  pub signed_to_account_id32 : Option origins.accounts.NetworkId → Converter
  pub convert-signed_to_account_id32 :
      (network : Option origins.accounts.NetworkId) (o : origins.RuntimeOrigin) (l : Location R)
      → (try_convert (signed_to_account_id32 network) o ≡ some l) ↔ (
          (a : origins.accounts.AccountId) × (o ≡ origins.signed a)
          × (l ≡ record { parents = 0; interior = origins.accounts.account_id32 network a ∷ [] }))
  -- `EnsureXcmOrigin<RuntimeOrigin, converter>`: the location that the converter has for an origin,
  -- and for root, where it has none, this chain itself.
  pub Ensure : Type 0
  pub try_origin : Ensure → origins.RuntimeOrigin → Option (Location R)
  pub ensure_xcm_origin : Converter → Ensure
  pub try-ensure_xcm_origin :
      (c : Converter) (o : origins.RuntimeOrigin) (l : Location R)
      → (try_origin (ensure_xcm_origin c) o ≡ some l) ↔ (
          (try_convert c o ≡ some l)
          ⊎ ((try_convert c o ≡ none)
              × (o ≡ origins.root)
              × (l ≡ record { parents = 0; interior = [] })))

module _ {R : Type 0} (origins : OriginsApi R) (api : LocalOriginsApi origins) where
  open origins use {accounts, RuntimeOrigin, convert_origin}
  open api use {Converter, try_convert}

  unfoldable pub local_origin_to_location : Converter
  local_origin_to_location = api.signed_to_account_id32 (relay_network accounts)

  -- An origin of this chain that has a location is a signed one. A message from that location is
  -- dispatched with the same origin again, natively and for its sovereign account alike, and the
  -- account of the location is that of the origin.
  pub local_origin-transact_origin :
      (o : RuntimeOrigin) (l : Location R)
      → try_convert local_origin_to_location o ≡ some l
      → (a : accounts.AccountId) × (o ≡ origins.signed a)
        × (accounts.convert (location_to_account_id accounts) l ≡ some a)
        × (convert_origin (xcm_origin_to_transact_dispatch_origin origins) l native ≡ some o)
        × (convert_origin (xcm_origin_to_transact_dispatch_origin origins) l sovereign_account
            ≡ some o)
  unfolding local_origin_to_location
  local_origin-transact_origin o l h =
      let (a, same, place) =
        (api.convert-signed_to_account_id32 (relay_network accounts) o l).0 h in
      (
        a,
        same,
        (location_to_account_id_iff accounts l a).1 (inr (inr place)),
        (transact_origin_iff origins l native o).1 (inr (inr (a, place, same))),
        (transact_origin_iff origins l sovereign_account o).1 (a, inr (inr place), same),
      )
