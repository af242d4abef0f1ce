-- ===== src/Runtime/Xcm/Reserves.antt =====
-- The reserves of NFTs in runtime/src/configs/xcm_config.rs: `NftsFromSiblings`, which is prepared, and
-- `IsReserveAsset`, which is in use, on the assets that the NFT matcher takes for items of this
-- chain.
use nonfungible_adapter_tuto.Base.{ℕ, ◌≡◌, refl, true, false, ok, inl, inr, Bool-cases, arith}
use nonfungible_adapter_tuto.Sdk.Xcm.{index, Asset}
use nonfungible_adapter_tuto.Runtime.Xcm.{matches_nonfungibles, nfts_from_siblings}
use nonfungible_adapter_tuto.Runtime.Xcm.Filters.{nfts_from_siblings_iff}
use nonfungible_adapter_tuto.Runtime.Xcm.Matcher.{nft_asset, matches_nonfungibles_iff}
use nonfungible_adapter_tuto.Runtime.Xcm.Accounts.{AccountsApi, sibling}
use nonfungible_adapter_tuto.Runtime.Xcm.Assets.{AssetsApi, is_reserve_asset}

module _ {R : Type 0} (accounts : AccountsApi R) (api : AssetsApi accounts) where
  -- An asset that the matcher takes for an item of this chain is one that `NftsFromSiblings` accepts
  -- from every sibling parachain as its reserve, and that the reserve filter in use accepts from
  -- none.
  pub own_items_from_siblings :
      (a : Asset R) (collection item id : ℕ)
      → matches_nonfungibles a ≡ ok (collection, item)
      → (nfts_from_siblings a (sibling id) ≡ true)
        × (api.contains (is_reserve_asset accounts api) a (sibling id) ≡ false)
  unfolding nft_asset is_reserve_asset
  own_items_from_siblings a collection item id h =
      let (c, i, same, _, _) = (matches_nonfungibles_iff R a collection item).0 h in
      let here : a.id.parents ≡ 0 = rw same refl in
      (
        (nfts_from_siblings_iff a (sibling id)).1 (id, index i, refl, rw same refl),
        elim (Bool-cases (api.contains (is_reserve_asset accounts api) a (sibling id))) [
          | inl e ↦
              let class = (api.contains-native_asset a (sibling id)).0 e in absurd (ground (arith))
          | inr e ↦ e
        ],
      )
