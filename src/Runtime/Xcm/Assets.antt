-- ===== src/Runtime/Xcm/Assets.antt =====
-- `FungibleTransactor`, `LocalAssetTransactor` and `IsReserveAsset` of
-- runtime/src/configs/xcm_config.rs: which assets can be held here, and from whom they are accepted.
-- The adapters are the SDK's; `AssetsApi` has what they do.
use nonfungible_adapter_tuto.Base.{ℕ, ◌≡◌, sym, ◌∙◌, ◌↔◌, Bool, true, Option, some, arith}
use nonfungible_adapter_tuto.Sdk.Xcm.{Location, Asset, fungible}
use nonfungible_adapter_tuto.Runtime.Xcm.Accounts.{
  AccountsApi, parent, relay_location, location_to_account_id, OwnedBy, location_to_account_id_iff,
}

pub record AssetsApi {R : Type 0} (accounts : AccountsApi R) : Type 1 where
  -- `MatchesFungible`: the amount of an asset that is the currency.
  pub Matcher : Type 0
  pub matches_fungible : Matcher → Asset R → Option ℕ
  pub is_concrete : Location R → Matcher
  -- `TransactAsset`: the account and the amount that a deposit credits, or none if it fails.
  pub Transactor : Type 0
  pub deposit_asset : Transactor → Asset R → Location R → Option (accounts.AccountId × ℕ)
  pub fungible_adapter : Matcher → accounts.Converter → Transactor
  -- `ContainsPair<Asset, Location>`
  pub ReserveFilter : Type 0
  pub contains : ReserveFilter → Asset R → Location R → Bool
  pub native_asset : ReserveFilter
  pub matches-is_concrete :
      (l : Location R) (a : Asset R) (amount : ℕ)
      → (matches_fungible (is_concrete l) a ≡ some amount)
        ↔ ((a.id ≡ l) × (a.fun ≡ fungible amount))
  -- A deposit can fail for other reasons too, such as the existential deposit.
  pub deposit-fungible_adapter :
      (m : Matcher) (c : accounts.Converter) (a : Asset R) (l : Location R)
      (who : accounts.AccountId) (amount : ℕ)
      → deposit_asset (fungible_adapter m c) a l ≡ some (who, amount)
      → (matches_fungible m a ≡ some amount) × (accounts.convert c l ≡ some who)
  -- `NativeAsset` compares the class of an asset with the origin, and nothing else.
  pub contains-native_asset :
      (a : Asset R) (origin : Location R)
      → (contains native_asset a origin ≡ true) ↔ (a.id ≡ origin)

module _ {R : Type 0} (accounts : AccountsApi R) (api : AssetsApi accounts) where
  open api use {Transactor, ReserveFilter, deposit_asset, contains}

  unfoldable pub fungible_transactor : Transactor
  fungible_transactor =
      api.fungible_adapter (api.is_concrete (relay_location accounts))
        (location_to_account_id accounts)

  unfoldable pub local_asset_transactor : Transactor
  unfolding fungible_transactor
  local_asset_transactor = fungible_transactor

  unfoldable pub is_reserve_asset : ReserveFilter
  is_reserve_asset = api.native_asset

  deposit-local_asset_transactor :
      (a : Asset R) (l : Location R) (who : accounts.AccountId) (amount : ℕ)
      → deposit_asset local_asset_transactor a l ≡ some (who, amount)
      → (a.id ≡ parent) × (a.fun ≡ fungible amount) × OwnedBy accounts l who
  unfolding local_asset_transactor
  deposit-local_asset_transactor a l who amount h =
      let (m, c) = api.deposit-fungible_adapter _ _ a l who amount h in
      let (i, f) = (api.matches-is_concrete parent a amount).0 m in
      (i, f, (location_to_account_id_iff accounts l who).0 c)

  -- What is accepted as a reserve and can be deposited is the relay chain's own currency, sent by the
  -- relay chain; the whole amount is credited, to the account of the beneficiary.
  pub reserve_deposit_only :
      (a : Asset R) (origin beneficiary : Location R) (who : accounts.AccountId) (amount : ℕ)
      → contains is_reserve_asset a origin ≡ true
      → deposit_asset local_asset_transactor a beneficiary ≡ some (who, amount)
      → (origin ≡ parent)
        × (a ≡ record { id = parent; fun = fungible amount })
        × OwnedBy accounts beneficiary who
  unfolding is_reserve_asset
  reserve_deposit_only a origin beneficiary who amount reserve credited =
      let same = (api.contains-native_asset a origin).0 reserve in
      let (i, f, own) = deposit-local_asset_transactor a beneficiary who amount credited in
      (sym same ∙ i, ground (arith, i, f), own)
