-- ===== src/Runtime/Xcm.antt =====
-- runtime/src/configs/xcm_config.rs: the matcher of NFT assets and the two filters of locations.
pub mod Matcher
pub mod Filters
pub mod Barrier
pub mod Accounts
pub mod Origins
pub mod Assets
pub mod Router
pub mod Fees
pub mod LocalOrigins
pub mod Executor
pub mod Reserves
use nonfungible_adapter_tuto.Base.{
  ℕ, ◌%◌, Bool, true, false, Option, none, some, List, [], ◌∷◌, Result, ok, err, ◌==◌,
  if◌then◌else◌,
}
use nonfungible_adapter_tuto.Sdk.Xcm.{
  executive, Junction, parachain, pallet_instance, general_index, plurality, Location, index,
  Fungibility, fungible, non_fungible, Asset,
}

-- `xcm_executor::traits::Error`, as far as the matcher builds it.
pub data MatchError : Type 0 where
  asset_not_handled : MatchError

-- `as u32` of a u128.
abbrev pub as_u32 : ℕ → ℕ
as_u32 x = x % 4_294_967_296

module _ {R : Type 0} where
  -- `(0, [PalletInstance(51), GeneralIndex(collection)])`
  collection_interior : List (Junction R) → Option ℕ
  collection_interior (pallet_instance i ∷ general_index collection ∷ []) =
      if i == 51 then some collection else none
  collection_interior _ = none

  collection_of : Location R → Option ℕ
  collection_of l = if l.parents == 0 then collection_interior l.interior else none

  -- `NonFungible(AssetInstance::Index(item))`
  item_of : Fungibility R → Option ℕ
  item_of (non_fungible (index item)) = some item
  item_of _ = none

  pub matches_nonfungibles : Asset R → Result MatchError (ℕ × ℕ)
  unfolding collection_interior collection_of item_of
  matches_nonfungibles a = elim (collection_of a.id) [
    | none ↦ err asset_not_handled
    | some collection ↦ elim (item_of a.fun) [
      | none ↦ err asset_not_handled
      | some item ↦ ok (as_u32 collection, as_u32 item)
    ]
  ]

  -- `(1, [])` and `(1, [Plurality { id: BodyId::Executive, .. }])`
  parent_interior : List (Junction R) → Bool
  parent_interior [] = true
  parent_interior (plurality executive _ ∷ []) = true
  parent_interior _ = false

  -- `ParentOrParentsExecutivePlurality::contains`
  pub parent_or_parents_executive_plurality : Location R → Bool
  unfolding parent_interior
  parent_or_parents_executive_plurality l =
      if l.parents == 1 then parent_interior l.interior else false

  sibling_interior : List (Junction R) → Bool
  sibling_interior (parachain _ ∷ []) = true
  sibling_interior _ = false

  is_non_fungible : Fungibility R → Bool
  is_non_fungible (fungible _) = false
  is_non_fungible (non_fungible _) = true

  -- `NftsFromSiblings::contains`
  pub nfts_from_siblings : Asset R → Location R → Bool
  unfolding sibling_interior is_non_fungible
  nfts_from_siblings asset origin =
      if origin.parents == 1
      then if sibling_interior origin.interior then is_non_fungible asset.fun else false
      else false
