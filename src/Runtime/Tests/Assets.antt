-- ===== src/Runtime/Tests/Assets.antt =====
-- Assets of runtime/src/configs/xcm_config.rs on concrete locations.
use nonfungible_adapter_tuto.Base.{
  ℕ, ◌≡◌, ◌↔◌, refl, ap, inl, inr, Bool, true, false, Option, none, some, [], ◌∷◌, arith,
}
use nonfungible_adapter_tuto.Sdk.Xcm.{
  pallet_instance, Location, Asset, Fungibility, index, fungible, non_fungible,
}
use nonfungible_adapter_tuto.Runtime.Xcm.{nfts_from_siblings}
use nonfungible_adapter_tuto.Runtime.Xcm.Matcher.{nft_asset, matches_nonfungibles-nft_asset}
use nonfungible_adapter_tuto.Runtime.Xcm.Reserves.{own_items_from_siblings}
use nonfungible_adapter_tuto.Runtime.Xcm.Accounts.{
  parent, sibling, OwnedBy, location_to_account_id_iff,
}
use nonfungible_adapter_tuto.Runtime.Xcm.Assets.{
  AssetsApi, fungible_transactor, local_asset_transactor, is_reserve_asset, reserve_deposit_only,
}
use nonfungible_adapter_tuto.Runtime.Tests.Locations.{holds, holds_iff, same, change, accounts}
use nonfungible_adapter_tuto.Runtime.Tests.Origins.{for_kind, for_kind_iff}

abbrev pub amount_of : Fungibility ℕ → Option ℕ
amount_of (fungible amount) = some amount
amount_of (non_fungible _) = none

pub amount_of_iff :
    (f : Fungibility ℕ) (amount : ℕ) → (amount_of f ≡ some amount) ↔ (f ≡ fungible amount)
amount_of_iff f amount = ground arith

-- The amount of an asset that is known by a location.
abbrev pub amount_at : Location ℕ → Asset ℕ → Option ℕ
amount_at l a = for_kind (same a.id l) (amount_of a.fun)

pub amount_at_iff :
    (l : Location ℕ) (a : Asset ℕ) (amount : ℕ)
    → (amount_at l a ≡ some amount) ↔ ((a.id ≡ l) × (a.fun ≡ fungible amount))
amount_at_iff l a amount =
    let d = for_kind_iff (same a.id l) (amount_of a.fun) amount in
    let f = amount_of_iff a.fun amount in
    (λ h. let (p, q) = d.0 h in (p, f.0 q), λ (p, q). d.1 (p, f.1 q))

abbrev pub has_value : {A : Type 0} → Option A → Bool
has_value none = false
has_value (some _) = true

pub has_value_iff : {A : Type 0} (o : Option A) → (has_value o ≡ true) ↔ ((a : A) × (o ≡ some a))
has_value_iff none = (λ h. absurd (cc), λ (a, e). absurd (cc))
has_value_iff (some a) = (λ h. (a, refl), λ h. refl)

abbrev pub credit : Option ℕ → Option ℕ → Option (ℕ × ℕ)
credit (some amount) (some who) = some (who, amount)
credit _ _ = none

pub credit-some :
    (m c : Option ℕ) (who amount : ℕ)
    → credit m c ≡ some (who, amount)
    → (m ≡ some amount) × (c ≡ some who)
credit-some none c who amount h = absurd (cc)
credit-some (some m) none who amount h = absurd (cc)
credit-some (some m) (some c) who amount h =
    (ap (λ o. change (λ (x : ℕ × ℕ). x.1) o) h, ap (λ o. change (λ (x : ℕ × ℕ). x.0) o) h)

abbrev pub assets : AssetsApi accounts
assets = record {
  Matcher = Asset ℕ → Option ℕ;
  matches_fungible = λ m. m;
  is_concrete = amount_at;
  Transactor = Asset ℕ → Location ℕ → Option (ℕ × ℕ);
  deposit_asset = λ t. t;
  fungible_adapter = λ m c a l. credit (m a) (c l);
  ReserveFilter = Asset ℕ → Location ℕ → Bool;
  contains = λ f. f;
  native_asset = λ a origin. holds (same a.id origin);
  matches-is_concrete = amount_at_iff;
  deposit-fungible_adapter = λ m c a l who amount. credit-some (m a) (c l) who amount;
  contains-native_asset = λ a origin. holds_iff (same a.id origin);
}

-- Seven units of the relay chain's currency.
abbrev seven : Asset ℕ
seven = record { id = parent; fun = fungible 7 }

seven_from_parent : assets.contains (is_reserve_asset accounts assets) seven parent ≡ true
unfolding is_reserve_asset
seven_from_parent = (assets.contains-native_asset seven parent).1 refl

seven_deposited :
    assets.deposit_asset (local_asset_transactor accounts assets) seven (sibling 1001)
    ≡ some (1_001_001, 7)
unfolding local_asset_transactor fungible_transactor
seven_deposited =
    let amount = (amount_at_iff parent seven 7).1 (refl, refl) in
    let who =
      (location_to_account_id_iff accounts (sibling 1001) 1_001_001).1
        (inr (inl (1001, refl, refl))) in
    rw (amount, who) refl

reserve_deposit_only_example :
    (parent {R = ℕ} ≡ parent)
    × (seven ≡ record { id = parent; fun = fungible 7 })
    × OwnedBy accounts (sibling 1001) 1_001_001
reserve_deposit_only_example =
    reserve_deposit_only accounts assets seven parent (sibling 1001) 1_001_001 7 seven_from_parent
      seven_deposited

-- Item 5 of some collection.
abbrev item : Asset ℕ
item = record {
  id = record { parents = 0; interior = pallet_instance 51 ∷ [] };
  fun = non_fungible (index 5);
}

-- Item 5 of collection 3 of this chain.
own_items_from_siblings_example :
    (nfts_from_siblings (nft_asset ℕ 3 5) (sibling 1001) ≡ true)
    × (assets.contains (is_reserve_asset accounts assets) (nft_asset ℕ 3 5) (sibling 1001) ≡ false)
own_items_from_siblings_example =
    own_items_from_siblings accounts assets (nft_asset ℕ 3 5) 3 5 1001
      ((matches_nonfungibles-nft_asset ℕ 3 5 (omega arith) (omega arith)).0)
