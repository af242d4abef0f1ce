-- ===== src/Runtime/Xcm/Matcher.antt =====
-- What `NftsMatcher` accepts (runtime/src/configs/xcm_config.rs), against the format that its
-- comment gives for an NFT of this chain.
use nonfungible_adapter_tuto.Base.{
  ℕ, ◌+◌, ◌*◌, ◌≤◌, ◌<◌, ◌≡◌, ◌≢◌, ◌↔◌, refl, sym, ap, ◌∙◌, inl, inr, Option-cases, some, List, [],
  ◌∷◌, ok, u32_max, arith,
}
use nonfungible_adapter_tuto.Sdk.Xcm.{
  Junction, pallet_instance, general_index, Location, index, Fungibility, non_fungible, Asset,
}
use nonfungible_adapter_tuto.Runtime.Pallets.{nfts, pallet_index}
use nonfungible_adapter_tuto.Runtime.Xcm.{
  as_u32, collection_interior, collection_of, item_of, matches_nonfungibles,
}

module _ (R : Type 0) where
  -- The asset for an item: `PalletInstance`(of the NFT pallet)`/GeneralIndex(collection)`, and
  -- `Index(item)`.
  unfoldable pub nft_asset : ℕ → ℕ → Asset R
  unfolding pallet_index
  nft_asset collection item = record {
    id = record {
      parents = 0;
      interior = pallet_instance (pallet_index nfts) ∷ general_index collection ∷ [];
    };
    fun = non_fungible (index item);
  }

  collection_interior-some :
      (js : List (Junction R)) {g : ℕ}
      → collection_interior js ≡ some g
      → js ≡ pallet_instance 51 ∷ general_index g ∷ []
  unfolding collection_interior
  collection_interior-some (pallet_instance i ∷ general_index collection ∷ []) h = ground arith
  collection_interior-some js h = ground arith

  item_of-some : (f : Fungibility R) {i : ℕ} → item_of f ≡ some i → f ≡ non_fungible (index i)
  unfolding item_of
  item_of-some f h = ground arith

  collection_of-some :
      (l : Location R) {g : ℕ}
      → collection_of l ≡ some g
      → l ≡ record { parents = 0; interior = pallet_instance 51 ∷ general_index g ∷ [] }
  unfolding collection_of
  collection_of-some l {g} h = grind (
    arith,
    λ (e : collection_interior l.interior ≡ some g). collection_interior-some l.interior e,
  )

  matches-nft_asset : (c i : ℕ) → matches_nonfungibles (nft_asset c i) ≡ ok (as_u32 c, as_u32 i)
  unfolding matches_nonfungibles nft_asset
  matches-nft_asset c i = refl

  matches-ok :
      (a : Asset R) {collection item : ℕ}
      → matches_nonfungibles a ≡ ok (collection, item)
      → (c : ℕ) × (i : ℕ) × (collection_of a.id ≡ some c)
        × (item_of a.fun ≡ some i)
        × (as_u32 c ≡ collection)
        × (as_u32 i ≡ item)
  unfolding matches_nonfungibles
  matches-ok a h = elim (Option-cases (collection_of a.id)) [
    | inl e ↦ absurd (ground arith)
    | inr (c, e) ↦ elim (Option-cases (item_of a.fun)) [
      | inl f ↦ absurd (ground arith)
      | inr (i, f) ↦ (c, i, e, f, ground arith, ground arith)
    ]
  ]

  -- The matcher accepts exactly the assets of the format of this chain's NFTs, and answers with
  -- the two indices cut down to 32 bits.
  pub matches_nonfungibles_iff :
      (a : Asset R) (collection item : ℕ)
      → (matches_nonfungibles a ≡ ok (collection, item))
        ↔ ((c : ℕ) × (i : ℕ) × (a ≡ nft_asset c i) × (as_u32 c ≡ collection) × (as_u32 i ≡ item))
  unfolding nft_asset
  matches_nonfungibles_iff a collection item = (
    λ h.
        let (c, i, e, f, p, q) = matches-ok a h in
        (c, i, ground (arith, collection_of-some a.id e, item_of-some a.fun f), p, q),
    λ (c, i, e, p, q). ap matches_nonfungibles e ∙ matches-nft_asset c i ∙ ground arith,
  )

  -- An asset for an item that the NFT pallet can have: its collection and item ids are `u32`.
  abbrev pub IsCanonical : Asset R → Type 0
  IsCanonical a = (c : ℕ) × (i : ℕ) × (a ≡ nft_asset c i) × (c ≤ u32_max) × (i ≤ u32_max)

  IsCanonical-matches : (a : Asset R) → (h : IsCanonical a) → matches_nonfungibles a ≡ ok (h.0, h.1)
  IsCanonical-matches a (c, i, e, p, q) =
      ap matches_nonfungibles e ∙ matches-nft_asset c i ∙ ground arith

  -- Two assets with `u32` ids that the matcher takes for the same item are the same asset.
  matches_nonfungibles_injective :
      (a b : Asset R)
      → IsCanonical a
      → IsCanonical b
      → matches_nonfungibles a ≡ matches_nonfungibles b
      → a ≡ b
  matches_nonfungibles_injective a b h k e =
      let same = sym (IsCanonical-matches a h) ∙ e ∙ IsCanonical-matches b k in h.2 ∙ (cc) ∙ sym k.2

  -- Assets and items correspond for `u32` ids: the asset for an item is taken for that item, and
  -- whatever asset with `u32` ids is taken for an item is the asset for it.
  pub matches_nonfungibles-nft_asset :
      (c i : ℕ)
      → c ≤ u32_max
      → i ≤ u32_max
      → (matches_nonfungibles (nft_asset c i) ≡ ok (c, i))
        × ((a : Asset R) → IsCanonical a → matches_nonfungibles a ≡ ok (c, i) → nft_asset c i ≡ a)
  matches_nonfungibles-nft_asset c i p q =
      let there = IsCanonical-matches (nft_asset c i) (c, i, refl, p, q) in
      (
        there,
        λ a h e.
            matches_nonfungibles_injective (nft_asset c i) a (c, i, refl, p, q) h (there ∙ sym e),
      )

  -- Past `u32` the ids wrap: adding a multiple of 2 ^ 32 to either id of an NFT makes a different
  -- asset, for which the matcher gives the same answer.
  pub matches_nonfungibles_aliases :
      (c i k j : ℕ)
      → 0 < k + j
      → (matches_nonfungibles (nft_asset (c + k * 4_294_967_296) (i + j * 4_294_967_296))
          ≡ matches_nonfungibles (nft_asset c i))
        × (nft_asset (c + k * 4_294_967_296) (i + j * 4_294_967_296) ≢ nft_asset c i)
  unfolding nft_asset
  matches_nonfungibles_aliases c i k j h =
      (matches-nft_asset _ _ ∙ ground arith ∙ sym (matches-nft_asset c i), λ e. ground arith)
