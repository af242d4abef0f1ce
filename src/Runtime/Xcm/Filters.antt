-- ===== src/Runtime/Xcm/Filters.antt =====
-- Which locations the two filters of runtime/src/configs/xcm_config.rs accept.
use nonfungible_adapter_tuto.Base.{◌≡◌, ◌↔◌, ◌⊎◌, ℕ, true, List, [], ◌∷◌, refl, inl, inr, arith}
use nonfungible_adapter_tuto.Sdk.Xcm.{
  executive, Junction, parachain, plurality, Location, AssetInstance, Fungibility, fungible,
  non_fungible, Asset,
}
use nonfungible_adapter_tuto.Runtime.Xcm.{
  parent_interior, parent_or_parents_executive_plurality, sibling_interior, is_non_fungible,
  nfts_from_siblings,
}

module _ {R : Type 0} where
  parent_interior_lem :
      (js : List (Junction R))
      → parent_interior js ≡ true
      → (js ≡ []) ⊎ ((part : R) × (js ≡ plurality executive part ∷ []))
  unfolding parent_interior
  parent_interior_lem js h = ground arith

  sibling_interior_lem :
      (js : List (Junction R)) → sibling_interior js ≡ true → (p : ℕ) × (js ≡ parachain p ∷ [])
  unfolding sibling_interior
  sibling_interior_lem js h = ground arith

  is_non_fungible_lem :
      (f : Fungibility R) → is_non_fungible f ≡ true → (i : AssetInstance R) × (f ≡ non_fungible i)
  unfolding is_non_fungible
  is_non_fungible_lem (fungible _) h = cc
  is_non_fungible_lem (non_fungible i) h = (i, refl)

  -- Free execution is allowed to exactly the parent and the parent's executive plurality.
  pub parent_or_parents_executive_plurality_iff :
      (l : Location R)
      → (parent_or_parents_executive_plurality l ≡ true) ↔ (
          (l ≡ record { parents = 1; interior = [] })
          ⊎ ((part : R) × (l ≡ record { parents = 1; interior = plurality executive part ∷ [] })))
  unfolding parent_or_parents_executive_plurality
  parent_or_parents_executive_plurality_iff l = (
    λ h. elim (parent_interior_lem l.interior (ground arith)) [
      | inl e ↦ inl (ground arith)
      | inr (part, e) ↦ inr (part, ground arith)
    ],
    ground arith,
  )

  -- A reserve for NFTs is exactly a sibling parachain with an asset that is not fungible.
  pub nfts_from_siblings_iff :
      (asset : Asset R) (origin : Location R)
      → (nfts_from_siblings asset origin ≡ true) ↔ (
          (p : ℕ) × (i : AssetInstance R) × (origin
            ≡ record { parents = 1; interior = parachain p ∷ [] })
          × (asset.fun ≡ non_fungible i))
  unfolding nfts_from_siblings
  nfts_from_siblings_iff asset origin = (
    λ h.
        let (p, e) = sibling_interior_lem origin.interior (ground arith) in
        let (i, f) = is_non_fungible_lem asset.fun (ground arith) in (p, i, ground arith, f),
    ground arith,
  )
