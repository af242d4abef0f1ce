-- ===== src/Runtime/Xcm/Accounts.antt =====
-- `LocationToAccountId` of runtime/src/configs/xcm_config.rs: which locations have an account on this
-- chain. The converters are the SDK's; `AccountsApi` has what they convert.
use nonfungible_adapter_tuto.Base.{
  ℕ, ◌≡◌, ◌≢◌, refl, first_some, eq-none, ◌↔◌, ◌⊎◌, inl, inr, Option, none, some, List, [], ◌∷◌,
  ◌++◌, arith,
}
use nonfungible_adapter_tuto.Sdk.Xcm.{Junction, parachain, Location}

module _ {R : Type 0} where
  -- `Location::parent()`, and the location of a sibling parachain.
  abbrev pub parent : Location R
  parent = record { parents = 1; interior = [] }

  abbrev pub sibling : ℕ → Location R
  sibling id = record { parents = 1; interior = parachain id ∷ [] }

-- A location, or one inside it.
abbrev pub Within : {R : Type 0} → Location R → Location R → Type 0
Within {R} outer l =
    (inner : List (Junction R)) × (l
      ≡ record { parents = outer.parents; interior = outer.interior ++ inner })

pub record AccountsApi (R : Type 0) : Type 1 where
  pub AccountId : Type 0
  pub NetworkId : Type 0
  pub Converter : Type 0
  pub convert : Converter → Location R → Option AccountId
  -- `AccountId32 { network, id }`
  pub account_id32 : Option NetworkId → AccountId → Junction R
  -- `ParentIsPreset`, `SiblingParachainConvertsVia<Sibling, _>` and `AccountId32Aliases<network, _>`.
  pub parent_is_preset : Converter
  pub sibling_parachain_converts_via : Converter
  pub account_id32_aliases : Option NetworkId → Converter
  pub tuple : List Converter → Converter
  -- The account of the relay chain, and that of a parachain (`ParaId::into`).
  pub parent_account : AccountId
  pub sibling_account : ℕ → AccountId
  pub convert-parent_is_preset :
      (l : Location R) (a : AccountId)
      → (convert parent_is_preset l ≡ some a) ↔ ((l ≡ parent) × (a ≡ parent_account))
  pub convert-sibling_parachain :
      (l : Location R) (a : AccountId)
      → (convert sibling_parachain_converts_via l ≡ some a)
        ↔ ((id : ℕ) × (l ≡ sibling id) × (a ≡ sibling_account id))
  -- An account of no network, or of the given one.
  pub convert-account_id32_aliases :
      (network : Option NetworkId) (l : Location R) (a : AccountId)
      → (convert (account_id32_aliases network) l ≡ some a) ↔ (
          (l ≡ record { parents = 0; interior = account_id32 none a ∷ [] })
          ⊎ (l ≡ record { parents = 0; interior = account_id32 network a ∷ [] }))
  -- A tuple converts by the first of its parts that does.
  pub convert-tuple_nil : (l : Location R) → convert (tuple []) l ≡ none
  pub convert-tuple_cons :
      (c : Converter) (cs : List Converter) (l : Location R)
      → convert (tuple (c ∷ cs)) l ≡ first_some (convert c l) (convert (tuple cs) l)

module _ {R : Type 0} (api : AccountsApi R) where
  open api use {
    AccountId, NetworkId, Converter, convert, account_id32, parent_account, sibling_account,
  }

  -- `RelayLocation` and `RelayNetwork`.
  abbrev pub relay_location : Location R
  relay_location = parent

  abbrev pub relay_network : Option NetworkId
  relay_network = none

  -- An account of this chain, as a location.
  abbrev pub local : AccountId → Location R
  local a = record { parents = 0; interior = account_id32 none a ∷ [] }

  pub location_to_account_id : Converter
  location_to_account_id = api.tuple (
      api.parent_is_preset
      ∷ api.sibling_parachain_converts_via
      ∷ api.account_id32_aliases relay_network
      ∷ [])

  -- What an account is of: the relay chain, a sibling parachain, or this chain itself.
  abbrev pub OwnedBy : Location R → AccountId → Type 0
  OwnedBy l a =
      ((l ≡ parent) × (a ≡ parent_account))
      ⊎ ((id : ℕ) × (l ≡ sibling id) × (a ≡ sibling_account id))
      ⊎ (l ≡ local a)

  -- The converters in the order in which they are asked.
  convert-location_to_account_id :
      (l : Location R)
      → convert location_to_account_id l
        ≡ first_some (convert api.parent_is_preset l) (
            first_some
              (convert api.sibling_parachain_converts_via l)
              (first_some (convert (api.account_id32_aliases none) l) none))
  unfolding location_to_account_id
  convert-location_to_account_id l = simp (api.convert-tuple_cons, api.convert-tuple_nil) refl

  -- Exactly the relay chain, the sibling parachains and the accounts of this chain itself have an
  -- account here, each the one that is its own.
  pub location_to_account_id_iff :
      (l : Location R) (a : AccountId) → (convert location_to_account_id l ≡ some a) ↔ OwnedBy l a
  location_to_account_id_iff l a =
      let p = api.convert-parent_is_preset l in
      let s = api.convert-sibling_parachain l in
      let n = api.convert-account_id32_aliases none l in
      let in_order = convert-location_to_account_id l in
      let not_parent = λ (h : l ≢ parent).
        eq-none (convert api.parent_is_preset l) _ (λ x. (p x).0) (λ x q. h q.0) in
      let not_sibling = λ (h : (id : ℕ) → l ≢ sibling id).
        eq-none (convert api.sibling_parachain_converts_via l) _ (λ x. (s x).0)
          (λ x q. h q.0 q.1) in
      (
        λ h. ground (arith, p a, s a, n a, in_order),
        λ h. elim h [
          | inl own ↦ ground (arith, (p a).1 own, in_order)
          | inr (inl (id, e, own)) ↦
              ground (arith, not_parent (λ q. cc), (s a).1 (id, e, own), in_order)
          | inr (inr e) ↦
              ground
                (arith, not_parent (λ q. cc), not_sibling (λ id q. cc), (n a).1 (inl e), in_order)
        ],
      )
