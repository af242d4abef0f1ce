-- ===== src/Runtime/Governance.antt =====
-- `CollatorSelectionUpdateOrigin` of runtime/src/configs/mod.rs: who may change the collators, and
-- which messages from other chains may. The checks are the SDK's; `ChecksApi` has what they accept.
use nonfungible_adapter_tuto.Base.{
  ℕ, ◌≡◌, refl, sym, ap, ◌∙◌, Bool-cases, ◌↔◌, ◌⊎◌, inl, inr, ◌||◌, Bool, true, false, some, [],
  ◌∷◌, arith,
}
use nonfungible_adapter_tuto.Sdk.Xcm.{
  BodyId, defense, plurality, Location, OriginKind, native, sovereign_account, superuser, xcm,
}
use nonfungible_adapter_tuto.Runtime.Xcm.Accounts.{relay_location}
use nonfungible_adapter_tuto.Runtime.Xcm.Origins.{
  OriginsApi, xcm_origin_to_transact_dispatch_origin,
}
use nonfungible_adapter_tuto.Runtime.Xcm.Origins.Dispatch.{DispatchedAs, transact_origin_iff}

-- `EnsureOrigin` checks, and filters of locations.
pub record ChecksApi {R : Type 0} (origins : OriginsApi R) : Type 1 where
  pub Check : Type 0
  pub passes : Check → origins.RuntimeOrigin → Bool
  pub Filter : Type 0
  pub contains : Filter → Location R → Bool
  -- `BodyPart::Voice`
  pub voice : R
  pub ensure_root : Check
  pub ensure_xcm : Filter → Check
  pub is_voice_of_body : Location R → BodyId R → Filter
  pub either_of_diverse : Check → Check → Check
  pub ensure_signed : Check
  -- `AsEnsureOriginWithArg<_>`, which takes no account of the argument.
  pub as_ensure_origin_with_arg : Check → Check
  pub passes-ensure_root :
      (o : origins.RuntimeOrigin) → (passes ensure_root o ≡ true) ↔ (o ≡ origins.root)
  pub passes-ensure_xcm :
      (f : Filter) (o : origins.RuntimeOrigin)
      → (passes (ensure_xcm f) o ≡ true)
        ↔ ((l : Location R) × (o ≡ origins.xcm_origin l) × (contains f l ≡ true))
  -- The body under a prefix that has no junctions of its own.
  pub contains-is_voice_of_body :
      (parents : ℕ) (body : BodyId R) (l : Location R)
      → (contains (is_voice_of_body (record { parents = parents; interior = [] }) body) l ≡ true)
        ↔ (l ≡ record { parents = parents; interior = plurality body voice ∷ [] })
  pub passes-either_of_diverse :
      (a b : Check) (o : origins.RuntimeOrigin)
      → passes (either_of_diverse a b) o ≡ (passes a o || passes b o)
  pub passes-signed :
      (a : origins.accounts.AccountId) → passes ensure_signed (origins.signed a) ≡ true
  pub passes-signed_relay : passes ensure_signed (origins.relay) ≡ false
  pub passes-signed_sibling_para : (id : ℕ) → passes ensure_signed (origins.sibling_para id) ≡ false
  pub passes-signed_xcm_origin :
      (l : Location R) → passes ensure_signed (origins.xcm_origin l) ≡ false
  pub passes-as_ensure_origin_with_arg :
      (c : Check) (o : origins.RuntimeOrigin) → passes (as_ensure_origin_with_arg c) o ≡ passes c o

module _ {R : Type 0} (origins : OriginsApi R) (checks : ChecksApi origins) where
  open origins use {accounts, RuntimeOrigin, convert_origin}
  open checks use {Check, passes, voice}

  -- `StakingAdminBodyId`
  abbrev pub staking_admin_body_id : BodyId R
  staking_admin_body_id = defense

  pub collator_selection_update_origin : Check
  collator_selection_update_origin =
      checks.either_of_diverse checks.ensure_root (
        checks.ensure_xcm (checks.is_voice_of_body (relay_location accounts) staking_admin_body_id))

  -- The voice of the defense body of the relay chain.
  abbrev pub staking_admin : Location R
  staking_admin = record { parents = 1; interior = plurality defense voice ∷ [] }

  -- Root, and the voice of the defense body of the relay chain, may change the collators, and no
  -- other origin.
  pub collator_selection_update_origin_iff :
      (o : RuntimeOrigin)
      → (passes collator_selection_update_origin o ≡ true)
        ↔ ((o ≡ origins.root) ⊎ (o ≡ origins.xcm_origin staking_admin))
  unfolding collator_selection_update_origin
  collator_selection_update_origin_iff o =
      let filter = checks.is_voice_of_body (relay_location accounts) staking_admin_body_id in
      let either =
        checks.passes-either_of_diverse checks.ensure_root (checks.ensure_xcm filter) o in
      let r = checks.passes-ensure_root o in
      let x = checks.passes-ensure_xcm filter o in
      let voice_only = checks.contains-is_voice_of_body 1 staking_admin_body_id in
      (
        λ h. elim (Bool-cases (passes checks.ensure_root o)) [
          | inl e ↦ inl (r.0 e)
          | inr e ↦
              let (l, f, inside) = x.0 (ground (arith, either)) in
              inr (f ∙ ap origins.xcm_origin ((voice_only l).0 inside))
        ],
        λ h. elim h [
          | inl e ↦ ground (arith, either, r.1 e)
          | inr e ↦
              ground (arith, either, x.1 (staking_admin, e, (voice_only staking_admin).1 refl))
        ],
      )

  -- No origin of a message is root, and only one that is dispatched as XCM is an XCM location.
  staking_admin_only :
      (l : Location R) (k : OriginKind) (o : RuntimeOrigin)
      → DispatchedAs origins l k o
      → (o ≡ origins.root) ⊎ (o ≡ origins.xcm_origin staking_admin)
      → (l ≡ staking_admin) × (k ≡ xcm)
  staking_admin_only l sovereign_account o (a, _, e) h = absurd (elim h [
    | inl r ↦ origins.signed_differs a (sym e ∙ r)
    | inr x ↦ origins.signed-xcm_origin a staking_admin (sym e ∙ x)
  ])
  staking_admin_only l native o (inl (_, e)) h = absurd (elim h [
    | inl r ↦ origins.relay_differs (sym e ∙ r)
    | inr x ↦ origins.relay-xcm_origin staking_admin (sym e ∙ x)
  ])
  staking_admin_only l native o (inr (inl (id, _, e))) h = absurd (elim h [
    | inl r ↦ origins.sibling_para_differs id (sym e ∙ r)
    | inr x ↦ origins.sibling_para-xcm_origin id staking_admin (sym e ∙ x)
  ])
  staking_admin_only l native o (inr (inr (a, _, e))) h = absurd (elim h [
    | inl r ↦ origins.signed_differs a (sym e ∙ r)
    | inr x ↦ origins.signed-xcm_origin a staking_admin (sym e ∙ x)
  ])
  staking_admin_only l xcm o e h = elim h [
    | inl r ↦ absurd (origins.xcm_origin_differs l (sym e ∙ r))
    | inr x ↦ (origins.xcm_origin_injective l staking_admin (sym e ∙ x), refl)
  ]
  staking_admin_only l superuser o d h = absurd d

  -- A message from a location, dispatched with the origin of some kind, may change the collators
  -- exactly if the location is the voice of the defense body of the relay chain and the kind is
  -- XCM.
  pub transact_updates_collators_iff :
      (l : Location R) (k : OriginKind)
      → ((o : RuntimeOrigin) × (convert_origin (xcm_origin_to_transact_dispatch_origin origins) l k
            ≡ some o)
          × (passes collator_selection_update_origin o ≡ true))
        ↔ ((l ≡ staking_admin) × (k ≡ xcm))
  transact_updates_collators_iff l k = (
    λ (o, e, p).
        staking_admin_only l k o ((transact_origin_iff origins l k o).0 e)
          ((collator_selection_update_origin_iff o).0 p),
    λ (same, kind).
        let o = origins.xcm_origin staking_admin in
        (
          o,
          rw (same, kind) ((transact_origin_iff origins staking_admin xcm o).1 refl),
          (collator_selection_update_origin_iff o).1 (inr refl),
        ),
  )
