-- ===== src/Runtime/Privileges.antt =====
-- The calls that runtime/src/configs/mod.rs and runtime/src/configs/xcm_config.rs keep for privileged
-- origins, and the messages from other chains that may make them.
use nonfungible_adapter_tuto.Base.{ℕ, ◌≡◌, refl, ◌∙◌, ◌↔◌, Bool-cases, inl, inr, true, false, some}
use nonfungible_adapter_tuto.Sdk.Numbers.{Numbers}
use nonfungible_adapter_tuto.Sdk.Xcm.{
  Location, OriginKind, native, sovereign_account, superuser, xcm,
}
use nonfungible_adapter_tuto.Runtime.Xcm.Origins.Dispatch.{
  DispatchedAs, transact_origin_iff, transact_origin_not_root,
}
use nonfungible_adapter_tuto.Runtime.Transact.{ActsAs, dispatched-ActsAs}
use nonfungible_adapter_tuto.Runtime.Xcm.Executor.{XcmSdk, xcm_config, pallet_xcm_config}
use nonfungible_adapter_tuto.Runtime.Governance.{
  collator_selection_update_origin, staking_admin, transact_updates_collators_iff,
}
use nonfungible_adapter_tuto.Runtime.Configs.{xcmp_queue_config, nfts_config}

module _ {n : Numbers} {R : Type 0} (sdk : XcmSdk n R) (para_id : ℕ) where
  open sdk use {origins, checks}

  -- The origin of no message passes the check for root.
  not_root :
      (l : Location R) (k : OriginKind) (o : origins.RuntimeOrigin)
      → origins.convert_origin ((xcm_config sdk para_id).origin_converter) l k ≡ some o
      → checks.passes (checks.ensure_root) o ≡ false
  not_root l k o h = elim (Bool-cases (checks.passes (checks.ensure_root) o)) [
    | inl yes_root ↦
        let same = (checks.passes-ensure_root o).0 yes_root in
        absurd (transact_origin_not_root origins l k (rw (← same) h))
    | inr other ↦ other
  ]

  -- Whether an origin of a message passes the check for a signed one.
  signed_passes :
      (l : Location R) (k : OriginKind) (o : origins.RuntimeOrigin)
      → DispatchedAs origins l k o
      → checks.passes ((nfts_config origins checks).create_origin) o ≡ true
      → (a : origins.accounts.AccountId) × ActsAs origins l k a
  signed_passes l sovereign_account o (a, own, e) h = (a, inl (refl, own))
  signed_passes l native o (inl (_, e)) h =
      let same = checks.passes-as_ensure_origin_with_arg checks.ensure_signed o in
      let not = checks.passes-signed_relay in absurd (cc)
  signed_passes l native o (inr (inl (id, _, e))) h =
      let same = checks.passes-as_ensure_origin_with_arg checks.ensure_signed o in
      let not = checks.passes-signed_sibling_para id in absurd (cc)
  signed_passes l native o (inr (inr (a, own, e))) h = (a, inr (refl, own))
  signed_passes l xcm o e h =
      let same = checks.passes-as_ensure_origin_with_arg checks.ensure_signed o in
      let not = checks.passes-signed_xcm_origin l in absurd (cc)
  signed_passes l superuser o e h = absurd e

  -- A message can create a collection of NFTs exactly if it acts as an account.
  create_collection_iff :
      (l : Location R) (k : OriginKind)
      → ((o : origins.RuntimeOrigin) × (origins.convert_origin
              ((xcm_config sdk para_id).origin_converter)
              l
              k
            ≡ some o)
          × (checks.passes ((nfts_config origins checks).create_origin) o ≡ true))
        ↔ ((a : origins.accounts.AccountId) × ActsAs origins l k a)
  create_collection_iff l k = (
    λ (o, converted, passed).
        signed_passes l k o ((transact_origin_iff origins l k o).0 converted) passed,
    λ (a, acts). (
      origins.signed a,
      (transact_origin_iff origins l k (origins.signed a)).1 (dispatched-ActsAs origins l k a acts),
      checks.passes-as_ensure_origin_with_arg checks.ensure_signed (origins.signed a)
          ∙ checks.passes-signed a,
    ),
  )

  -- A message may change the collators exactly if it comes from the voice of the defense body of the
  -- relay chain and asks to be dispatched as XCM; it passes the check of who may create a
  -- collection of NFTs exactly if it acts as an account; and no message passes the checks of who
  -- may control the queue of the messages from siblings, force a change of a collection of NFTs, or
  -- administer the XCM pallet.
  pub privileged_transacts :
      (l : Location R) (k : OriginKind)
      → (((o : origins.RuntimeOrigin) × (origins.convert_origin
                ((xcm_config sdk para_id).origin_converter)
                l
                k
              ≡ some o)
            × (checks.passes (collator_selection_update_origin origins checks) o ≡ true))
          ↔ ((l ≡ staking_admin origins checks) × (k ≡ xcm)))
        × (((o : origins.RuntimeOrigin) × (origins.convert_origin
                  ((xcm_config sdk para_id).origin_converter)
                  l
                  k
                ≡ some o)
              × (checks.passes ((nfts_config origins checks).create_origin) o ≡ true))
            ↔ ((a : origins.accounts.AccountId) × ActsAs origins l k a))
        × ((o : origins.RuntimeOrigin)
            → origins.convert_origin ((xcm_config sdk para_id).origin_converter) l k ≡ some o
            → (checks.passes ((xcmp_queue_config origins checks).controller_origin) o ≡ false)
              × (checks.passes ((nfts_config origins checks).force_origin) o ≡ false)
              × (checks.passes ((pallet_xcm_config sdk para_id).admin_origin) o ≡ false))
  privileged_transacts l k = (
    transact_updates_collators_iff origins checks l k,
    create_collection_iff l k,
    λ o h. (not_root l k o h, not_root l k o h, not_root l k o h),
  )
