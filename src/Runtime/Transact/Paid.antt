-- ===== src/Runtime/Transact/Paid.antt =====
-- What a message from another chain pays before it can make a call of the template pallet: the barrier
-- and the origins of runtime/src/configs/xcm_config.rs, with the pallet of pallets/template/src.
use nonfungible_adapter_tuto.Base.{ℕ, ◌≡◌, ◌⊎◌, inl, inr, true, some, ok, arith}
use nonfungible_adapter_tuto.Sdk.Numbers.{Numbers}
use nonfungible_adapter_tuto.Sdk.Xcm.{executive, Location, OriginKind, sovereign_account}
use nonfungible_adapter_tuto.Pallet.{Storage, Call, dispatch}
use nonfungible_adapter_tuto.Pallet.Calls.{dispatch-unsigned}
use nonfungible_adapter_tuto.Runtime.Xcm.Accounts.{parent, Within}
use nonfungible_adapter_tuto.Runtime.Transact.Inside.{acts_in_parent, acts_in_body}
use nonfungible_adapter_tuto.Runtime.Xcm.Origins.Dispatch.{transact_origin_iff}
use nonfungible_adapter_tuto.Runtime.Xcm.Barrier.{IsPrivileged, admits-barrier_iff}
use nonfungible_adapter_tuto.Runtime.Xcm.Executor.{XcmSdk, universal_location, xcm_config}
use nonfungible_adapter_tuto.Runtime.Transact.{SignedApi, template_config, ActsAs, signed_or_bad}

module _ {n : Numbers} {R : Type 0} (sdk : XcmSdk n R) (para_id : ℕ)
    (signers : SignedApi (sdk.origins)) where
  open sdk use {origins, gates}
  open origins.accounts use {AccountId, parent_account, sibling_account}

  -- From inside the two locations that have free execution, a message acts only as the account of
  -- the relay chain or of a sibling parachain, and comes from inside the parent.
  privileged_account :
      (from l : Location R) (k : OriginKind) (a : AccountId)
      → IsPrivileged gates (universal_location para_id) from
      → Within from l
      → ActsAs origins l k a
      → (from ≡ parent)
        × (k ≡ sovereign_account)
        × ((a ≡ parent_account) ⊎ ((id : ℕ) × (a ≡ sibling_account id)))
  privileged_account from l k a (inl e) within acts =
      let (kind, own) = acts_in_parent origins l k a (rw e at within) acts in (e, kind, own)
  privileged_account from l k a (inr (part, e)) within acts =
      absurd (acts_in_body origins executive part l k a (rw e at within) acts)

  -- A message that the barrier lets in, and of which a call of the template pallet succeeds that is
  -- dispatched from the origin that the barrier computes for it, or from inside that origin, acts as
  -- an account there; and it has credit for its weight, or buys its execution, or is one that
  -- asks for free execution, comes from the relay chain, asks for a sovereign account and acts as
  -- the relay chain's own account or as the account of a sibling parachain.
  pub template_call_at_a_price :
      (m m' : gates.Message) (l : Location R) (k : OriginKind) (o : origins.RuntimeOrigin)
      (call : Call) (s : Storage AccountId)
      → gates.admits ((xcm_config sdk para_id).barrier) m ≡ true
      → gates.computed (universal_location para_id) 8 (gates.without_topic m) ≡ some m'
      → Within (gates.origin m') l
      → origins.convert_origin ((xcm_config sdk para_id).origin_converter) l k ≡ some o
      → (dispatch (template_config origins signers) o call s).0 ≡ ok tt
      → (a : AccountId) × ActsAs origins l k a
        × (o ≡ origins.signed a)
        × ((gates.has_weight_credit (gates.without_topic m) ≡ true)
            ⊎ (gates.buys_execution m' ≡ true)
            ⊎ ((gates.asks_unpaid m' ≡ true)
                × (gates.origin m' ≡ parent)
                × (k ≡ sovereign_account)
                × ((a ≡ parent_account) ⊎ ((id : ℕ) × (a ≡ sibling_account id)))))
  template_call_at_a_price m m' l k o call s admitted computed within converted succeeds =
      let (_, ways) = (admits-barrier_iff gates (universal_location para_id) m).0 admitted in
      elim (signed_or_bad origins signers l k o ((transact_origin_iff origins l k o).0 converted)) [
        | inl (a, acts, e) ↦ (
          a,
          acts,
          e,
          elim ways [
            | inl credit ↦ inl credit
            | inr (x, f, inl buys) ↦ inr (inl (ground arith))
            | inr (x, f, inr (unpaid, privileged)) ↦
                let same : x ≡ m' = cc in
                let (from, kind, own) =
                  privileged_account (gates.origin m') l k a (rw (← same) privileged) within acts in
                inr (inr (ground arith, from, kind, own))
          ],
        )
        | inr (bad, e) ↦
            let failed = dispatch-unsigned (template_config origins signers) o call s bad e in
            absurd (ground (arith, failed))
      ]
