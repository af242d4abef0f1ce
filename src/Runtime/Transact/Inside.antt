-- ===== src/Runtime/Transact/Inside.antt =====
-- Which accounts messages act as that come from inside another chain: `LocationToAccountId` and
-- `XcmOriginToTransactDispatchOrigin` of runtime/src/configs/xcm_config.rs.
use nonfungible_adapter_tuto.Base.{ℕ, ◌≡◌, ◌⊎◌, inl, inr, arith, [], ◌∷◌}
use nonfungible_adapter_tuto.Sdk.Xcm.{BodyId, plurality, Location, OriginKind, sovereign_account}
use nonfungible_adapter_tuto.Runtime.Xcm.Accounts.{parent, sibling, Within}
use nonfungible_adapter_tuto.Runtime.Xcm.Origins.{OriginsApi}
use nonfungible_adapter_tuto.Runtime.Transact.{ActsAs}

module _ {R : Type 0} (origins : OriginsApi R) where
  open origins.accounts use {AccountId, parent_account, sibling_account}

  -- From inside the relay chain, a message acts as the account of the relay chain or of a sibling,
  -- and only where it asks for a sovereign account.
  pub acts_in_parent :
      (l : Location R) (k : OriginKind) (a : AccountId)
      → Within parent l
      → ActsAs origins l k a
      → (k ≡ sovereign_account) × ((a ≡ parent_account) ⊎ ((id : ℕ) × (a ≡ sibling_account id)))
  acts_in_parent l k a (inner, e) (inl (kind, inl (_, own))) = (kind, inl own)
  acts_in_parent l k a (inner, e) (inl (kind, inr (inl (id, _, own)))) = (kind, inr (id, own))
  acts_in_parent l k a (inner, e) (inl (_, inr (inr f))) = absurd (ground (arith))
  acts_in_parent l k a (inner, e) (inr (_, f)) = absurd (ground (arith))

  -- From inside a sibling, it acts as that sibling's account.
  pub acts_in_sibling :
      (id : ℕ) (l : Location R) (k : OriginKind) (a : AccountId)
      → Within (sibling id) l
      → ActsAs origins l k a
      → a ≡ sibling_account id
  acts_in_sibling id l k a (inner, e) (inl (_, inl (f, own))) = absurd (cc)
  acts_in_sibling id l k a (inner, e) (inl (_, inr (inl (id', f, own)))) =
      let same : id ≡ id' = cc in cc
  acts_in_sibling id l k a (inner, e) (inl (_, inr (inr f))) = absurd (ground (arith))
  acts_in_sibling id l k a (inner, e) (inr (_, f)) = absurd (ground (arith))

  -- From inside a body of the relay chain, it acts as no account.
  pub acts_in_body :
      (body : BodyId R) (part : R) (l : Location R) (k : OriginKind) (a : AccountId)
      → Within (record { parents = 1; interior = plurality body part ∷ [] }) l
      → ¬ (ActsAs origins l k a)
  acts_in_body body part l k a (inner, e) (inl (_, inl (f, own))) = absurd (cc)
  acts_in_body body part l k a (inner, e) (inl (_, inr (inl (id', f, own)))) = absurd (cc)
  acts_in_body body part l k a (inner, e) (inl (_, inr (inr f))) = absurd (ground (arith))
  acts_in_body body part l k a (inner, e) (inr (_, f)) = absurd (ground (arith))
