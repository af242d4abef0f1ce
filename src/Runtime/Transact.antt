-- ===== src/Runtime/Transact.antt =====
-- The template pallet in the runtime (`impl pallet_parachain_template::Config for Runtime` in
-- runtime/src/configs/mod.rs), and what a `Transact` of its calls from another chain does. Telling a
-- signed origin from the others is the SDK's; `SignedApi` has which are.
pub mod Inside
pub mod Paid
pub mod History
use nonfungible_adapter_tuto.Base.{
  ℕ, ◌≡◌, ◌≢◌, ◌⊎◌, refl, inl, inr, some, [], ◌∷◌, ◌++◌, ok, err, arith, u32_max,
}
use nonfungible_adapter_tuto.Sdk.Numbers.{Numbers}
use nonfungible_adapter_tuto.Sdk.Xcm.{
  Location, OriginKind, native, sovereign_account, superuser, xcm,
}
use nonfungible_adapter_tuto.Pallet.{
  Config, Storage, Call, do_something_call, dispatch, something_stored, bad_origin,
}
use nonfungible_adapter_tuto.Pallet.Weights.{WeightInfo, substrate_weight}
use nonfungible_adapter_tuto.Pallet.Calls.{dispatch-do_something, dispatch-unsigned}
use nonfungible_adapter_tuto.Runtime.Weights.{rocks_db_weight}
use nonfungible_adapter_tuto.Runtime.Xcm.Accounts.{local, OwnedBy}
use nonfungible_adapter_tuto.Runtime.Xcm.Origins.{
  OriginsApi, xcm_origin_to_transact_dispatch_origin,
}
use nonfungible_adapter_tuto.Runtime.Xcm.Origins.Dispatch.{DispatchedAs, transact_origin_iff}

-- `ensure_signed` of `frame_system` on the origins of the runtime.
pub record SignedApi {R : Type 0} (origins : OriginsApi R) : Type 1 where
  pub BadOrigin : Type 0
  pub ensure_signed : origins.RuntimeOrigin → BadOrigin ⊎ origins.accounts.AccountId
  pub ensure_signed-signed :
      (a : origins.accounts.AccountId) → ensure_signed (origins.signed a) ≡ inr a
  pub ensure_signed-relay : (bad : BadOrigin) × (ensure_signed origins.relay ≡ inl bad)
  pub ensure_signed-sibling_para :
      (id : ℕ) → (bad : BadOrigin) × (ensure_signed (origins.sibling_para id) ≡ inl bad)
  pub ensure_signed-xcm_origin :
      (l : Location R) → (bad : BadOrigin) × (ensure_signed (origins.xcm_origin l) ≡ inl bad)

-- `SubstrateWeight<Runtime>`, over the runtime's `DbWeight`.
abbrev pub template_weight_info : (n : Numbers) → WeightInfo n
template_weight_info n = substrate_weight n (rocks_db_weight n)

module _ {R : Type 0} (origins : OriginsApi R) where
  open origins use {accounts, signed}

  -- A message acts as an account: as the account that is the location's own, if it asks for a
  -- sovereign account, and natively as the account of this chain that the location is.
  abbrev pub ActsAs : Location R → OriginKind → accounts.AccountId → Type 0
  ActsAs l k a =
      ((k ≡ sovereign_account) × OwnedBy accounts l a) ⊎ ((k ≡ native) × (l ≡ local accounts a))

  pub dispatched-ActsAs :
      (l : Location R) (k : OriginKind) (a : accounts.AccountId)
      → ActsAs l k a
      → DispatchedAs origins l k (signed a)
  dispatched-ActsAs l k a (inl (kind, own)) = rw kind (a, own, refl)
  dispatched-ActsAs l k a (inr (kind, own)) = rw kind (inr (inr (a, own, refl)))

module _ {R : Type 0} (origins : OriginsApi R) (signers : SignedApi origins) where
  open origins use {accounts, RuntimeOrigin, convert_origin, signed}

  -- The runtime's block numbers are `u32`.
  abbrev pub template_config : Config
  template_config = record {
    AccountId = accounts.AccountId;
    Origin = RuntimeOrigin;
    BadOrigin = signers.BadOrigin;
    ensure_signed = signers.ensure_signed;
    max_block_number = u32_max;
    u32_fits = omega arith;
  }

  -- An origin that a message is dispatched with is signed by the account that it acts as, or by
  -- none.
  pub signed_or_bad :
      (l : Location R) (k : OriginKind) (o : RuntimeOrigin)
      → DispatchedAs origins l k o
      → ((a : accounts.AccountId) × ActsAs origins l k a × (o ≡ signed a))
        ⊎ ((bad : signers.BadOrigin) × (signers.ensure_signed o ≡ inl bad))
  signed_or_bad l sovereign_account o (a, own, e) = inl (a, inl (refl, own), e)
  signed_or_bad l native o (inl (_, e)) = inr (rw e (signers.ensure_signed-relay))
  signed_or_bad l native o (inr (inl (id, _, e))) =
      inr (rw e (signers.ensure_signed-sibling_para id))
  signed_or_bad l native o (inr (inr (a, own, e))) = inl (a, inr (refl, own), e)
  signed_or_bad l xcm o e = inr (rw e (signers.ensure_signed-xcm_origin l))
  signed_or_bad l superuser o h = absurd h

  -- A `Transact` of `do_something` by a message that acts as an account is dispatched, stores its
  -- block number and announces it for that account. Where a message acts as no account, every
  -- call of the pallet that it is dispatched for fails with a bad origin and changes nothing.
  pub transact_do_something :
      (l : Location R) (k : OriginKind) (s : Storage accounts.AccountId)
      → ((a : accounts.AccountId) (bn : ℕ)
          → ActsAs origins l k a
          → (o : RuntimeOrigin) × (convert_origin
                (xcm_origin_to_transact_dispatch_origin origins)
                l
                k
              ≡ some o)
            × (dispatch template_config o (do_something_call bn) s ≡ (
              ok tt,
              record {
                something = some (record { block_number = bn });
                events = s.events ++ something_stored bn a ∷ [];
              },
            )))
        × ((o : RuntimeOrigin) (call : Call)
            → convert_origin (xcm_origin_to_transact_dispatch_origin origins) l k ≡ some o
            → ((a : accounts.AccountId) → ¬ (ActsAs origins l k a))
            → (bad : signers.BadOrigin) × (dispatch template_config o call s
                ≡ (err (bad_origin bad), s)))
  transact_do_something l k s = (
    λ a bn acts. (
      signed a,
      (transact_origin_iff origins l k (signed a)).1 (dispatched-ActsAs origins l k a acts),
      dispatch-do_something template_config (signed a) bn s a (signers.ensure_signed-signed a),
    ),
    λ o call converted nobody.
        elim (signed_or_bad l k o ((transact_origin_iff origins l k o).0 converted)) [
          | inl (a, acts, _) ↦ absurd (nobody a acts)
          | inr (bad, e) ↦ (bad, dispatch-unsigned template_config o call s bad e)
        ],
  )
