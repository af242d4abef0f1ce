-- ===== src/Runtime/Network/Accounts.antt =====
-- The messages that signed accounts send with the XCM pallet of runtime/src/configs/xcm_config.rs, and
-- what their calls of the template pallet do at another parachain that runs this runtime.
use nonfungible_adapter_tuto.Runtime.Xcm.Accounts.{Within}
use nonfungible_adapter_tuto.Base.{ℕ, ◌≡◌, refl, ◌∙◌, ◌⊎◌, inl, inr, none, some, ◌∷◌, err, arith}
use nonfungible_adapter_tuto.Sdk.Numbers.{Numbers}
use nonfungible_adapter_tuto.Sdk.Xcm.{Location, parachain, OriginKind}
use nonfungible_adapter_tuto.Pallet.{Storage, Call, dispatch, bad_origin}
use nonfungible_adapter_tuto.Runtime.Xcm.LocalOrigins.{local_origin_to_location}
use nonfungible_adapter_tuto.Runtime.Xcm.Accounts.{relay_network, local, sibling}
use nonfungible_adapter_tuto.Runtime.Xcm.Executor.{XcmSdk, xcm_config, pallet_xcm_config}
use nonfungible_adapter_tuto.Runtime.Transact.{
  SignedApi, template_config, ActsAs, transact_do_something,
}

-- `pallet_xcm::send` makes a message descend into the location of its sender, so that another
-- parachain sees it come from there.
pub record SendApi {n : Numbers} {R : Type 0} (sdk : XcmSdk n R) : Type 1 where
  pub seen_from_sibling : ℕ → Location R → Location R
  pub seen_from_sibling_lem :
      (id : ℕ) (l : Location R)
      → l.parents ≡ 0
      → seen_from_sibling id l ≡ record { parents = 1; interior = parachain id ∷ l.interior }

module _ {n : Numbers} {R : Type 0} (sdk : XcmSdk n R) (signers : SignedApi (sdk.origins))
    (sender : SendApi sdk) where
  open sdk use {origins, locals}

  -- No account at another parachain is that of an account here, nor of anything inside it.
  not_own_account :
      (id : ℕ) (b : origins.accounts.AccountId) (l from : Location R) (k : OriginKind)
      → l ≡ local origins.accounts b
      → Within (sender.seen_from_sibling id l) from
      → (a : origins.accounts.AccountId) → ¬ (ActsAs origins from k a)
  not_own_account id b l from k place (inner, e) a acts =
      let inside = sender.seen_from_sibling_lem id l (rw place refl) in
      let there : from ≡ record {
        parents = 1;
        interior = parachain id ∷ origins.accounts.account_id32 none b ∷ inner;
      } =
        e ∙ rw (inside, place) refl in
      elim acts [
        | inl (_, inl (f, _)) ↦ absurd (cc)
        | inl (_, inr (inl (id', f, _))) ↦ absurd (cc)
        | inl (_, inr (inr f)) ↦ absurd (ground (arith))
        | inr (_, f) ↦ absurd (ground (arith))
      ]

  -- Who can send a message with the XCM pallet of a parachain is a signed account or root. At another
  -- parachain, a message of root comes from the parachain that sends it. If that other parachain
  -- runs this runtime, then for a message of a signed account, wherever inside that account it
  -- goes with its origin and whatever kind of origin it asks for, every call of the template
  -- pallet that it is dispatched for fails with a bad origin and changes nothing.
  pub sent_by_account :
      (here id : ℕ) (o : origins.RuntimeOrigin) (l : Location R)
      → locals.try_origin ((pallet_xcm_config sdk id).send_xcm_origin) o ≡ some l
      → ((o ≡ origins.root) × (sender.seen_from_sibling id l ≡ sibling id))
        ⊎ (((a : origins.accounts.AccountId) × (o ≡ origins.signed a))
            × ((from : Location R) (k : OriginKind) (o' : origins.RuntimeOrigin) (call : Call)
                  (s : Storage origins.accounts.AccountId)
                → Within (sender.seen_from_sibling id l) from
                → origins.convert_origin ((xcm_config sdk here).origin_converter) from k ≡ some o'
                → (bad : signers.BadOrigin) × (dispatch (template_config origins signers) o' call s
                    ≡ (err (bad_origin bad), s))))
  unfolding local_origin_to_location
  sent_by_account here id o l h = elim ((locals.try-ensure_xcm_origin _ o l).0 h) [
    | inl converts ↦
        let (b, same, place) =
          (locals.convert-signed_to_account_id32 (relay_network origins.accounts) o l).0 converts in
        inr (
          (b, same),
          λ from k o' call s within converted.
              (transact_do_something origins signers from k s).1 o' call converted
                (not_own_account id b l from k place within),
        )
    | inr (_, root, place) ↦
        inl (root, rw (sender.seen_from_sibling_lem id l (rw place refl), place) refl)
  ]
