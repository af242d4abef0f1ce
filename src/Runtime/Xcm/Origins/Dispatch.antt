-- ===== src/Runtime/Xcm/Origins/Dispatch.antt =====
-- What each kind of message is dispatched as (`XcmOriginToTransactDispatchOrigin` of
-- runtime/src/configs/xcm_config.rs), in words of locations.
use nonfungible_adapter_tuto.Base.{
  ℕ, ◌≡◌, ◌≢◌, refl, sym, ◌↔◌, ◌⊎◌, inl, inr, first_some, eq-none, none, some, arith,
}
use nonfungible_adapter_tuto.Sdk.Xcm.{
  Location, OriginKind, native, sovereign_account, superuser, xcm,
}
use nonfungible_adapter_tuto.Runtime.Xcm.Accounts.{
  parent, sibling, local, location_to_account_id, OwnedBy, location_to_account_id_iff,
}
use nonfungible_adapter_tuto.Runtime.Xcm.Origins.{
  OriginsApi, xcm_origin_to_transact_dispatch_origin,
}

module _ {R : Type 0} (api : OriginsApi R) where
  open api use {accounts, RuntimeOrigin, OriginConverter, convert_origin}

  -- The origin that a message from `l` may ask for, in words of locations.
  abbrev pub DispatchedAs : Location R → OriginKind → RuntimeOrigin → Type 0
  DispatchedAs l sovereign_account o =
      (a : accounts.AccountId) × OwnedBy accounts l a × (o ≡ api.signed a)
  DispatchedAs l native o =
      ((l ≡ parent) × (o ≡ api.relay))
      ⊎ ((id : ℕ) × (l ≡ sibling id) × (o ≡ api.sibling_para id))
      ⊎ ((a : accounts.AccountId) × (l ≡ local accounts a) × (o ≡ api.signed a))
  DispatchedAs l xcm o = o ≡ api.xcm_origin l
  DispatchedAs l superuser o = ⊥

  convert-in_order :
      (l : Location R) (k : OriginKind)
      → convert_origin (xcm_origin_to_transact_dispatch_origin api) l k
        ≡ first_some
            (convert_origin
              (api.sovereign_signed_via_location (location_to_account_id accounts))
              l
              k)
            (first_some (convert_origin (api.relay_chain_as_native api.relay) l k) (
              first_some (convert_origin api.sibling_parachain_as_native l k) (
                first_some
                  (convert_origin (api.signed_account_id32_as_native none) l k)
                  (first_some (convert_origin api.xcm_passthrough l k) none))))
  unfolding xcm_origin_to_transact_dispatch_origin
  convert-in_order l k = simp (api.convert-converters_cons, api.convert-converters_nil) refl

  -- A converter that is asked for another kind than its own does not convert.
  sovereign_only :
      (c : accounts.Converter) (l : Location R) (k : OriginKind)
      → k ≢ sovereign_account
      → convert_origin (api.sovereign_signed_via_location c) l k ≡ none
  sovereign_only c l k h =
      eq-none _ _ (λ o. (api.convert-sovereign_signed c l k o).0) (λ o q. h q.0)

  xcm_only :
      (l : Location R) (k : OriginKind) → k ≢ xcm → convert_origin api.xcm_passthrough l k ≡ none
  xcm_only l k h = eq-none _ _ (λ o. (api.convert-xcm_passthrough l k o).0) (λ o q. h q.0)

  native_only :
      (l : Location R) (k : OriginKind)
      → k ≢ native
      → (convert_origin (api.relay_chain_as_native api.relay) l k ≡ none)
        × (convert_origin api.sibling_parachain_as_native l k ≡ none)
        × (convert_origin (api.signed_account_id32_as_native none) l k ≡ none)
  native_only l k h = (
    eq-none _ _ (λ o. (api.convert-relay_chain api.relay l k o).0) (λ o q. h q.0),
    eq-none _ _ (λ o. (api.convert-sibling_parachain l k o).0) (λ o q. h q.0),
    eq-none _ _ (λ o. (api.convert-signed_account_id32 none l k o).0) (λ o q. h q.0),
  )

  relay_only :
      (l : Location R) (k : OriginKind)
      → l ≢ parent
      → convert_origin (api.relay_chain_as_native api.relay) l k ≡ none
  relay_only l k h = eq-none _ _ (λ o. (api.convert-relay_chain api.relay l k o).0) (λ o q. h q.1)

  sibling_only :
      (l : Location R) (k : OriginKind)
      → ((id : ℕ) → l ≢ sibling id)
      → convert_origin api.sibling_parachain_as_native l k ≡ none
  sibling_only l k h = eq-none _ _ (λ o. (api.convert-sibling_parachain l k o).0) (λ o q. h q.1 q.2)

  -- The three converters for the native kind, of which at most one fits a location.
  native_iff :
      (l : Location R) (o : RuntimeOrigin)
      → (convert_origin (xcm_origin_to_transact_dispatch_origin api) l native ≡ some o)
        ↔ DispatchedAs l native o
  native_iff l o =
      let order = convert-in_order l native in
      let first = sovereign_only (location_to_account_id accounts) l native (λ q. cc) in
      let last = xcm_only l native (λ q. cc) in
      let r = api.convert-relay_chain api.relay l native o in
      let s = api.convert-sibling_parachain l native o in
      let a = api.convert-signed_account_id32 none l native o in
      (
        λ h. ground (arith, order, first, last, r, s, a),
        λ h. elim h [
          | inl (e, own) ↦ ground (arith, order, first, r.1 (refl, e, own))
          | inr (inl (id, e, own)) ↦
              ground (arith, order, first, relay_only l native (λ q. cc), s.1 (refl, id, e, own))
          | inr (inr (who, e, own)) ↦ ground (
            arith,
            order,
            first,
            relay_only l native (λ q. cc),
            sibling_only l native (λ id q. cc),
            a.1 (refl, who, inl e, own),
          )
        ],
      )

  -- A message from a location is dispatched as: for a sovereign account, the account of the location;
  -- natively, the relay chain, the sibling parachain or the local account that the location is; as
  -- XCM, the location itself; and not at all for a superuser.
  pub transact_origin_iff :
      (l : Location R) (k : OriginKind) (o : RuntimeOrigin)
      → (convert_origin (xcm_origin_to_transact_dispatch_origin api) l k ≡ some o)
        ↔ DispatchedAs l k o
  transact_origin_iff l native o = native_iff l o
  transact_origin_iff l sovereign_account o =
      let order = convert-in_order l sovereign_account in
      let rest = native_only l sovereign_account (λ q. cc) in
      let last = xcm_only l sovereign_account (λ q. cc) in
      let c =
        api.convert-sovereign_signed (location_to_account_id accounts) l sovereign_account o in
      (
        λ h.
            let (_, a, e, f) = c.0 (ground (arith, order, rest, last)) in
            (a, (location_to_account_id_iff accounts l a).0 e, f),
        λ (a, own, f).
            let e = c.1 (refl, a, (location_to_account_id_iff accounts l a).1 own, f) in
            ground (arith, order, e),
      )
  transact_origin_iff l xcm o =
      let order = convert-in_order l xcm in
      let first = sovereign_only (location_to_account_id accounts) l xcm (λ q. cc) in
      let rest = native_only l xcm (λ q. cc) in
      ground (arith, order, first, rest, api.convert-xcm_passthrough l xcm o)
  transact_origin_iff l superuser o =
      let order = convert-in_order l superuser in
      let first = sovereign_only (location_to_account_id accounts) l superuser (λ q. cc) in
      let rest = native_only l superuser (λ q. cc) in
      let last = xcm_only l superuser (λ q. cc) in ground (arith, order, first, rest, last)

  -- No message is dispatched as root.
  pub transact_origin_not_root :
      (l : Location R) (k : OriginKind)
      → convert_origin (xcm_origin_to_transact_dispatch_origin api) l k ≢ some api.root
  transact_origin_not_root l k h = not_root l k ((transact_origin_iff l k api.root).0 h)
    where
      not_root : (l : Location R) (k : OriginKind) → ¬ (DispatchedAs l k api.root)
      not_root l sovereign_account (a, _, e) = api.signed_differs a (sym e)
      not_root l native (inl (_, e)) = api.relay_differs (sym e)
      not_root l native (inr (inl (id, _, e))) = api.sibling_para_differs id (sym e)
      not_root l native (inr (inr (a, _, e))) = api.signed_differs a (sym e)
      not_root l xcm e = api.xcm_origin_differs l (sym e)
      not_root l superuser h = h
