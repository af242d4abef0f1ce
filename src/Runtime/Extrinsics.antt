-- ===== src/Runtime/Extrinsics.antt =====
-- `TxExtension` of runtime/src/lib.rs: what an extrinsic goes through before it is dispatched. The
-- extensions are the SDK's; `ExtensionsApi` has what preparing one does.
use nonfungible_adapter_tuto.Base.{
  ◌≡◌, refl, sym, ◌∙◌, List, [], ◌∷◌, ◌++◌, Result, ok, err, All, arith,
}

-- `r.and_then(f)`
abbrev pub and_then : {E A B : Type 0} → Result E A → (A → Result E B) → Result E B
and_then (ok a) f = f a
and_then (err e) f = err e

and_then-ok :
    {E A B : Type 0} (r : Result E A) (f : A → Result E B) (b : B)
    → and_then r f ≡ ok b
    → (a : A) × (r ≡ ok a) × (f a ≡ ok b)
and_then-ok (ok a) f b h = (a, refl, h)
and_then-ok (err e) f b h = absurd (cc)

pub record ExtensionsApi : Type 1 where
  pub Extension : Type 0
  pub Extrinsic : Type 0
  pub State : Type 0
  pub Error : Type 0
  -- What every account owns.
  pub Balances : Type 0
  pub balances : State → Balances
  pub prepare : Extension → Extrinsic → State → Result Error State
  -- `frame_system`
  pub check_non_zero_sender : Extension
  pub check_spec_version : Extension
  pub check_tx_version : Extension
  pub check_genesis : Extension
  pub check_era : Extension
  pub check_nonce : Extension
  pub check_weight : Extension
  -- `pallet_transaction_payment` and `frame_metadata_hash_extension`
  pub charge_transaction_payment : Extension
  pub check_metadata_hash : Extension
  -- `cumulus_pallet_weight_reclaim`, which prepares what it wraps.
  pub storage_weight_reclaim : Extension → Extension
  pub tuple : List Extension → Extension
  pub prepare-storage_weight_reclaim :
      (e : Extension) (x : Extrinsic) (s : State)
      → prepare (storage_weight_reclaim e) x s ≡ prepare e x s
  -- A tuple prepares its parts in order, up to an error.
  pub prepare-tuple_nil : (x : Extrinsic) (s : State) → prepare (tuple []) x s ≡ ok s
  pub prepare-tuple_cons :
      (e : Extension) (es : List Extension) (x : Extrinsic) (s : State)
      → prepare (tuple (e ∷ es)) x s ≡ and_then (prepare e x s) (prepare (tuple es) x)
  -- The checks move no balance.
  pub checks_move_nothing :
      All
        (λ e. (x : Extrinsic) (s t : State) → prepare e x s ≡ ok t → balances t ≡ balances s)
        (check_non_zero_sender ∷ check_spec_version ∷ check_tx_version ∷ check_genesis ∷ check_era
          ∷ check_nonce ∷ check_weight ∷ check_metadata_hash ∷ [])

module _ (api : ExtensionsApi) where
  open api use {Extension, Extrinsic, State, balances, prepare, charge_transaction_payment}

  unfoldable pub tx_extension : Extension
  tx_extension = api.storage_weight_reclaim (
      api.tuple (
        api.check_non_zero_sender ∷ api.check_spec_version ∷ api.check_tx_version
        ∷ api.check_genesis ∷ api.check_era ∷ api.check_nonce ∷ api.check_weight
        ∷ charge_transaction_payment ∷ api.check_metadata_hash ∷ []))

  -- The checks before the payment.
  abbrev pub checks_before : List Extension
  checks_before =
      api.check_non_zero_sender ∷ api.check_spec_version ∷ api.check_tx_version ∷ api.check_genesis
      ∷ api.check_era ∷ api.check_nonce ∷ api.check_weight ∷ []

  -- An extension that moves no balance.
  abbrev MovesNothing : Extension → Type 0
  MovesNothing e = (x : Extrinsic) (s t : State) → prepare e x s ≡ ok t → balances t ≡ balances s

  prepare-tuple_first :
      (e : Extension) (es : List Extension) (x : Extrinsic) (s t : State)
      → prepare (api.tuple (e ∷ es)) x s ≡ ok t
      → (a : State) × (prepare e x s ≡ ok a) × (prepare (api.tuple es) x a ≡ ok t)
  prepare-tuple_first e es x s t h =
      and_then-ok (prepare e x s) (prepare (api.tuple es) x) t
        (sym (api.prepare-tuple_cons e es x s) ∙ h)

  prepare-tuple_append :
      (es fs : List Extension) (x : Extrinsic) (s t : State)
      → prepare (api.tuple (es ++ fs)) x s ≡ ok t
      → (u : State) × (prepare (api.tuple es) x s ≡ ok u) × (prepare (api.tuple fs) x u ≡ ok t)
  prepare-tuple_append [] fs x s t h = (s, api.prepare-tuple_nil x s, h)
  prepare-tuple_append (e ∷ es) fs x s t h =
      let (a, first, rest) = prepare-tuple_first e (es ++ fs) x s t h in
      let (u, others, last) = prepare-tuple_append es fs x a t rest in
      (u, api.prepare-tuple_cons e es x s ∙ (ground (arith, first, others)), last)

  tuple-MovesNothing : (es : List Extension) → All MovesNothing es → MovesNothing (api.tuple es)
  tuple-MovesNothing [] h x s t e = let nil = api.prepare-tuple_nil x s in ground (arith, nil)
  tuple-MovesNothing (f ∷ fs) (h, hs) x s t e =
      let (a, first, rest) = prepare-tuple_first f fs x s t e in
      tuple-MovesNothing fs hs x a t rest ∙ h x s a first

  -- An extrinsic that is accepted has passed all seven checks of the system, its nonce and its weight
  -- among them, before the fee was charged, and the check of the metadata after it; and the charge is
  -- the only step that moved a balance.
  pub accepted_after_payment :
      (x : Extrinsic) (s t : State)
      → prepare tx_extension x s ≡ ok t
      → (checked : State) × (paid : State) × (prepare (api.tuple checks_before) x s ≡ ok checked)
        × (prepare charge_transaction_payment x checked ≡ ok paid)
        × (prepare api.check_metadata_hash x paid ≡ ok t)
        × (balances checked ≡ balances s)
        × (balances t ≡ balances paid)
  unfolding tx_extension
  accepted_after_payment x s t h =
      let (a, (b, (c, (d, (e, (f, (g, (last, _)))))))) = api.checks_move_nothing in
      let (checked, before, after) =
        prepare-tuple_append checks_before
          (charge_transaction_payment ∷ api.check_metadata_hash ∷ []) x s t
          (sym (api.prepare-storage_weight_reclaim _ x s) ∙ h) in
      let (paid, charged, rest) =
        prepare-tuple_first charge_transaction_payment (api.check_metadata_hash ∷ []) x checked t
          after in
      let (final, hashed, nil) = prepare-tuple_first api.check_metadata_hash [] x paid t rest in
      let same : prepare api.check_metadata_hash x paid ≡ ok t =
        hashed ∙ sym (api.prepare-tuple_nil x final) ∙ nil in
      (
        checked,
        paid,
        before,
        charged,
        same,
        tuple-MovesNothing checks_before (a, (b, (c, (d, (e, (f, (g, tt))))))) x s checked before,
        last x paid t same,
      )
