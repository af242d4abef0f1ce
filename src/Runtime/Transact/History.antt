-- ===== src/Runtime/Transact/History.antt =====
-- A chain's messages from other chains that make calls of the template pallet, one after the other:
-- the origins of runtime/src/configs/xcm_config.rs with the pallet of pallets/template/src.
use nonfungible_adapter_tuto.Base.{ℕ, ◌≡◌, refl, inl, inr, Option, none, some, List, [], ◌∷◌, ◌++◌}
use nonfungible_adapter_tuto.Sdk.Xcm.{Location, OriginKind}
use nonfungible_adapter_tuto.Pallet.{
  Event, something_stored, Storage, Call, do_something_call, cause_error_call,
}
use nonfungible_adapter_tuto.Pallet.History.{
  Calls, run, announced-signed, announced-unsigned, announced-cause_error, all_announced,
  run-events,
}
use nonfungible_adapter_tuto.Runtime.Xcm.Origins.{
  OriginsApi, xcm_origin_to_transact_dispatch_origin,
}
use nonfungible_adapter_tuto.Runtime.Xcm.Origins.Dispatch.{transact_origin_iff}
use nonfungible_adapter_tuto.Runtime.Transact.{
  SignedApi, template_config, ActsAs, dispatched-ActsAs, signed_or_bad,
}

module _ {R : Type 0} (origins : OriginsApi R) (signers : SignedApi origins) where
  open origins use {accounts, RuntimeOrigin, convert_origin, signed}

  -- Where a message comes from, the kind of origin that it asks for, and its call.
  abbrev pub Transact : Type 0
  Transact = Location R × OriginKind × Call

  -- A message that has no origin is not dispatched.
  abbrev pub prepend :
      Option RuntimeOrigin
      → Call
      → Calls (template_config origins signers)
      → Calls (template_config origins signers)
  prepend none call calls = calls
  prepend (some o) call calls = (o, call) ∷ calls

  -- The calls that the messages are dispatched for.
  abbrev pub dispatched : List Transact → Calls (template_config origins signers)
  dispatched [] = []
  dispatched ((l, k, call) ∷ ms) =
      prepend (convert_origin (xcm_origin_to_transact_dispatch_origin origins) l k) call
        (dispatched ms)

  -- The events of a sequence of messages: one for each `do_something` of a message that acts as an
  -- account, for an account that it acts as.
  pub data Announces : List Transact → List (Event accounts.AccountId) → Type 0 where
    finished : Announces [] []
    announces :
        {l : Location R} {k : OriginKind} {a : accounts.AccountId} {bn : ℕ} {ms : List Transact}
        {es : List (Event accounts.AccountId)}
        → ActsAs origins l k a
        → Announces ms es
        → Announces ((l, k, do_something_call bn) ∷ ms) (something_stored bn a ∷ es)
    refused :
        {l : Location R} {k : OriginKind} {bn : ℕ} {ms : List Transact}
        {es : List (Event accounts.AccountId)}
        → ((a : accounts.AccountId) → ¬ (ActsAs origins l k a))
        → Announces ms es
        → Announces ((l, k, do_something_call bn) ∷ ms) es
    silent :
        {l : Location R} {k : OriginKind} {ms : List Transact}
        {es : List (Event accounts.AccountId)}
        → Announces ms es
        → Announces ((l, k, cause_error_call) ∷ ms) es

  -- A message that acts as an account has an origin, signed by it.
  acts_signed :
      (l : Location R) (k : OriginKind) (a : accounts.AccountId)
      → ActsAs origins l k a
      → convert_origin (xcm_origin_to_transact_dispatch_origin origins) l k ≡ some (signed a)
  acts_signed l k a acts =
      (transact_origin_iff origins l k (signed a)).1 (dispatched-ActsAs origins l k a acts)

  prepend-Announces :
      (l : Location R) (k : OriginKind) (bn : ℕ) (ms : List Transact)
      (calls : Calls (template_config origins signers)) (o : Option RuntimeOrigin)
      → convert_origin (xcm_origin_to_transact_dispatch_origin origins) l k ≡ o
      → Announces ms (all_announced (template_config origins signers) calls)
      → Announces
          ((l, k, do_something_call bn) ∷ ms)
          (all_announced (template_config origins signers) (prepend o (do_something_call bn) calls))
  prepend-Announces l k bn ms calls none e h =
      refused (λ a acts. let f = acts_signed l k a acts in cc) h
  prepend-Announces l k bn ms calls (some o) e h =
      elim (signed_or_bad origins signers l k o ((transact_origin_iff origins l k o).0 e)) [
        | inl (a, acts, f) ↦
            let by : signers.ensure_signed o ≡ inr a = rw f (signers.ensure_signed-signed a) in
            rw (announced-signed (template_config origins signers) o bn a by) (announces acts h)
        | inr (bad, f) ↦
            rw (announced-unsigned (template_config origins signers) o (do_something_call bn) bad f)
              (refused
                (λ a acts.
                  let g = acts_signed l k a acts in
                  let same : o ≡ signed a = cc in let by = signers.ensure_signed-signed a in cc)
                h)
      ]

  silent-Announces :
      (l : Location R) (k : OriginKind) (ms : List Transact)
      (calls : Calls (template_config origins signers)) (o : Option RuntimeOrigin)
      → Announces ms (all_announced (template_config origins signers) calls)
      → Announces
          ((l, k, cause_error_call) ∷ ms)
          (all_announced (template_config origins signers) (prepend o cause_error_call calls))
  silent-Announces l k ms calls none h = silent h
  silent-Announces l k ms calls (some o) h =
      rw (announced-cause_error (template_config origins signers) o) (silent h)

  dispatched-Announces :
      (ms : List Transact)
      → Announces ms (all_announced (template_config origins signers) (dispatched ms))
  dispatched-Announces [] = finished
  dispatched-Announces ((l, k, do_something_call bn) ∷ ms) =
      prepend-Announces l k bn ms (dispatched ms) _ refl (dispatched-Announces ms)
  dispatched-Announces ((l, k, cause_error_call) ∷ ms) =
      silent-Announces l k ms (dispatched ms) _ (dispatched-Announces ms)

  -- Whatever messages from other chains call the template pallet, one after the other, the events
  -- that they leave are, in order, one for each `do_something` of a message that acts as an
  -- account, with its argument and in the name of an account that it acts as; a message that acts
  -- as no account, and one for `cause_error`, leave none.
  pub dispatched-announced :
      (ms : List Transact) (s : Storage accounts.AccountId)
      → (es : List (Event accounts.AccountId)) × Announces ms es
        × ((run (template_config origins signers) (dispatched ms) s).1.events ≡ s.events ++ es)
  dispatched-announced ms s = (
    all_announced (template_config origins signers) (dispatched ms),
    dispatched-Announces ms,
    run-events (template_config origins signers) (dispatched ms) s,
  )
