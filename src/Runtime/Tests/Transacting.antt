-- ===== src/Runtime/Tests/Transacting.antt =====
-- A `Transact` of the template pallet's calls by a sibling parachain: accounts are numbers, and an
-- origin is signed or not.
use nonfungible_adapter_tuto.Base.{
  ℕ, ◌≡◌, ◌⊎◌, refl, ap, true, false, Result, inl, inr, none, some, List, [], ◌∷◌, ◌++◌, ok, err,
}
use nonfungible_adapter_tuto.Sdk.Xcm.{native, sovereign_account}
use nonfungible_adapter_tuto.Pallet.{
  Storage, Call, do_something_call, dispatch, something_stored, bad_origin, DispatchError, Event,
  cause_error_call,
}
use nonfungible_adapter_tuto.Pallet.History.{run}
use nonfungible_adapter_tuto.Pallet.Calls.{dispatch-do_something}
use nonfungible_adapter_tuto.Runtime.Xcm.Accounts.{parent, sibling}
use nonfungible_adapter_tuto.Runtime.Xcm.Origins.{xcm_origin_to_transact_dispatch_origin}
use nonfungible_adapter_tuto.Runtime.Xcm.Origins.Dispatch.{transact_origin_iff}
use nonfungible_adapter_tuto.Runtime.Xcm.Barrier.{barrier, admits-barrier_iff}
use nonfungible_adapter_tuto.Runtime.Xcm.Executor.{universal_location}
use nonfungible_adapter_tuto.Runtime.Transact.History.{
  Transact, Announces, dispatched, dispatched-announced,
}
use nonfungible_adapter_tuto.Runtime.Transact.Paid.{template_call_at_a_price}
use nonfungible_adapter_tuto.Runtime.Transact.{
  SignedApi, template_config, ActsAs, transact_do_something,
}
use nonfungible_adapter_tuto.Runtime.Tests.Locations.{accounts}
use nonfungible_adapter_tuto.Runtime.Tests.Messages.{barrier_api, Message}
use nonfungible_adapter_tuto.Runtime.Tests.Executor.{sdk}
use nonfungible_adapter_tuto.Runtime.Tests.Origins.{Origin, origins}

abbrev pub signer : Origin → (Unit {0}) ⊎ ℕ
signer (Origin.signed a) = inr a
signer _ = inl tt

abbrev pub signers : SignedApi origins
signers = record {
  BadOrigin = Unit {0};
  ensure_signed = signer;
  ensure_signed-signed = λ a. refl;
  ensure_signed-relay = (tt, refl);
  ensure_signed-sibling_para = λ id. (tt, refl);
  ensure_signed-xcm_origin = λ l. (tt, refl);
}

abbrev pub empty : Storage ℕ
empty = record { something = none; events = [] }

transact_do_something_example :
    ((a bn : ℕ)
      → ActsAs origins (sibling 1001) sovereign_account a
      → (o : Origin) × (xcm_origin_to_transact_dispatch_origin origins
            (sibling 1001)
            sovereign_account
          ≡ some o)
        × (dispatch (template_config origins signers) o (do_something_call bn) empty ≡ (
          ok tt,
          record {
            something = some (record { block_number = bn });
            events = something_stored bn a ∷ [];
          },
        )))
    × ((o : Origin) (call : Call)
        → xcm_origin_to_transact_dispatch_origin origins (sibling 1001) sovereign_account ≡ some o
        → ((a : ℕ) → ¬ (ActsAs origins (sibling 1001) sovereign_account a))
        → (bad : Unit {0}) × (dispatch (template_config origins signers) o call empty
            ≡ (err (bad_origin bad), empty)))
transact_do_something_example =
    transact_do_something origins signers (sibling 1001) sovereign_account empty

-- The sibling acts as its own account.
sibling_acts : ActsAs origins (sibling 1001) sovereign_account 1_001_001
sibling_acts = inl (refl, inr (inl (1001, refl, refl)))

-- The sibling pays for a `do_something`.
abbrev pub paying : Message
paying = record {
  from = sibling 1001;
  credit = false;
  buys = true;
  unpaid = false;
  to_relay_chain = false;
}

pub paying_enters : barrier_api.admits (barrier barrier_api (universal_location 1000)) paying ≡ true
paying_enters =
    (admits-barrier_iff barrier_api (universal_location 1000) paying).1
      (refl, inr (paying, refl, inl refl))

pub paying_converts :
    xcm_origin_to_transact_dispatch_origin origins (sibling 1001) sovereign_account
    ≡ some (Origin.signed 1_001_001)
paying_converts =
    (transact_origin_iff origins (sibling 1001) sovereign_account (Origin.signed 1_001_001)).1
      (1_001_001, inr (inl (1001, refl, refl)), refl)

paying_succeeds :
    (dispatch
      (template_config origins signers)
      (Origin.signed 1_001_001)
      (do_something_call 5)
      empty).0
    ≡ ok tt
paying_succeeds =
    let e =
      dispatch-do_something (template_config origins signers) (Origin.signed 1_001_001) 5 empty
        1_001_001 refl in
    ap (λ (x : Result (DispatchError (Unit {0})) (Unit {0}) × Storage ℕ). x.0) e

template_call_at_a_price_example :
    (a : ℕ) × ActsAs origins (sibling 1001) sovereign_account a
    × (Origin.signed 1_001_001 ≡ Origin.signed a)
    × ((paying.credit ≡ true)
        ⊎ (paying.buys ≡ true)
        ⊎ ((paying.unpaid ≡ true)
            × (sibling {R = ℕ} 1001 ≡ parent)
            × (sovereign_account ≡ sovereign_account)
            × ((a ≡ accounts.parent_account) ⊎ ((id : ℕ) × (a ≡ accounts.sibling_account id)))))
template_call_at_a_price_example =
    template_call_at_a_price sdk 1000 signers paying paying (sibling 1001) sovereign_account
      (Origin.signed 1_001_001) (do_something_call 5) empty paying_enters refl ([], refl)
      paying_converts paying_succeeds

-- The sibling as its own account, the sibling as a parachain, and the relay chain.
abbrev messages : List (Transact origins signers)
messages =
    (sibling 1001, sovereign_account, do_something_call 5)
    ∷ (sibling 1001, native, do_something_call 7)
    ∷ (parent, sovereign_account, cause_error_call)
    ∷ []

dispatched-announced_example :
    (es : List (Event ℕ)) × Announces origins signers messages es
    × ((run (template_config origins signers) (dispatched origins signers messages) empty).1.events
        ≡ [] ++ es)
dispatched-announced_example = dispatched-announced origins signers messages empty
