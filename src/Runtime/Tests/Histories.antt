-- ===== src/Runtime/Tests/Histories.antt =====
-- A history of the chain: a sibling's message arrives and is set aside as overweight, an account signs an
-- extrinsic, the message is executed on demand, a call is dispatched inside another extrinsic, and
-- a message of the relay chain arrives.
use mathlib.Core.List.{Memᴰ}
use nonfungible_adapter_tuto.Base.{ℕ, ◌≡◌, ◌⊎◌, refl, List, [], ◌∷◌, choose-yes, ◌++◌}
use nonfungible_adapter_tuto.Sdk.Xcm.{Location, OriginKind, sovereign_account}
use nonfungible_adapter_tuto.Pallet.{Storage, Call, do_something_call, something_stored, dispatch}
use nonfungible_adapter_tuto.Pallet.History.{run}
use nonfungible_adapter_tuto.Runtime.Xcm.Accounts as Accounts
use nonfungible_adapter_tuto.Runtime.Transact.{template_config}
use nonfungible_adapter_tuto.Runtime.Transact.History.{dispatched}
use nonfungible_adapter_tuto.Runtime.Tests.Locations.{accounts}
use nonfungible_adapter_tuto.Runtime.Queues.{
  parent, sibling, dmp_queue, inbound_xcmp_queue, queue_paused_query,
}
use nonfungible_adapter_tuto.Runtime.Chain.{
  State, Input, extrinsic, other_extrinsic, horizontal, downward, set_aside, executed_overweight,
  Merge, neither, from_first, from_second, execute, sign, dispatch_other, receive_downward,
  receive_horizontal, skip, execute_overweight, Steps, done, next, genesis,
}
use nonfungible_adapter_tuto.Runtime.Chain.Order.{taken_off, received, steps_in_order}
use nonfungible_adapter_tuto.Runtime.Chain.Safety.{Admitted, Nested, event_causes}
use nonfungible_adapter_tuto.Runtime.Tests.Transacting.{
  signers, empty, paying, paying_enters, paying_converts,
}
use nonfungible_adapter_tuto.Runtime.Tests.Origins.{Origin, origins}
use nonfungible_adapter_tuto.Runtime.Tests.Chain.{queues, chain, origin_discrete}

abbrev inputs : List (Input chain)
inputs =
    horizontal 1001 paying
    ∷ set_aside (sibling 1001) paying
    ∷ extrinsic 7 (do_something_call 3)
    ∷ executed_overweight (sibling 1001) paying ((Origin.signed 8, do_something_call 4) ∷ [])
    ∷ other_extrinsic ((Origin.signed 9, do_something_call 6) ∷ [])
    ∷ downward paying
    ∷ []

abbrev calls : List (Location ℕ × OriginKind × Call)
calls = (Accounts.sibling 1001, sovereign_account, do_something_call 5) ∷ []

-- What the pallet holds after the message, and after all inputs.
abbrev executed : Storage ℕ
executed =
    (run (template_config origins signers)
      (dispatched origins signers calls ++ (Origin.signed 8, do_something_call 4) ∷ [])
      (dispatch (template_config origins signers) (Origin.signed 7) (do_something_call 3)
        empty).1).1

-- The state after these inputs.
abbrev last : State chain
last = record {
  store = queues.enqueue_message (dmp_queue queues) paying tt (
      queues.pop (sibling 1001)
        (queues.enqueue_message (inbound_xcmp_queue queues) paying 1001 (queues.empty)));
  overweight = [];
  template =
      (run (template_config origins signers) ((Origin.signed 9, do_something_call 6) ∷ [])
        executed).1;
}

Merge-append : {A : Type 0} (xs ys : List A) → Merge xs ys (xs ++ ys)
Merge-append [] [] = neither
Merge-append [] (y ∷ ys) = from_second (Merge-append [] ys)
Merge-append (x ∷ xs) ys = from_first (Merge-append xs ys)

history : Steps chain (genesis chain) inputs last
unfolding inbound_xcmp_queue queue_paused_query
history = next (receive_horizontal 1001 paying) (
    next
      (skip (sibling 1001) paying [] paying refl
        (choose-yes (origin_discrete (sibling 1001) (sibling 1001)) (paying ∷ []) [] refl) refl
        refl)
      (next (sign 7 (do_something_call 3)) (
        next
          (execute_overweight (sibling 1001) paying [] [] _ _ refl refl (
            execute paying calls _ _ refl paying_enters (refl, tt)
              (Merge-append (dispatched origins signers calls) _)))
          (next (dispatch_other _) (next (receive_downward paying) done)))))

steps_in_order_example :
    taken_off chain (sibling 1001) inputs ++ last.store (sibling 1001)
    ≡ [] ++ received chain (sibling 1001) inputs
steps_in_order_example = steps_in_order chain (sibling 1001) history

-- The event of the sibling's message is among those of the pallet.
announced : Memᴰ (something_stored 5 1_001_001) last.template.events
unfolding run dispatch
announced = rw (paying_converts) (Memᴰ.tail (Memᴰ.head refl))

event_causes_example :
    Memᴰ (extrinsic 1_001_001 (do_something_call 5)) inputs
    ⊎ Nested chain 1_001_001 5 inputs
    ⊎ (Admitted chain parent inputs
        × ((1_001_001 ≡ accounts.parent_account)
            ⊎ ((id : ℕ) × (1_001_001 ≡ accounts.sibling_account id))))
    ⊎ ((id : ℕ) × Admitted chain (sibling id) inputs × (1_001_001 ≡ accounts.sibling_account id))
event_causes_example = event_causes chain 5 1_001_001 history announced
