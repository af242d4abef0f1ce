-- ===== src/Runtime/Tests/Networks.antt =====
-- A network of parachains 1000 and 1001: 1001 sends a message to 1000, which serves it.
use package.native.Mathlib.Decide.{ℕ_discrete}
use mathlib.Core.List.{Memᴰ}
use nonfungible_adapter_tuto.Runtime.Xcm.Accounts.{Within}
use nonfungible_adapter_tuto.Base.{
  ℕ, ◌≡◌, ◌⊎◌, refl, inl, inr, err, true, ◌==◌, ◌||◌, some, List, [], ◌∷◌, choose-yes, update,
}
use nonfungible_adapter_tuto.Sdk.Samples.{numbers}
use nonfungible_adapter_tuto.Sdk.Xcm.{Location, parachain, OriginKind, sovereign_account}
use nonfungible_adapter_tuto.Pallet.{
  Call, do_something_call, something_stored, dispatch, Storage, bad_origin,
}
use nonfungible_adapter_tuto.Pallet.History.{run}
use nonfungible_adapter_tuto.Runtime.Xcm.Accounts as Accounts
use nonfungible_adapter_tuto.Runtime.Xcm.LocalOrigins.{local_origin_to_location}
use nonfungible_adapter_tuto.Runtime.Xcm.Barrier.{barrier}
use nonfungible_adapter_tuto.Runtime.Xcm.Executor.{universal_location}
use nonfungible_adapter_tuto.Runtime.Xcm.Router.{xcmp}
use nonfungible_adapter_tuto.Runtime.Transact.{template_config}
use nonfungible_adapter_tuto.Runtime.Transact.History.{dispatched}
use nonfungible_adapter_tuto.Runtime.Tests.Origins.{Origin, origins, locals, seventh_placed}
use nonfungible_adapter_tuto.Runtime.Queues.{
  parent, sibling, inbound_xcmp_queue, queue_paused_query,
}
use nonfungible_adapter_tuto.Runtime.Chain.{
  ChainState, ChainInput, Nests, extrinsic, horizontal, served, receive_horizontal, serve, execute,
}
use nonfungible_adapter_tuto.Runtime.Chain.Safety.{Admitted}
use nonfungible_adapter_tuto.Runtime.Chain.Progress.{Merge-nil}
use nonfungible_adapter_tuto.Runtime.Network.{
  NetworkSdk, chain, Network, Happening, at, sends, Moves, happen, send, done, next, beginning,
}
use nonfungible_adapter_tuto.Runtime.Network.Views.{view}
use nonfungible_adapter_tuto.Runtime.Network.Senders.{SentBy, event_senders}
use nonfungible_adapter_tuto.Runtime.Tests.Locations.{accounts}
use nonfungible_adapter_tuto.Runtime.Network.Accounts.{SendApi, sent_by_account}
use nonfungible_adapter_tuto.Runtime.Xcm.Accounts.{local}
use nonfungible_adapter_tuto.Runtime.Xcm.Origins.{xcm_origin_to_transact_dispatch_origin}
use nonfungible_adapter_tuto.Runtime.Tests.Messages.{Message, barrier_api}
use nonfungible_adapter_tuto.Runtime.Tests.Executor.{sdk, sent_across}
use nonfungible_adapter_tuto.Runtime.Tests.Transacting.{
  signers, empty, paying, paying_enters, paying_converts,
}
use nonfungible_adapter_tuto.Runtime.Tests.Chain.{queues, executor, origin_discrete}

abbrev net : NetworkSdk numbers ℕ
net = record {
  sdk = sdk;
  signers = signers;
  queues = queues;
  executor = executor;
  runs = λ id. id == 1000 || id == 1001;
  encode = λ _. paying;
}

abbrev happenings : List (Happening net)
happenings =
    sends 1001 (Accounts.sibling 1000) 4
    ∷ at 1000 (horizontal 1001 paying)
    ∷ at 1000 (served (sibling 1001) paying [])
    ∷ []

-- The states of parachain 1000 after the arrival and after the message is served.
abbrev arrived : ChainState ℕ (queues.Store) Message
arrived = record {
  store = queues.enqueue_message (inbound_xcmp_queue queues) paying 1001 (queues.empty);
  overweight = [];
  template = empty;
}

abbrev calls : List (Location ℕ × OriginKind × Call)
calls = (Accounts.sibling 1001, sovereign_account, do_something_call 5) ∷ []

arrived_at : update (beginning net).chains 1000 arrived 1000 ≡ arrived
arrived_at = choose-yes (ℕ_discrete 1000 1000) arrived ((beginning net).chains 1000) refl

abbrev served_from : ChainState ℕ (queues.Store) Message → ChainState ℕ (queues.Store) Message
served_from s = record {
  store = queues.pop (sibling 1001) s.store;
  overweight = s.overweight;
  template =
      (run (template_config origins signers) (dispatched origins signers calls) s.template).1;
}

abbrev last : Network net
last = record {
  chains =
      let one = update (beginning net).chains 1000 arrived in
      update one 1000 (served_from (one 1000));
  sent = (1001, xcmp 1000, paying) ∷ [];
}

moves : Moves net (beginning net) happenings last
unfolding inbound_xcmp_queue queue_paused_query
moves = next (send 1001 (Accounts.sibling 1000) 4 (xcmp 1000) sent_across) (
    next
      (happen 1000 (horizontal 1001 paying) _ (inr (Memᴰ.head refl))
        (receive_horizontal 1001 paying))
      (next
        (happen 1000 (served (sibling 1001) paying []) _ tt (
          serve (sibling 1001) paying [] [] _ refl
            (rw arrived_at
              (choose-yes (origin_discrete (sibling 1001) (sibling 1001)) (paying ∷ []) [] refl))
            (execute paying calls [] _ refl paying_enters (refl, tt) (Merge-nil _))))
        done))

announced : Memᴰ (something_stored 5 1_001_001) (last.chains 1000).template.events
unfolding run dispatch
announced =
    rw
      (
        choose-yes (ℕ_discrete 1000 1000)
            (served_from (update (beginning net).chains 1000 arrived 1000))
            (update (beginning net).chains 1000 arrived 1000) refl,
        arrived_at,
        paying_converts,
      )
      (Memᴰ.head refl)

event_senders_example :
    Memᴰ (at 1000 (extrinsic 1_001_001 (do_something_call 5))) happenings
    ⊎ ((x : ChainInput ℕ Origin Message) × Memᴰ (at 1000 x) happenings
        × Nests (chain net 1000) 1_001_001 5 x)
    ⊎ (Admitted (chain net 1000) parent (view net 1000 happenings)
        × ((1_001_001 ≡ accounts.parent_account)
            ⊎ ((id : ℕ) × (1_001_001 ≡ accounts.sibling_account id))))
    ⊎ ((i : ℕ) × (1_001_001 ≡ accounts.sibling_account i)
        × (b : Message) × Memᴰ (at 1000 (horizontal i b)) happenings
        × ((m : Message) × ((executor 1000).decode (sibling i) b ≡ some m)
            × (barrier_api.admits (barrier barrier_api (universal_location 1000)) m ≡ true))
        × ((net.runs i ≡ true) → SentBy net i 1000 b happenings))
event_senders_example = event_senders net 1000 5 1_001_001 moves announced

-- Another parachain sees a place of this chain inside the sibling that this chain is.
abbrev sender : SendApi sdk
sender = record {
  seen_from_sibling = λ id l. record { parents = 1; interior = parachain id ∷ l.interior };
  seen_from_sibling_lem = λ id l h. refl;
}

-- Account 7 of parachain 1001.
abbrev seventh : Location ℕ
seventh = record { parents = 1; interior = parachain 1001 ∷ (local accounts 7).interior }

sent_by_account_example :
    ((Origin.signed 7 ≡ Origin.root)
      × (sender.seen_from_sibling 1001 (local accounts 7) ≡ Accounts.sibling 1001))
    ⊎ (((a : ℕ) × (Origin.signed 7 ≡ Origin.signed a))
        × ((from : Location ℕ) (k : OriginKind) (o : Origin) (call : Call) (s : Storage ℕ)
            → Within seventh from
            → xcm_origin_to_transact_dispatch_origin origins from k ≡ some o
            → (bad : Unit {0}) × (dispatch (template_config origins signers) o call s
                ≡ (err (bad_origin bad), s))))
sent_by_account_example =
    sent_by_account sdk signers sender 1000 1001 (Origin.signed 7) (local accounts 7) (
      (locals.try-ensure_xcm_origin (local_origin_to_location origins locals) (Origin.signed 7)
          (local accounts 7)).1
        (inl seventh_placed))
