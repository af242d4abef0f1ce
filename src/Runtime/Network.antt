-- ===== src/Runtime/Network.antt =====
-- Several parachains that run this runtime, the relay chain and other parachains between them: what one
-- chain sends with `XcmRouter` of runtime/src/configs/xcm_config.rs arrives in the queue that
-- `XcmpQueue` of runtime/src/configs/mod.rs has for it at another. Carrying messages is the relay
-- chain's; it delivers to a parachain what a parachain has sent to it.
pub mod Views
pub mod Senders
pub mod Accounts
use mathlib.Core.List.{Memᴰ}
use nonfungible_adapter_tuto.Base.{ℕ, ◌≡◌, ◌⊎◌, Bool, false, List, [], ◌∷◌, ◌++◌, ok, update}
use nonfungible_adapter_tuto.Sdk.Numbers.{Numbers}
use nonfungible_adapter_tuto.Sdk.Xcm.{Location}
use nonfungible_adapter_tuto.Runtime.Xcm.Executor.{XcmSdk, xcm_config}
use nonfungible_adapter_tuto.Runtime.Xcm.Router.{Channel, xcmp}
use nonfungible_adapter_tuto.Runtime.Transact.{SignedApi}
use nonfungible_adapter_tuto.Runtime.Queues.{QueuesApi}
use nonfungible_adapter_tuto.Runtime.Chain.{
  ExecutorApi, ChainSdk, ChainState, ChainInput, horizontal, Step, genesis,
}

-- `runs` says which parachains run this runtime, and `encode` makes a message the bytes that are
-- sent.
pub record NetworkSdk (n : Numbers) (R : Type 0) : Type 1 where
  pub sdk : XcmSdk n R
  pub signers : SignedApi (sdk.origins)
  pub queues : QueuesApi
  pub executor : (id : ℕ) → ExecutorApi sdk id queues
  pub runs : ℕ → Bool
  pub encode : sdk.router.Message → queues.Blob

module _ {n : Numbers} {R : Type 0} (net : NetworkSdk n R) where
  open net use {sdk, signers, queues, runs, encode}
  open sdk use {origins, router}
  open queues use {Blob}

  -- The parachain with an id.
  abbrev pub chain : ℕ → ChainSdk n R
  chain id = record {
    sdk = sdk;
    para_id = id;
    signers = signers;
    queues = queues;
    executor = net.executor id;
  }

  -- Who sent a message that is on its way, by which channel.
  abbrev pub Packet : Type 0
  Packet = ℕ × Channel × Blob

  -- The states of the parachains, and the messages that they have sent.
  pub record Network : Type 0 where
    pub chains : ℕ → ChainState origins.accounts.AccountId queues.Store queues.Blob
    pub sent : List Packet

  -- Something happens at a parachain, or a parachain sends a message to a location.
  pub data Happening : Type 0 where
    at : ℕ → ChainInput origins.accounts.AccountId origins.RuntimeOrigin Blob → Happening
    sends : ℕ → Location R → router.Message → Happening

  -- A message from a parachain that runs this runtime arrives only where it has been sent.
  abbrev pub MayHappen :
      ℕ → ChainInput origins.accounts.AccountId origins.RuntimeOrigin Blob → List Packet → Type 0
  MayHappen j (horizontal i b) ps = (runs i ≡ false) ⊎ Memᴰ (i, xcmp j, b) ps
  MayHappen j _ ps = Unit

  pub data Move (s : Network) : Happening → Network → Type 0 where
    happen :
        (j : ℕ) (x : ChainInput origins.accounts.AccountId origins.RuntimeOrigin Blob)
        (u : ChainState origins.accounts.AccountId queues.Store queues.Blob)
        → MayHappen j x s.sent
        → Step (chain j) (s.chains j) x u
        → Move s (at j x) (record { chains = update s.chains j u; sent = s.sent })
    send :
        (i : ℕ) (d : Location R) (m : router.Message) (c : Channel)
        → router.send ((xcm_config sdk i).xcm_sender) d m ≡ ok c
        → Move s (sends i d m) (record {
          chains = s.chains;
          sent = s.sent ++ (i, c, encode (router.with_topic m)) ∷ [];
        })

  pub data Moves : Network → List Happening → Network → Type 0 where
    done : {s : Network} → Moves s [] s
    next :
        {s t u : Network} {h : Happening} {hs : List Happening}
        → Move s h t
        → Moves t hs u
        → Moves s (h ∷ hs) u

  -- All parachains at their genesis, and nothing sent.
  abbrev pub beginning : Network
  beginning = record { chains = λ id. genesis (chain id); sent = [] }
