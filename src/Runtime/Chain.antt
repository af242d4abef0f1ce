-- ===== src/Runtime/Chain.antt =====
-- The chain as its template pallet sees it: extrinsics, messages that are queued from other chains, and
-- messages that the message queue serves, sets aside as overweight, executes later on demand or
-- reaps, in any order. It joins the queues and the message processor of
-- runtime/src/configs/mod.rs, `XcmConfig` of runtime/src/configs/xcm_config.rs and the calls of
-- pallets/template/src/lib.rs. The executor is the SDK's; `ExecutorApi` has what its documentation says
-- of it. What root can do to the code or the raw storage of the runtime, with calls such as
-- `set_code` or `set_storage`, is not a step; nor is a message that the pallets of the queues discard
-- before they queue it.
pub mod Order
pub mod Arrivals
pub mod Announced
pub mod Causes
pub mod Safety
pub mod Overweight
pub mod Progress
use nonfungible_adapter_tuto.Base.{
  ℕ, ◌≡◌, ◌⊎◌, inr, true, false, Option, none, some, List, [], ◌∷◌, ◌++◌, All,
}
use mathlib.Core.List.{Memᴰ}
use nonfungible_adapter_tuto.Sdk.Numbers.{Numbers}
use nonfungible_adapter_tuto.Sdk.Xcm.{Junction, Location, OriginKind}
use nonfungible_adapter_tuto.Pallet.{Storage, Call, do_something_call, dispatch}
use nonfungible_adapter_tuto.Pallet.History.{run}
use nonfungible_adapter_tuto.Runtime.Xcm.Accounts.{Within}
use nonfungible_adapter_tuto.Runtime.Xcm.Accounts as Accounts
use nonfungible_adapter_tuto.Runtime.Xcm.Executor.{XcmSdk, XcmConfig, xcm_config, nothing}
use nonfungible_adapter_tuto.Runtime.Transact.{SignedApi, template_config}
use nonfungible_adapter_tuto.Runtime.Transact.History.{dispatched}
use nonfungible_adapter_tuto.Runtime.Queues.{
  AggregateMessageOrigin, parent, sibling, QueuesApi, dmp_queue, inbound_xcmp_queue,
  queue_paused_query,
}

-- `ProcessXcmMessage` over `XcmExecutor`: it reads a queued message, which comes from the
-- location of its queue, and executes it. The instructions that change the origin go to a
-- location inside it, or are ones that the configuration has to allow: universal origins and
-- aliases. `Executes config m ts` says that `m` ends, and that `ts` are the calls of the template
-- pallet that the `Transact`s it gets to ask for, each with the origin and the kind of its `Transact`; a
-- `Transact` of a call of another pallet is not among them. `Overweight config m` says that `m` needs
-- more weight, or nests deeper, than the message queue lets a message that it serves.
pub record ExecutorApi {n : Numbers} {R : Type 0} (sdk : XcmSdk n R) (para_id : ℕ)
    (queues : QueuesApi) : Type 1 where
  pub into_location : AggregateMessageOrigin → Location R
  pub decode : AggregateMessageOrigin → queues.Blob → Option sdk.gates.Message
  pub Executes :
      XcmConfig sdk para_id → sdk.gates.Message → List (Location R × OriginKind × Call) → Type 0
  pub into_location-parent : into_location parent ≡ Accounts.parent
  pub into_location-sibling : (id : ℕ) → into_location (sibling id) ≡ Accounts.sibling id
  pub decode-origin :
      (q : AggregateMessageOrigin) (b : queues.Blob) (m : sdk.gates.Message)
      → decode q b ≡ some m
      → sdk.gates.origin m ≡ into_location q
  pub executes_within :
      (config : XcmConfig sdk para_id) (m : sdk.gates.Message)
      (ts : List (Location R × OriginKind × Call))
      → config.universal_aliases ≡ nothing
      → config.aliasers ≡ nothing
      → Executes config m ts
      → All (λ t. Within (sdk.gates.origin m) t.0) ts
  pub Overweight : XcmConfig sdk para_id → sdk.gates.Message → Type 0
  pub executes_ends :
      (config : XcmConfig sdk para_id) (m : sdk.gates.Message)
      → ((ts : List (Location R × OriginKind × Call)) × Executes config m ts) ⊎ Overweight config m

-- The SDK that the chain stands on, and its id.
pub record ChainSdk (n : Numbers) (R : Type 0) : Type 1 where
  pub sdk : XcmSdk n R
  pub para_id : ℕ
  pub signers : SignedApi (sdk.origins)
  pub queues : QueuesApi
  pub executor : ExecutorApi sdk para_id queues

-- What the queues hold, the overweight messages that the message queue has set aside, and the
-- storage of the template pallet.
pub record ChainState (Account Store Blob : Type 0) : Type 0 where
  pub store : Store
  pub overweight : List (AggregateMessageOrigin × Blob)
  pub template : Storage Account

-- What happens. An account signs a call of the template pallet; another extrinsic is dispatched,
-- with the calls of the template pallet that are nested in it, as in a `sudo_as` of the sudo pallet,
-- each with the origin that it gets there; a message of the relay chain or of a sibling is queued;
-- the message queue serves the oldest message of a queue, with the nested calls of its
-- `Transact`s, or sets it aside; someone has a message that is set aside executed; or one is reaped.
pub data ChainInput (Account Origin Blob : Type 0) : Type 0 where
  extrinsic : Account → Call → ChainInput Account Origin Blob
  other_extrinsic : List (Origin × Call) → ChainInput Account Origin Blob
  downward : Blob → ChainInput Account Origin Blob
  horizontal : ℕ → Blob → ChainInput Account Origin Blob
  served : AggregateMessageOrigin → Blob → List (Origin × Call) → ChainInput Account Origin Blob
  set_aside : AggregateMessageOrigin → Blob → ChainInput Account Origin Blob
  executed_overweight :
      AggregateMessageOrigin → Blob → List (Origin × Call) → ChainInput Account Origin Blob
  reaped : AggregateMessageOrigin → Blob → ChainInput Account Origin Blob

-- The third list has the elements of the first two, each in their order.
pub data Merge {A : Type 0} : List A → List A → List A → Type 0 where
  neither : Merge [] [] []
  from_first : {x : A} {xs ys zs : List A} → Merge xs ys zs → Merge (x ∷ xs) ys (x ∷ zs)
  from_second : {x : A} {xs ys zs : List A} → Merge xs ys zs → Merge xs (x ∷ ys) (x ∷ zs)

module _ {n : Numbers} {R : Type 0} (chain : ChainSdk n R) where
  open chain use {sdk, para_id, signers, queues, executor}
  open sdk use {origins, gates}
  open origins use {RuntimeOrigin}
  open origins.accounts use {AccountId}
  open queues use {Blob, Store, messages, enqueue_message, pop, is_paused}
  open executor use {decode, Executes, Overweight}

  abbrev pub State : Type 0
  State = ChainState AccountId Store Blob

  abbrev pub Input : Type 0
  Input = ChainInput AccountId RuntimeOrigin Blob

  -- The calls of the template pallet that are nested in calls of other pallets.
  abbrev pub nested_calls : Input → List (RuntimeOrigin × Call)
  nested_calls (other_extrinsic ns) = ns
  nested_calls (served _ _ ns) = ns
  nested_calls (executed_overweight _ _ ns) = ns
  nested_calls _ = []

  -- One of them is a `do_something` whose origin is signed by an account.
  abbrev pub Nests : AccountId → ℕ → Input → Type 0
  Nests a bn i =
      (o : RuntimeOrigin) × Memᴰ {A = RuntimeOrigin × Call} (o, do_something_call bn)
        (nested_calls i)
      × (signers.ensure_signed o ≡ inr a)

  -- A message that cannot be read, or that the barrier keeps out, is dropped.
  abbrev pub Dropped : AggregateMessageOrigin → Blob → Type 0
  Dropped q b =
      (decode q b ≡ none)
      ⊎ ((m : gates.Message) × (decode q b ≡ some m)
          × (gates.admits ((xcm_config sdk para_id).barrier) m ≡ false))

  -- What the processing of a message does to the template pallet.
  pub data Processed (q : AggregateMessageOrigin) (b : Blob) (p : Storage AccountId)
      : List (RuntimeOrigin × Call) → Storage AccountId → Type 0 where
    drop : Dropped q b → Processed q b p [] p
    execute :
        (m : gates.Message) (ts : List (Location R × OriginKind × Call))
        (ns calls : List (RuntimeOrigin × Call))
        → decode q b ≡ some m
        → gates.admits ((xcm_config sdk para_id).barrier) m ≡ true
        → Executes (xcm_config sdk para_id) m ts
        → Merge (dispatched origins signers ts) ns calls
        → Processed q b p ns (run (template_config origins signers) calls p).1

  pub data Step (s : State) : Input → State → Type 0 where
    sign :
        (a : AccountId) (call : Call)
        → Step s (extrinsic a call) (record {
          store = s.store;
          overweight = s.overweight;
          template =
              (dispatch (template_config origins signers) (origins.signed a) call s.template).1;
        })
    dispatch_other :
        (ns : List (RuntimeOrigin × Call))
        → Step s (other_extrinsic ns) (record {
          store = s.store;
          overweight = s.overweight;
          template = (run (template_config origins signers) ns s.template).1;
        })
    receive_downward :
        (b : Blob)
        → Step s (downward b) (record {
          store = enqueue_message (dmp_queue queues) b tt s.store;
          overweight = s.overweight;
          template = s.template;
        })
    receive_horizontal :
        (id : ℕ) (b : Blob)
        → Step s (horizontal id b) (record {
          store = enqueue_message (inbound_xcmp_queue queues) b id s.store;
          overweight = s.overweight;
          template = s.template;
        })
    serve :
        (q : AggregateMessageOrigin) (b : Blob) (bs : List Blob) (ns : List (RuntimeOrigin × Call))
        (p : Storage AccountId)
        → is_paused (queue_paused_query queues) q s.store ≡ false
        → messages s.store q ≡ b ∷ bs
        → Processed q b s.template ns p
        → Step s
            (served q b ns)
            (record { store = pop q s.store; overweight = s.overweight; template = p })
    skip :
        (q : AggregateMessageOrigin) (b : Blob) (bs : List Blob) (m : gates.Message)
        → is_paused (queue_paused_query queues) q s.store ≡ false
        → messages s.store q ≡ b ∷ bs
        → decode q b ≡ some m
        → Overweight (xcm_config sdk para_id) m
        → Step s (set_aside q b) (record {
          store = pop q s.store;
          overweight = s.overweight ++ (q, b) ∷ [];
          template = s.template;
        })
    execute_overweight :
        (q : AggregateMessageOrigin) (b : Blob) (xs ys : List (AggregateMessageOrigin × Blob))
        (ns : List (RuntimeOrigin × Call)) (p : Storage AccountId)
        → is_paused (queue_paused_query queues) q s.store ≡ false
        → s.overweight ≡ xs ++ (q, b) ∷ ys
        → Processed q b s.template ns p
        → Step s
            (executed_overweight q b ns)
            (record { store = s.store; overweight = xs ++ ys; template = p })
    reap :
        (q : AggregateMessageOrigin) (b : Blob) (xs ys : List (AggregateMessageOrigin × Blob))
        → s.overweight ≡ xs ++ (q, b) ∷ ys
        → Step s
            (reaped q b)
            (record { store = s.store; overweight = xs ++ ys; template = s.template })

  -- The steps of a sequence of inputs, one after the other.
  pub data Steps : State → List Input → State → Type 0 where
    done : {s : State} → Steps s [] s
    next :
        {s t u : State} {i : Input} {is : List Input}
        → Step s i t
        → Steps t is u
        → Steps s (i ∷ is) u

  -- The chain at its genesis: no message queued or set aside, and nothing in the pallet.
  abbrev pub genesis : State
  genesis = record {
    store = queues.empty;
    overweight = [];
    template = record { something = none; events = [] };
  }
