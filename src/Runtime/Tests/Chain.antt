-- ===== src/Runtime/Tests/Chain.antt =====
-- A history of the chain: a sibling's message arrives, an account signs an extrinsic, and the message is
-- served. Queues are functions, handlers put a message into one, and parachain 9 is paused.
use package.native.Mathlib.Decide.{ℕ_discrete}
use mathlib.Core.List.{append-nil}
use nonfungible_adapter_tuto.Base.{
  ℕ, ◌≡◌, refl, inl, Bool, true, false, ◌==◌, some, List, [], ◌∷◌, choose, choose-yes, choose-no,
  ◌++◌, All,
}
use nonfungible_adapter_tuto.Sdk.Samples.{numbers}
use nonfungible_adapter_tuto.Sdk.Xcm.{Junction, Location, OriginKind}
use nonfungible_adapter_tuto.Pallet.{Call}
use nonfungible_adapter_tuto.Runtime.Xcm.Accounts as Accounts
use nonfungible_adapter_tuto.Runtime.Queues.{
  AggregateMessageOrigin, here, parent, sibling, QueuesApi,
}
use nonfungible_adapter_tuto.Runtime.Chain.{ExecutorApi, ChainSdk}
use nonfungible_adapter_tuto.Runtime.Tests.Messages.{Message}
use nonfungible_adapter_tuto.Runtime.Tests.Executor.{sdk}
use nonfungible_adapter_tuto.Runtime.Tests.Transacting.{signers}

abbrev Store : Type 0
Store = AggregateMessageOrigin → List Message

abbrev pub origin_discrete : Discrete AggregateMessageOrigin
origin_discrete = hlevel (ℕ_discrete)

abbrev put : Message → AggregateMessageOrigin → Store → Store
put b p s q = choose (origin_discrete q p) (s p ++ b ∷ []) (s q)

abbrev rest_of : List Message → List Message
rest_of [] = []
rest_of (b ∷ bs) = bs

abbrev take_off : AggregateMessageOrigin → Store → Store
take_off p s q = choose (origin_discrete q p) (rest_of (s p)) (s q)

abbrev narrowed : (ℕ → Store → Bool) → AggregateMessageOrigin → Store → Bool
narrowed p (sibling id) s = p id s
narrowed p _ s = false

abbrev pub queues : QueuesApi
queues = record {
  Blob = Message;
  Store = Store;
  empty = λ _. [];
  messages = λ s. s;
  EnqueueMessage = λ O. Message → O → Store → Store;
  enqueue_message = λ e. e;
  message_queue = put;
  pop = take_off;
  messages-empty = λ q. refl;
  messages-enqueue = λ b q s. choose-yes (origin_discrete q q) (s q ++ b ∷ []) (s q) refl;
  messages-enqueue_other = λ b p q s h. choose-no (origin_discrete q p) (s p ++ b ∷ []) (s q) h;
  messages-pop =
      λ q s b bs e. rw (choose-yes (origin_discrete q q) (rest_of (s q)) (s q) refl, e) refl;
  messages-pop_other = λ p q s h. choose-no (origin_discrete q p) (rest_of (s p)) (s q) h;
  enqueue_with_origin = λ e o b _ s. e b o s;
  transform_origin = λ e f b x s. e b (f x) s;
  para_id_to_sibling = sibling;
  enqueue-with_origin = λ e o b s. refl;
  enqueue-transform_origin = λ e f b x s. refl;
  para_id_to_sibling_lem = λ id. refl;
  QueuePausedQuery = λ O. O → Store → Bool;
  is_paused = λ p. p;
  xcmp_queue_paused = λ id _. id == 9;
  narrow_origin_to_sibling = narrowed;
  paused-narrow_sibling = λ p id s. refl;
  paused-narrow_parent = λ p s. refl;
  paused-narrow_here = λ p s. refl;
}

abbrev location_of : AggregateMessageOrigin → Location ℕ
location_of here = record { parents = 0; interior = [] }
location_of parent = Accounts.parent
location_of (sibling id) = Accounts.sibling id

-- The calls that a message may make: any, from its own location.
abbrev Calling : Location ℕ → Location ℕ × OriginKind × Call → Type 0
Calling l (from, kind, call) = from ≡ l

pub Calling-within :
    (l : Location ℕ) (ts : List (Location ℕ × OriginKind × Call))
    → All (Calling l) ts
    → All
        (λ t.
          (inner : List (Junction ℕ)) × (t.0
            ≡ record { parents = l.parents; interior = l.interior ++ inner }))
        ts
Calling-within l [] h = tt
Calling-within l ((from, kind, call) ∷ ts) (e, hs) =
    (([], rw (e, append-nil l.interior) refl), Calling-within l ts hs)

abbrev pub executor : (id : ℕ) → ExecutorApi sdk id queues
executor id = record {
  into_location = location_of;
  decode = λ q m. some (record {
    from = location_of q;
    credit = m.credit;
    buys = m.buys;
    unpaid = m.unpaid;
    to_relay_chain = m.to_relay_chain;
  });
  Executes = λ config m ts. All (Calling m.from) ts;
  into_location-parent = refl;
  into_location-sibling = λ id. refl;
  decode-origin = λ q b m e. cc;
  executes_within = λ config m ts _ _ h. Calling-within m.from ts h;
  Overweight = λ config m. m.buys ≡ true;
  executes_ends = λ config m. inl ([], tt);
}

abbrev pub chain : ChainSdk numbers ℕ
chain = record {
  sdk = sdk;
  para_id = 1000;
  signers = signers;
  queues = queues;
  executor = executor 1000;
}
