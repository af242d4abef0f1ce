-- ===== src/Runtime/Queues.antt =====
-- The queues of messages from other chains, as runtime/src/configs/mod.rs puts them together:
-- `RelayOrigin`, `DmpQueue` of the parachain system, `XcmpQueue` of the XCMP queue, and the handlers
-- of the message queue. The pallets and the adapters between them are the SDK's; `QueuesApi` has what
-- their documentation says of them.
use nonfungible_adapter_tuto.Base.{ℕ, ◌≡◌, ◌≢◌, refl, Bool, false, List, [], ◌∷◌, ◌++◌}

-- Where a queued message comes from: this chain, the relay chain, or a sibling parachain.
pub data AggregateMessageOrigin : Type 0 where
  here parent : AggregateMessageOrigin
  sibling : ℕ → AggregateMessageOrigin

-- `Store` is what the pallets of the queues keep, and `messages` those of a queue that it has yet to
-- get to; `O` is the type of the origins that a handler takes messages from.
pub record QueuesApi : Type 1 where
  pub Blob : Type 0
  pub Store : Type 0
  pub empty : Store
  pub messages : Store → AggregateMessageOrigin → List Blob
  pub EnqueueMessage : Type 0 → Type 0
  pub enqueue_message : {O : Type 0} → EnqueueMessage O → Blob → O → Store → Store
  -- `MessageQueue`, which has a queue for each origin; `pop` moves on past
  -- the oldest message of one.
  pub message_queue : EnqueueMessage AggregateMessageOrigin
  pub pop : AggregateMessageOrigin → Store → Store
  pub messages-empty : (q : AggregateMessageOrigin) → messages empty q ≡ []
  pub messages-enqueue :
      (b : Blob) (q : AggregateMessageOrigin) (s : Store)
      → messages (enqueue_message message_queue b q s) q ≡ messages s q ++ b ∷ []
  pub messages-enqueue_other :
      (b : Blob) (p q : AggregateMessageOrigin) (s : Store)
      → q ≢ p
      → messages (enqueue_message message_queue b p s) q ≡ messages s q
  pub messages-pop :
      (q : AggregateMessageOrigin) (s : Store) (b : Blob) (bs : List Blob)
      → messages s q ≡ b ∷ bs
      → messages (pop q s) q ≡ bs
  pub messages-pop_other :
      (p q : AggregateMessageOrigin) (s : Store) → q ≢ p → messages (pop p s) q ≡ messages s q
  -- `EnqueueWithOrigin<E, O>` gives every message one origin, and `TransformOrigin<E, _, N, C>` the
  -- one that the conversion says; `ParaIdToSibling` makes a sibling of the id of a parachain.
  pub enqueue_with_origin : {O : Type 0} → EnqueueMessage O → O → EnqueueMessage (Unit {0})
  pub transform_origin : {O N : Type 0} → EnqueueMessage O → (N → O) → EnqueueMessage N
  pub para_id_to_sibling : ℕ → AggregateMessageOrigin
  pub enqueue-with_origin :
      {O : Type 0} (e : EnqueueMessage O) (o : O) (b : Blob) (s : Store)
      → enqueue_message (enqueue_with_origin e o) b tt s ≡ enqueue_message e b o s
  pub enqueue-transform_origin :
      {O N : Type 0} (e : EnqueueMessage O) (f : N → O) (b : Blob) (x : N) (s : Store)
      → enqueue_message (transform_origin e f) b x s ≡ enqueue_message e b (f x) s
  pub para_id_to_sibling_lem : (id : ℕ) → para_id_to_sibling id ≡ sibling id
  -- Whether a queue is paused; `XcmpQueue` answers for the channels of the parachains, and
  -- `NarrowOriginToSibling` asks it for the siblings, and pauses no other queue.
  pub QueuePausedQuery : Type 0 → Type 0
  pub is_paused : {O : Type 0} → QueuePausedQuery O → O → Store → Bool
  pub xcmp_queue_paused : QueuePausedQuery ℕ
  pub narrow_origin_to_sibling : QueuePausedQuery ℕ → QueuePausedQuery AggregateMessageOrigin
  pub paused-narrow_sibling :
      (p : QueuePausedQuery ℕ) (id : ℕ) (s : Store)
      → is_paused (narrow_origin_to_sibling p) (sibling id) s ≡ is_paused p id s
  pub paused-narrow_parent :
      (p : QueuePausedQuery ℕ) (s : Store) → is_paused (narrow_origin_to_sibling p) parent s ≡ false
  pub paused-narrow_here :
      (p : QueuePausedQuery ℕ) (s : Store) → is_paused (narrow_origin_to_sibling p) here s ≡ false

-- `RelayOrigin`
abbrev pub relay_origin : AggregateMessageOrigin
relay_origin = parent

module _ (queues : QueuesApi) where
  open queues use {
    Blob, Store, messages, EnqueueMessage, enqueue_message, message_queue, QueuePausedQuery,
    is_paused,
  }

  -- `DmpQueue`, for the messages of the relay chain.
  unfoldable pub dmp_queue : EnqueueMessage (Unit {0})
  dmp_queue = queues.enqueue_with_origin message_queue relay_origin

  -- `XcmpQueue` of the XCMP queue, for the messages of the sibling parachains.
  unfoldable pub inbound_xcmp_queue : EnqueueMessage ℕ
  inbound_xcmp_queue = queues.transform_origin message_queue (queues.para_id_to_sibling)

  -- `QueuePausedQuery` of the message queue.
  unfoldable pub queue_paused_query : QueuePausedQuery AggregateMessageOrigin
  queue_paused_query = queues.narrow_origin_to_sibling (queues.xcmp_queue_paused)

  -- A message of the relay chain is queued for the parent, and one of a sibling for that sibling.
  pub enqueue-dmp_queue :
      (b : Blob) (s : Store)
      → enqueue_message dmp_queue b tt s ≡ enqueue_message message_queue b parent s
  unfolding dmp_queue
  enqueue-dmp_queue b s = queues.enqueue-with_origin message_queue parent b s

  pub enqueue-inbound_xcmp_queue :
      (b : Blob) (id : ℕ) (s : Store)
      → enqueue_message inbound_xcmp_queue b id s ≡ enqueue_message message_queue b (sibling id) s
  unfolding inbound_xcmp_queue
  enqueue-inbound_xcmp_queue b id s =
      rw
        (
          queues.enqueue-transform_origin message_queue (queues.para_id_to_sibling) b id s,
          queues.para_id_to_sibling_lem id,
        )
        refl

  -- Only the queue of a sibling can be paused.
  pub parent_not_paused : (s : Store) → is_paused queue_paused_query parent s ≡ false
  unfolding queue_paused_query
  parent_not_paused s = queues.paused-narrow_parent (queues.xcmp_queue_paused) s
