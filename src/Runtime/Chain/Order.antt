-- ===== src/Runtime/Chain/Order.antt =====
-- The order in which the messages of runtime/src/configs/mod.rs's queues are taken off them.
use nonfungible_adapter_tuto.Base.{
  ◌≡◌, ◌≢◌, refl, sym, ap, ◌∙◌, List, [], ◌∷◌, only_if, only_if-yes, only_if-no, ◌++◌,
}
use package.native.Mathlib.Decide.{ℕ_discrete}
use mathlib.Core.List.{append-nil, append_assoc}
use nonfungible_adapter_tuto.Sdk.Numbers.{Numbers}
use nonfungible_adapter_tuto.Runtime.Queues.{
  AggregateMessageOrigin, parent, sibling, enqueue-dmp_queue, enqueue-inbound_xcmp_queue,
}
use nonfungible_adapter_tuto.Runtime.Chain.{
  ChainSdk, State, Input, extrinsic, other_extrinsic, downward, horizontal, served, set_aside,
  executed_overweight, reaped, Step, sign, dispatch_other, receive_downward, receive_horizontal,
  serve, skip, execute_overweight, reap, Steps, done, next,
}

abbrev pub origin_discrete : Discrete AggregateMessageOrigin
origin_discrete = hlevel (ℕ_discrete)

module _ {n : Numbers} {R : Type 0} (chain : ChainSdk n R) where
  open chain use {queues}
  open queues use {Blob, messages}

  -- A message, if it is one of the queue.
  pub of_queue : AggregateMessageOrigin → AggregateMessageOrigin → Blob → List Blob
  of_queue q p b = only_if (origin_discrete q p) b

  pub of_queue-same : (q : AggregateMessageOrigin) (b : Blob) → of_queue q q b ≡ b ∷ []
  unfolding of_queue
  of_queue-same q b = only_if-yes (origin_discrete q q) b refl

  pub of_queue-other : (q p : AggregateMessageOrigin) (b : Blob) → q ≢ p → of_queue q p b ≡ []
  unfolding of_queue
  of_queue-other q p b h = only_if-no (origin_discrete q p) b h

  -- The messages of a queue that arrive, and those that are taken off it, to be served or set aside: a
  -- message of the relay chain
  -- is one of the parent, and one of a parachain is one of that sibling.
  abbrev pub received : AggregateMessageOrigin → List (Input chain) → List Blob
  received q [] = []
  received q (downward b ∷ is) = of_queue q parent b ++ received q is
  received q (horizontal id b ∷ is) = of_queue q (sibling id) b ++ received q is
  received q (extrinsic _ _ ∷ is) = received q is
  received q (other_extrinsic _ ∷ is) = received q is
  received q (served _ _ _ ∷ is) = received q is
  received q (set_aside _ _ ∷ is) = received q is
  received q (executed_overweight _ _ _ ∷ is) = received q is
  received q (reaped _ _ ∷ is) = received q is

  abbrev pub taken_off : AggregateMessageOrigin → List (Input chain) → List Blob
  taken_off q [] = []
  taken_off q (served p b _ ∷ is) = of_queue q p b ++ taken_off q is
  taken_off q (set_aside p b ∷ is) = of_queue q p b ++ taken_off q is
  taken_off q (downward _ ∷ is) = taken_off q is
  taken_off q (horizontal _ _ ∷ is) = taken_off q is
  taken_off q (extrinsic _ _ ∷ is) = taken_off q is
  taken_off q (other_extrinsic _ ∷ is) = taken_off q is
  taken_off q (executed_overweight _ _ _ ∷ is) = taken_off q is
  taken_off q (reaped _ _ ∷ is) = taken_off q is

  enqueued :
      (q p : AggregateMessageOrigin) (b : Blob) (s : queues.Store)
      → messages (queues.enqueue_message queues.message_queue b p s) q
        ≡ messages s q ++ of_queue q p b
  enqueued q p b s = elim (origin_discrete q p) [
    | yes e ↦ rw (e, of_queue-same p b) (queues.messages-enqueue b p s)
    | no h ↦
        rw (of_queue-other q p b h, append-nil (messages s q))
          (queues.messages-enqueue_other b p q s h)
  ]

  popped :
      (q p : AggregateMessageOrigin) (b : Blob) (bs : List Blob) (s : queues.Store)
      → messages s p ≡ b ∷ bs
      → messages s q ≡ of_queue q p b ++ messages (queues.pop p s) q
  popped q p b bs s front = elim (origin_discrete q p) [
    | yes e ↦ rw (e, of_queue-same p b, queues.messages-pop p s b bs front) front
    | no h ↦ rw (of_queue-other q p b h) (sym (queues.messages-pop_other p q s h))
  ]

  -- One input: what a queue held and what arrived is what is taken off it and what it holds.
  step_in_order :
      {s t : State chain} {i : Input chain} (q : AggregateMessageOrigin)
      → Step chain s i t
      → taken_off q (i ∷ []) ++ messages t.store q ≡ messages s.store q ++ received q (i ∷ [])
  step_in_order {s} q (sign a call) = sym (append-nil (messages s.store q))
  step_in_order {s} q (dispatch_other ns) = sym (append-nil (messages s.store q))
  step_in_order {s} q (receive_downward b) =
      rw (enqueue-dmp_queue queues b s.store, append-nil (of_queue q parent b))
        (enqueued q parent b s.store)
  step_in_order {s} q (receive_horizontal id b) =
      rw (enqueue-inbound_xcmp_queue queues b id s.store, append-nil (of_queue q (sibling id) b))
        (enqueued q (sibling id) b s.store)
  step_in_order {s} q (serve p b bs ns t _ front _) =
      rw (append-nil (of_queue q p b), append-nil (messages s.store q))
        (sym (popped q p b bs s.store front))
  step_in_order {s} q (skip p b bs m _ front _ _) =
      rw (append-nil (of_queue q p b), append-nil (messages s.store q))
        (sym (popped q p b bs s.store front))
  step_in_order {s} q (execute_overweight _ _ _ _ _ _ _ _ _) = sym (append-nil (messages s.store q))
  step_in_order {s} q (reap _ _ _ _ _) = sym (append-nil (messages s.store q))

  pub taken_off-cons :
      (q : AggregateMessageOrigin) (i : Input chain) (is : List (Input chain))
      → taken_off q (i ∷ is) ≡ taken_off q (i ∷ []) ++ taken_off q is
  taken_off-cons q (served p b _) is = rw (append-nil (of_queue q p b)) refl
  taken_off-cons q (set_aside p b) is = rw (append-nil (of_queue q p b)) refl
  taken_off-cons q (other_extrinsic _) is = refl
  taken_off-cons q (executed_overweight _ _ _) is = refl
  taken_off-cons q (reaped _ _) is = refl
  taken_off-cons q (extrinsic _ _) is = refl
  taken_off-cons q (downward _) is = refl
  taken_off-cons q (horizontal _ _) is = refl

  received-cons :
      (q : AggregateMessageOrigin) (i : Input chain) (is : List (Input chain))
      → received q (i ∷ is) ≡ received q (i ∷ []) ++ received q is
  received-cons q (downward b) is = rw (append-nil (of_queue q parent b)) refl
  received-cons q (horizontal id b) is = rw (append-nil (of_queue q (sibling id) b)) refl
  received-cons q (extrinsic _ _) is = refl
  received-cons q (served _ _ _) is = refl
  received-cons q (other_extrinsic _) is = refl
  received-cons q (set_aside _ _) is = refl
  received-cons q (executed_overweight _ _ _) is = refl
  received-cons q (reaped _ _) is = refl

  -- In every sequence of steps, the messages that are taken off a queue, to be served or to be set
  -- aside as overweight, followed by those that the queue still holds, are those that it held at
  -- first, followed by those that are queued for it, in that order: none is taken off twice, out of
  -- turn or from the queue of another origin. When a message that was set aside is executed is
  -- not said.
  pub steps_in_order :
      {s t : State chain} {is : List (Input chain)} (q : AggregateMessageOrigin)
      → Steps chain s is t
      → taken_off q is ++ messages t.store q ≡ messages s.store q ++ received q is
  steps_in_order {s} q done = sym (append-nil (messages s.store q))
  steps_in_order {s} {t = u} q (next {t} {i} {is} first rest) =
      let one = step_in_order q first in
      let more = steps_in_order q rest in
      rw (taken_off-cons q i is, received-cons q i is)
        (append_assoc (taken_off q (i ∷ [])) (taken_off q is) (messages u.store q)
          ∙ ap (λ bs. taken_off q (i ∷ []) ++ bs) more
          ∙ sym (append_assoc (taken_off q (i ∷ [])) (messages t.store q) (received q is))
          ∙ ap (λ bs. bs ++ received q is) one
          ∙ append_assoc (messages s.store q) (received q (i ∷ [])) (received q is))
