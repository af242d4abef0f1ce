-- ===== src/Runtime/Chain/Arrivals.antt =====
-- The messages that arrive for the queues of runtime/src/configs/mod.rs, by where they come from, and
-- that a message that is served or executed has arrived.
use nonfungible_adapter_tuto.Base.{◌≡◌, ◌⊎◌, ℕ, refl, inl, inr, List, [], ◌∷◌, sym, ap, ◌++◌}
use mathlib.Core.List.{Memᴰ}
use mathlib.Core.List.Memᴰ.{append_left, append_right, append_cases, eq_of_singleton, not-nil}
use nonfungible_adapter_tuto.Sdk.Numbers.{Numbers}
use nonfungible_adapter_tuto.Pallet.{Call}
use nonfungible_adapter_tuto.Runtime.Queues.{AggregateMessageOrigin, here, parent, sibling}
use nonfungible_adapter_tuto.Runtime.Chain.{
  ChainSdk, State, Input, extrinsic, other_extrinsic, downward, horizontal, served, set_aside,
  executed_overweight, reaped, Step, sign, dispatch_other, receive_downward, receive_horizontal,
  serve, skip, execute_overweight, reap, Steps, done, next, genesis,
}
use nonfungible_adapter_tuto.Runtime.Chain.Order.{
  origin_discrete, of_queue, of_queue-same, of_queue-other, received, taken_off, taken_off-cons,
  steps_in_order,
}

module _ {n : Numbers} {R : Type 0} (chain : ChainSdk n R) where
  open chain use {sdk, queues}
  open sdk use {origins}
  open queues use {Blob, messages}

  abbrev Waiting : Type 0
  Waiting = AggregateMessageOrigin × Blob

  within_more : (x y : Waiting) (xs ys : List Waiting) → Memᴰ x (xs ++ ys) → Memᴰ x (xs ++ y ∷ ys)
  within_more x y xs ys m = elim (append_cases xs m) [
    | inl before ↦ append_left (y ∷ ys) before
    | inr after ↦ append_right xs (Memᴰ.tail after)
  ]

  -- A message that is set aside after a step was so before, or the step sets it aside.
  kept :
      {s t : State chain} {i : Input chain} (q : AggregateMessageOrigin) (b : Blob)
      → Step chain s i t
      → Memᴰ {A = Waiting} (q, b) t.overweight
      → Memᴰ {A = Waiting} (q, b) s.overweight ⊎ (i ≡ set_aside q b)
  kept q b (sign _ _) m = inl m
  kept q b (dispatch_other _) m = inl m
  kept q b (receive_downward _) m = inl m
  kept q b (receive_horizontal _ _) m = inl m
  kept q b (serve _ _ _ _ _ _ _ _) m = inl m
  kept {s} q b (skip p c _ _ _ _ _ _) m = elim (append_cases s.overweight m) [
    | inl before ↦ inl before
    | inr now ↦
        let e = eq_of_singleton now in
        let place : q ≡ p = ap (λ (x : Waiting). x.0) e in
        let bytes : b ≡ c = ap (λ (x : Waiting). x.1) e in inr (rw (place, bytes) refl)
  ]
  kept q b (execute_overweight p c xs ys _ _ _ e _) m =
      inl (rw e (within_more (q, b) (p, c) xs ys m))
  kept q b (reap p c xs ys e) m = inl (rw e (within_more (q, b) (p, c) xs ys m))

  -- What is executed on demand was set aside.
  held :
      {s t : State chain} {i : Input chain} (q : AggregateMessageOrigin) (b : Blob)
      (ns : List (origins.RuntimeOrigin × Call))
      → Step chain s i t
      → executed_overweight q b ns ≡ i
      → Memᴰ {A = Waiting} (q, b) s.overweight
  held q b ns (sign _ _) e = absurd (cc)
  held q b ns (dispatch_other _) e = absurd (cc)
  held q b ns (receive_downward _) e = absurd (cc)
  held q b ns (receive_horizontal _ _) e = absurd (cc)
  held q b ns (serve _ _ _ _ _ _ _ _) e = absurd (cc)
  held q b ns (skip _ _ _ _ _ _ _ _) e = absurd (cc)
  held q b ns (execute_overweight p c xs ys _ _ _ f _) e =
      let place : q ≡ p = cc in
      let bytes : b ≡ c = cc in rw (f, place, bytes) (append_right xs (Memᴰ.head refl))
  held q b ns (reap _ _ _ _ _) e = absurd (cc)

  executed_aside :
      {s t : State chain} {is : List (Input chain)} (q : AggregateMessageOrigin) (b : Blob)
      (ns : List (origins.RuntimeOrigin × Call))
      → Steps chain s is t
      → Memᴰ (executed_overweight q b ns) is
      → Memᴰ {A = Waiting} (q, b) s.overweight ⊎ Memᴰ (set_aside q b) is
  executed_aside q b ns done m = absurd (not-nil m)
  executed_aside q b ns (next first rest) (Memᴰ.head e) = inl (held q b ns first e)
  executed_aside q b ns (next first rest) (Memᴰ.tail m) = elim (executed_aside q b ns rest m) [
    | inl waiting ↦ elim (kept q b first waiting) [
      | inl before ↦ inl before
      | inr now ↦ inr (Memᴰ.head (sym now))
    ]
    | inr aside ↦ inr (Memᴰ.tail aside)
  ]

  taken_off-all :
      (q : AggregateMessageOrigin) (b : Blob) (i : Input chain) (is : List (Input chain))
      → Memᴰ b (taken_off chain q (i ∷ []))
      → Memᴰ i is
      → Memᴰ b (taken_off chain q is)
  taken_off-all q b i [] now m = absurd (not-nil m)
  taken_off-all q b i (j ∷ is) now (Memᴰ.head e) =
      rw (← e, taken_off-cons chain q i is) (append_left (taken_off chain q is) now)
  taken_off-all q b i (j ∷ is) now (Memᴰ.tail m) =
      rw (taken_off-cons chain q j is)
        (append_right (taken_off chain q (j ∷ [])) (taken_off-all q b i is now m))

  -- From the genesis on, only a message that has arrived for a queue is taken off it.
  taken_received :
      {s : State chain} {is : List (Input chain)} (q : AggregateMessageOrigin) (b : Blob)
      → Steps chain (genesis chain) is s
      → Memᴰ b (taken_off chain q is)
      → Memᴰ b (received chain q is)
  taken_received {s} {is} q b run m =
      let same = steps_in_order chain q run in
      let none = queues.messages-empty q in
      let all = append_left (messages s.store q) m in
      let same' : taken_off chain q is ++ messages s.store q ≡ received chain q is =
        rw same (rw none refl) in
      rw (← same') all

  -- A message is processed: it is served, or it is executed after it was set aside.
  abbrev pub Handled : AggregateMessageOrigin → Blob → List (Input chain) → Type 0
  Handled q b is =
      (ns : List (origins.RuntimeOrigin × Call)) × (Memᴰ (served q b ns) is
        ⊎ Memᴰ (executed_overweight q b ns) is)

  pub handled_received :
      {s : State chain} {is : List (Input chain)} (q : AggregateMessageOrigin) (b : Blob)
      → Steps chain (genesis chain) is s
      → Handled q b is
      → Memᴰ b (received chain q is)
  handled_received {s} {is} q b run (ns, inl m) =
      taken_received q b run
        (taken_off-all q b (served q b ns) is (rw (of_queue-same chain q b) (Memᴰ.head refl)) m)
  handled_received {s} {is} q b run (ns, inr m) = elim (executed_aside q b ns run m) [
    | inl waiting ↦ absurd (not-nil waiting)
    | inr aside ↦
        taken_received q b run (
          taken_off-all q b (set_aside q b) is (rw (of_queue-same chain q b) (Memᴰ.head refl))
            aside)
  ]

  -- No message arrives from this chain itself.
  pub received-here : (is : List (Input chain)) → received chain here is ≡ []
  received-here [] = refl
  received-here (downward b ∷ is) =
      rw (of_queue-other chain here parent b (λ e. cc)) (received-here is)
  received-here (horizontal id b ∷ is) =
      rw (of_queue-other chain here (sibling id) b (λ e. cc)) (received-here is)
  received-here (extrinsic _ _ ∷ is) = received-here is
  received-here (other_extrinsic _ ∷ is) = received-here is
  received-here (served _ _ _ ∷ is) = received-here is
  received-here (set_aside _ _ ∷ is) = received-here is
  received-here (executed_overweight _ _ _ ∷ is) = received-here is
  received-here (reaped _ _ ∷ is) = received-here is

  from_sibling :
      (id id' : ℕ) (b b' : Blob)
      → Memᴰ b (of_queue chain (sibling id) (sibling id') b')
      → (id ≡ id') × (b ≡ b')
  from_sibling id id' b b' m = elim (origin_discrete (sibling id) (sibling id')) [
    | yes e ↦
        let same = eq_of_singleton (rw (← e, of_queue-same chain (sibling id) b') at m) in
        (cc, same)
    | no h ↦ absurd (not-nil (rw (of_queue-other chain (sibling id) (sibling id') b' h) at m))
  ]

  from_parent : (id : ℕ) (b b' : Blob) → ¬ (Memᴰ b (of_queue chain (sibling id) parent b'))
  from_parent id b b' m = not-nil (rw (of_queue-other chain (sibling id) parent b' (λ e. cc)) at m)

  -- What is received from a sibling has arrived from it.
  pub received_horizontal :
      (id : ℕ) (b : Blob) (is : List (Input chain))
      → Memᴰ b (received chain (sibling id) is)
      → Memᴰ (horizontal id b) is
  received_horizontal id b [] m = absurd (not-nil m)
  received_horizontal id b (downward b' ∷ is) m =
      elim (append_cases (of_queue chain (sibling id) parent b') m) [
        | inl now ↦ absurd (from_parent id b b' now)
        | inr later ↦ Memᴰ.tail (received_horizontal id b is later)
      ]
  received_horizontal id b (horizontal id' b' ∷ is) m =
      elim (append_cases (of_queue chain (sibling id) (sibling id') b') m) [
        | inl now ↦ let (e, f) = from_sibling id id' b b' now in Memᴰ.head (cc)
        | inr later ↦ Memᴰ.tail (received_horizontal id b is later)
      ]
  received_horizontal id b (extrinsic _ _ ∷ is) m = Memᴰ.tail (received_horizontal id b is m)
  received_horizontal id b (other_extrinsic _ ∷ is) m = Memᴰ.tail (received_horizontal id b is m)
  received_horizontal id b (served _ _ _ ∷ is) m = Memᴰ.tail (received_horizontal id b is m)
  received_horizontal id b (set_aside _ _ ∷ is) m = Memᴰ.tail (received_horizontal id b is m)
  received_horizontal id b (executed_overweight _ _ _ ∷ is) m =
      Memᴰ.tail (received_horizontal id b is m)
  received_horizontal id b (reaped _ _ ∷ is) m = Memᴰ.tail (received_horizontal id b is m)
