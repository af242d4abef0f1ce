-- ===== src/Runtime/Chain/Causes.antt =====
-- Who causes the events of the template pallet on the chain: extrinsics, calls that are nested in other
-- calls, and messages of the queues of runtime/src/configs/mod.rs, under the origins of
-- runtime/src/configs/xcm_config.rs.
use nonfungible_adapter_tuto.Runtime.Xcm.Accounts.{Within}
use nonfungible_adapter_tuto.Base.{
  ℕ, ◌≡◌, refl, sym, inl, inr, Sum-cases, true, some, List, [], ◌∷◌, ◌++◌, All, All-map, All-append,
}
use mathlib.Core.List.{Memᴰ, append-nil, append_assoc}
use mathlib.Core.List.Memᴰ.{append_left}
use nonfungible_adapter_tuto.Sdk.Numbers.{Numbers}
use nonfungible_adapter_tuto.Sdk.Xcm.{Location, OriginKind}
use nonfungible_adapter_tuto.Pallet.{
  Event, something_stored, Storage, Call, do_something_call, cause_error_call,
}
use nonfungible_adapter_tuto.Pallet.History.{
  announced, all_announced, dispatch-events, run-events, announced-signed, announced-unsigned,
  announced-cause_error,
}
use nonfungible_adapter_tuto.Runtime.Xcm.Executor.{xcm_config}
use nonfungible_adapter_tuto.Runtime.Transact.{template_config, ActsAs}
use nonfungible_adapter_tuto.Runtime.Transact.History.{dispatched}
use nonfungible_adapter_tuto.Runtime.Queues.{AggregateMessageOrigin}
use nonfungible_adapter_tuto.Runtime.Chain.{
  ChainSdk, State, Input, extrinsic, other_extrinsic, served, executed_overweight, nested_calls,
  Nests, Processed, drop, execute, Step, sign, dispatch_other, receive_downward, receive_horizontal,
  serve, skip, execute_overweight, reap, Steps, done, next,
}
use nonfungible_adapter_tuto.Runtime.Chain.Arrivals.{Handled}
use nonfungible_adapter_tuto.Runtime.Chain.Announced.{
  Announces-acts, merged, all_announced-dispatched,
}

module _ {n : Numbers} {R : Type 0} (chain : ChainSdk n R) where
  open chain use {sdk, para_id, signers, queues, executor}
  open sdk use {origins, gates}
  open executor use {into_location, decode}

  -- An event of an account is caused by an extrinsic that the account signs, by a call nested in another
  -- call, dispatched as signed by the account, or by a processed message that the barrier lets in
  -- and that acts as the account, from a location inside the one of its queue.
  pub data Causes (is : List (Input chain)) : Event origins.accounts.AccountId → Type 0 where
    signed :
        {a : origins.accounts.AccountId} {bn : ℕ}
        → Memᴰ (extrinsic a (do_something_call bn)) is
        → Causes is (something_stored bn a)
    nested :
        {a : origins.accounts.AccountId} {bn : ℕ} (i : Input chain)
        → Memᴰ i is
        → Nests chain a bn i
        → Causes is (something_stored bn a)
    sent :
        {a : origins.accounts.AccountId} {bn : ℕ} (q : AggregateMessageOrigin) (b : queues.Blob)
        (m : gates.Message) (l : Location R) (k : OriginKind)
        → Handled chain q b is
        → decode q b ≡ some m
        → gates.admits ((xcm_config sdk para_id).barrier) m ≡ true
        → Within (into_location q) l
        → ActsAs origins l k a
        → Causes is (something_stored bn a)

  -- Causes stay causes among more inputs.
  more-Causes :
      (is js : List (Input chain)) (e : Event origins.accounts.AccountId)
      → ((x : Input chain) → Memᴰ x is → Memᴰ x js)
      → Causes is e
      → Causes js e
  more-Causes is js e more (signed by) = signed (more _ by)
  more-Causes is js e more (nested i by o) = nested i (more _ by) o
  more-Causes is js e more (sent q b m l k (ns, by) read admitted within acts) =
      sent q b m l k
        (ns, elim by [ inl first ↦ inl (more _ first) | inr later ↦ inr (more _ later) ]) read
        admitted within acts

  announced-nested :
      (i : Input chain) (o : origins.RuntimeOrigin) (call : Call)
      → Memᴰ {A = origins.RuntimeOrigin × Call} (o, call) (nested_calls chain i)
      → All (Causes (i ∷ [])) (announced (template_config origins signers) o call)
  announced-nested i o (do_something_call bn) m = elim (Sum-cases (signers.ensure_signed o)) [
    | inl (bad, e) ↦
        rw (announced-unsigned (template_config origins signers) o (do_something_call bn) bad e) tt
    | inr (a, e) ↦
        rw (announced-signed (template_config origins signers) o bn a e)
          (nested i (Memᴰ.head refl) (o, m, e), tt)
  ]
  announced-nested i o cause_error_call m =
      rw (announced-cause_error (template_config origins signers) o) tt

  -- The events of nested calls are caused by them.
  all_announced-nested :
      (i : Input chain) (ns : List (origins.RuntimeOrigin × Call))
      → ((x : origins.RuntimeOrigin × Call) → Memᴰ x ns → Memᴰ x (nested_calls chain i))
      → All (Causes (i ∷ [])) (all_announced (template_config origins signers) ns)
  all_announced-nested i [] more = tt
  all_announced-nested i ((o, call) ∷ ns) more =
      All-append (Causes (i ∷ [])) (announced (template_config origins signers) o call)
        (all_announced (template_config origins signers) ns)
        (announced-nested i o call (more (o, call) (Memᴰ.head refl)))
        (all_announced-nested i ns (λ x m. more x (Memᴰ.tail m)))

  Processed-Causes :
      (i : Input chain) (q : AggregateMessageOrigin) (b : queues.Blob)
      (p p' : Storage origins.accounts.AccountId) (ns : List (origins.RuntimeOrigin × Call))
      → Handled chain q b (i ∷ [])
      → ns ≡ nested_calls chain i
      → Processed chain q b p ns p'
      → (es : List (Event origins.accounts.AccountId)) × All (Causes (i ∷ [])) es
        × (p'.events ≡ p.events ++ es)
  Processed-Causes i q b p p' ns handled same (drop _) = ([], tt, sym (append-nil p.events))
  Processed-Causes i q b p p' ns handled same (execute m ts _ calls read admitted executes merge) =
      let config = template_config origins signers in
      let inside = executor.executes_within (xcm_config sdk para_id) m ts refl refl executes in
      let acts =
        Announces-acts chain (Within (gates.origin m)) (all_announced-dispatched chain ts) inside in
      let from = executor.decode-origin q b m read in
      (
        all_announced config calls,
        merged chain (Causes (i ∷ [])) merge
            (All-map (all_announced config (dispatched origins signers ts))
              (λ e (bn, a, l, k, is_event, within, acting).
                rw is_event (sent q b m l k handled read admitted (rw (← from) within) acting))
              acts)
            (all_announced-nested i ns (λ x among. rw (← same) among)),
        run-events config calls p,
      )

  step-Causes :
      {s t : State chain} {i : Input chain}
      → Step chain s i t
      → (es : List (Event origins.accounts.AccountId)) × All (Causes (i ∷ [])) es
        × (t.template.events ≡ s.template.events ++ es)
  step-Causes {s} (sign a (do_something_call bn)) = (
    something_stored bn a ∷ [],
    (signed (Memᴰ.head refl), tt),
    rw
        (
          dispatch-events (template_config origins signers) (origins.signed a)
              (do_something_call bn) s.template,
          announced-signed (template_config origins signers) (origins.signed a) bn a
              (signers.ensure_signed-signed a),
        )
        refl,
  )
  step-Causes {s} (sign a cause_error_call) = (
    [],
    tt,
    rw
        (
          dispatch-events (template_config origins signers) (origins.signed a) cause_error_call
              s.template,
          announced-cause_error (template_config origins signers) (origins.signed a),
        )
        refl,
  )
  step-Causes {s} (receive_downward b) = ([], tt, sym (append-nil s.template.events))
  step-Causes {s} (receive_horizontal id b) = ([], tt, sym (append-nil s.template.events))
  step-Causes {s} (dispatch_other ns) = (
    all_announced (template_config origins signers) ns,
    all_announced-nested (other_extrinsic ns) ns (λ x m. m),
    run-events (template_config origins signers) ns s.template,
  )
  step-Causes {s} (serve q b bs ns p _ _ processed) =
      Processed-Causes (served q b ns) q b s.template p ns (ns, inl (Memᴰ.head refl)) refl processed
  step-Causes {s} (skip q b bs m _ _ _ _) = ([], tt, sym (append-nil s.template.events))
  step-Causes {s} (execute_overweight q b xs ys ns p _ _ processed) =
      Processed-Causes (executed_overweight q b ns) q b s.template p ns (ns, inr (Memᴰ.head refl))
        refl processed
  step-Causes {s} (reap q b xs ys _) = ([], tt, sym (append-nil s.template.events))

  -- Every event of a history has a cause in it.
  pub steps-Causes :
      {s t : State chain} {is : List (Input chain)}
      → Steps chain s is t
      → (es : List (Event origins.accounts.AccountId)) × All (Causes is) es
        × (t.template.events ≡ s.template.events ++ es)
  steps-Causes {s} done = ([], tt, sym (append-nil s.template.events))
  steps-Causes {s} (next {i} {is} first rest) =
      let (es, caused, added) = step-Causes first in
      let (es', caused', added') = steps-Causes rest in
      (
        es ++ es',
        All-append (Causes (i ∷ is)) es es'
            (All-map es (λ e c. more-Causes (i ∷ []) (i ∷ is) e (λ x m. append_left is m) c) caused)
            (All-map es' (λ e c. more-Causes is (i ∷ is) e (λ x m. Memᴰ.tail m) c) caused'),
        rw (added', added) (append_assoc s.template.events es es'),
      )
