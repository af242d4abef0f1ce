-- ===== src/Runtime/Chain/Safety.antt =====
-- What holds of every history of the chain of Runtime/Chain.antt from its genesis on.
use nonfungible_adapter_tuto.Runtime.Xcm.Accounts.{Within}
use nonfungible_adapter_tuto.Base.{ℕ, ◌≡◌, ◌⊎◌, inl, inr, true, some, List, [], All-mem}
use mathlib.Core.List.{Memᴰ}
use nonfungible_adapter_tuto.Sdk.Numbers.{Numbers}
use nonfungible_adapter_tuto.Sdk.Xcm.{Location, OriginKind}
use nonfungible_adapter_tuto.Pallet.{something_stored, do_something_call}
use nonfungible_adapter_tuto.Runtime.Xcm.Executor.{xcm_config}
use nonfungible_adapter_tuto.Runtime.Transact.{ActsAs}
use nonfungible_adapter_tuto.Runtime.Transact.Inside.{acts_in_parent, acts_in_sibling}
use nonfungible_adapter_tuto.Runtime.Queues.{AggregateMessageOrigin, here, parent, sibling}
use nonfungible_adapter_tuto.Runtime.Chain.{
  ChainSdk, State, Input, extrinsic, Nests, Steps, genesis,
}
use nonfungible_adapter_tuto.Runtime.Chain.Order.{received}
use nonfungible_adapter_tuto.Runtime.Chain.Arrivals.{received-here, handled_received}
use nonfungible_adapter_tuto.Runtime.Chain.Causes.{Causes, signed, nested, sent, steps-Causes}

module _ {n : Numbers} {R : Type 0} (chain : ChainSdk n R) where
  open chain use {sdk, para_id, queues, executor}
  open sdk use {origins, gates}
  open origins.accounts use {AccountId, parent_account, sibling_account}
  open executor use {decode}

  -- A call of `do_something` that is nested in a call of another pallet, and dispatched as
  -- signed by an account.
  abbrev pub Nested : AccountId → ℕ → List (Input chain) → Type 0
  Nested a bn is = (i : Input chain) × Memᴰ i is × Nests chain a bn i

  -- A message that has arrived for a queue, and that the barrier lets in.
  abbrev pub Admitted : AggregateMessageOrigin → List (Input chain) → Type 0
  Admitted q is =
      (b : queues.Blob) × Memᴰ b (received chain q is)
      × (m : gates.Message) × (decode q b ≡ some m)
      × (gates.admits ((xcm_config sdk para_id).barrier) m ≡ true)

  blame :
      (is : List (Input chain)) (q : AggregateMessageOrigin) (l : Location R) (k : OriginKind)
      (a : AccountId)
      → Admitted q is
      → Within (executor.into_location q) l
      → ActsAs origins l k a
      → (Admitted parent is × ((a ≡ parent_account) ⊎ ((id : ℕ) × (a ≡ sibling_account id))))
        ⊎ ((id : ℕ) × Admitted (sibling id) is × (a ≡ sibling_account id))
  blame is here l k a (b, m, _, _, _) within acts =
      absurd (none_here b (rw (← received-here chain is) m))
    where
      none_here : (b : queues.Blob) → ¬ (Memᴰ b [])
      none_here b h = elim h [ ]
  blame is parent l k a admitted within acts = inl (
    admitted,
    (acts_in_parent origins l k a (rw (executor.into_location-parent) at within) acts).1,
  )
  blame is (sibling id) l k a admitted within acts = inr (
    id,
    admitted,
    acts_in_sibling origins id l k a (rw (executor.into_location-sibling id) at within) acts,
  )

  -- Whatever extrinsics, arrivals and processed messages follow the genesis, in any order, with messages
  -- set aside as overweight, executed later and reaped, an event of the template pallet names an
  -- account that signed an extrinsic for it; or one as which a call of it is dispatched that is
  -- nested in a call of another pallet, as in a `sudo_as`; or the account of the relay chain or of
  -- a sibling parachain, and a message of the relay chain has arrived that the barrier lets in; or
  -- the account of a sibling parachain from which such a message has arrived. A change that root
  -- makes to the runtime's code or raw storage is not among the inputs.
  pub event_causes :
      {s : State chain} {is : List (Input chain)} (bn : ℕ) (a : AccountId)
      → Steps chain (genesis chain) is s
      → Memᴰ (something_stored bn a) s.template.events
      → Memᴰ (extrinsic a (do_something_call bn)) is
        ⊎ Nested a bn is
        ⊎ (Admitted parent is × ((a ≡ parent_account) ⊎ ((id : ℕ) × (a ≡ sibling_account id))))
        ⊎ ((id : ℕ) × Admitted (sibling id) is × (a ≡ sibling_account id))
  event_causes {s} {is} bn a run event =
      let (es, caused, added) = steps-Causes chain run in
      go (All-mem (Causes chain is) caused (rw (← added) event))
    where
      go :
          Causes chain is (something_stored bn a)
          → Memᴰ (extrinsic a (do_something_call bn)) is
            ⊎ Nested a bn is
            ⊎ (Admitted parent is × ((a ≡ parent_account) ⊎ ((id : ℕ) × (a ≡ sibling_account id))))
            ⊎ ((id : ℕ) × Admitted (sibling id) is × (a ≡ sibling_account id))
      go (signed by) = inl by
      go (nested i by o) = inr (inl (i, by, o))
      go (sent q b m l k by read admitted within acts) = inr (
          inr (
            blame is q l k a (b, handled_received chain q b run by, m, read, admitted) within acts))
