-- ===== src/Runtime/Chain/Announced.antt =====
-- The events that a message's calls of the template pallet of pallets/template/src/lib.rs announce on the
-- chain, and those of calls that are made in turn.
use nonfungible_adapter_tuto.Base.{
  ℕ, ◌≡◌, refl, sym, ◌∙◌, none, List, [], All, All-append, All-split,
}
use nonfungible_adapter_tuto.Sdk.Numbers.{Numbers}
use nonfungible_adapter_tuto.Sdk.Xcm.{Location, OriginKind}
use nonfungible_adapter_tuto.Pallet.{Event, something_stored, Call}
use nonfungible_adapter_tuto.Pallet.History.{announced, all_announced, run-events}
use nonfungible_adapter_tuto.Runtime.Transact.{template_config, ActsAs}
use nonfungible_adapter_tuto.Runtime.Transact.History.{
  Announces, finished, announces, refused, silent, dispatched, dispatched-announced,
}
use nonfungible_adapter_tuto.Runtime.Chain.{ChainSdk, Merge, neither, from_first, from_second}

module _ {n : Numbers} {R : Type 0} (chain : ChainSdk n R) where
  open chain use {sdk, signers}
  open sdk use {origins}

  -- The events of a message's calls are those of accounts that one of its origins acts as.
  pub Announces-acts :
      (P : Location R → Type 0) {ts : List (Location R × OriginKind × Call)}
      {es : List (Event origins.accounts.AccountId)}
      → Announces origins signers ts es
      → All (λ t. P t.0) ts
      → All
          (λ e.
            (bn : ℕ) × (a : origins.accounts.AccountId) × (l : Location R) × (k : OriginKind) × (e
              ≡ something_stored bn a)
            × P l
            × ActsAs origins l k a)
          es
  Announces-acts P finished h = tt
  Announces-acts P (announces acts rest) (p, h) =
      ((_, _, _, _, refl, p, acts), Announces-acts P rest h)
  Announces-acts P (refused _ rest) (_, h) = Announces-acts P rest h
  Announces-acts P (silent rest) (_, h) = Announces-acts P rest h

  -- What the merge of two sequences of calls announces is what they announce.
  pub merged :
      (P : Event origins.accounts.AccountId → Type 0)
      {xs ys zs : List (origins.RuntimeOrigin × Call)}
      → Merge xs ys zs
      → All P (all_announced (template_config origins signers) xs)
      → All P (all_announced (template_config origins signers) ys)
      → All P (all_announced (template_config origins signers) zs)
  merged P neither h h' = tt
  merged P (from_first {x} {xs} {zs} rest) h h' =
      let config = template_config origins signers in
      let (now, later) = All-split P (announced config x.0 x.1) (all_announced config xs) h in
      All-append P (announced config x.0 x.1) (all_announced config zs) now (merged P rest later h')
  merged P (from_second {x} {ys} {zs} rest) h h' =
      let config = template_config origins signers in
      let (now, later) = All-split P (announced config x.0 x.1) (all_announced config ys) h' in
      All-append P (announced config x.0 x.1) (all_announced config zs) now (merged P rest h later)

  -- The calls of a message announce what its `Transact`s announce.
  pub all_announced-dispatched :
      (ts : List (Location R × OriginKind × Call))
      → Announces origins signers ts
          (all_announced (template_config origins signers) (dispatched origins signers ts))
  all_announced-dispatched ts =
      let config = template_config origins signers in
      let (es, told, added) =
        dispatched-announced origins signers ts (record { something = none; events = [] }) in
      let all =
        run-events config (dispatched origins signers ts)
          (record { something = none; events = [] }) in
      let same : all_announced config (dispatched origins signers ts) ≡ es = sym all ∙ added in
      rw same told
