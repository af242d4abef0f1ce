-- ===== src/Runtime/Xcm/Barrier.antt =====
-- `Barrier` of runtime/src/configs/xcm_config.rs: which incoming messages may be executed. The
-- building blocks are the SDK's; the record `BarrierApi` has what their documentation says of them,
-- and what is modelled is how the runtime puts them together.
use nonfungible_adapter_tuto.Base.{
  ℕ, ◌≡◌, refl, ◌∙◌, Option-cases, Bool-cases, ◌↔◌, ◌⊎◌, inl, inr, Bool, true, false, ◌&&◌, ◌||◌,
  Option, none, some, List, [], ◌∷◌, arith,
}
use mathlib.Core.Bool.{not}
use nonfungible_adapter_tuto.Sdk.Xcm.{executive, plurality, Location}
use nonfungible_adapter_tuto.Runtime.Xcm.{parent_or_parents_executive_plurality}
use nonfungible_adapter_tuto.Runtime.Xcm.Filters.{parent_or_parents_executive_plurality_iff}

-- A message with its origin, its weight and its properties, and the blocks that judge it.
pub record BarrierApi (R : Type 0) : Type 1 where
  pub Message : Type 0
  pub origin : Message → Location R
  pub Gate : Type 0
  pub Denier : Type 0
  pub admits : Gate → Message → Bool
  pub denies : Denier → Message → Bool
  -- `DenyReserveTransferToRelayChain`, `DenyRecursively`, `DenyThenTry`.
  pub deny_reserve_transfer_to_relay_chain : Denier
  pub deny_recursively : Denier → Denier
  pub deny_then_try : Denier → Gate → Gate
  -- `TrailingSetTopicAsId`, which judges the message without its trailing `SetTopic`.
  pub trailing_set_topic_as_id : Gate → Gate
  pub without_topic : Message → Message
  -- `TakeWeightCredit`, with the messages that have credit for their weight.
  pub take_weight_credit : Gate
  pub has_weight_credit : Message → Bool
  -- `WithComputedOrigin<_, UniversalLocation, ConstU32<n>>`: the message with the origin that its
  -- first `n` instructions compute, if they compute one.
  pub with_computed_origin : Gate → Location R → ℕ → Gate
  pub computed : Location R → ℕ → Message → Option Message
  -- `AllowTopLevelPaidExecutionFrom` and `AllowExplicitUnpaidExecutionFrom`, over a filter.
  pub allow_top_level_paid_execution_from : (Location R → Bool) → Gate
  pub allow_explicit_unpaid_execution_from : (Location R → Bool) → Gate
  pub buys_execution : Message → Bool
  pub asks_unpaid : Message → Bool
  -- A tuple of gates admits what one of them admits.
  pub tuple : List Gate → Gate
  pub admits-tuple_nil : (m : Message) → admits (tuple []) m ≡ false
  pub admits-tuple_cons :
      (g : Gate) (gs : List Gate) (m : Message)
      → admits (tuple (g ∷ gs)) m ≡ (admits g m || admits (tuple gs) m)
  pub admits-deny_then_try :
      (d : Denier) (g : Gate) (m : Message)
      → admits (deny_then_try d g) m ≡ (not (denies d m) && admits g m)
  pub denies-deny_recursively :
      (d : Denier) (m : Message) → denies d m ≡ true → denies (deny_recursively d) m ≡ true
  pub admits-trailing_set_topic_as_id :
      (g : Gate) (m : Message) → admits (trailing_set_topic_as_id g) m ≡ admits g (without_topic m)
  pub admits-take_weight_credit : (m : Message) → admits take_weight_credit m ≡ has_weight_credit m
  pub admits-with_computed_origin :
      (g : Gate) (universal : Location R) (n : ℕ) (m : Message)
      → admits (with_computed_origin g universal n) m
        ≡ elim (computed universal n m) [ none ↦ false | some m' ↦ admits g m' ]
  pub admits-allow_top_level_paid :
      (f : Location R → Bool) (m : Message)
      → admits (allow_top_level_paid_execution_from f) m ≡ (f (origin m) && buys_execution m)
  pub admits-allow_explicit_unpaid :
      (f : Location R → Bool) (m : Message)
      → admits (allow_explicit_unpaid_execution_from f) m ≡ (f (origin m) && asks_unpaid m)

module _ {R : Type 0} (api : BarrierApi R) (universal : Location R) where
  open api use {
    Message, origin, Gate, admits, denies, without_topic, computed, has_weight_credit,
    buys_execution, asks_unpaid,
  }

  -- `Everything`.
  abbrev everything : Location R → Bool
  everything _ = true

  -- The two ways in for a message with a computed origin.
  computed_origin_gates : Gate
  computed_origin_gates = api.tuple (
      api.allow_top_level_paid_execution_from everything
      ∷ api.allow_explicit_unpaid_execution_from parent_or_parents_executive_plurality
      ∷ [])

  pub barrier : Gate
  unfolding computed_origin_gates
  barrier = api.trailing_set_topic_as_id (
      api.deny_then_try (api.deny_recursively api.deny_reserve_transfer_to_relay_chain) (
        api.tuple (
          api.take_weight_credit
          ∷ api.with_computed_origin computed_origin_gates universal 8
          ∷ [])))

  -- The parent, or its executive plurality.
  abbrev pub IsPrivileged : Location R → Type 0
  IsPrivileged l =
      (l ≡ record { parents = 1; interior = [] })
      ⊎ ((part : R) × (l ≡ record { parents = 1; interior = plurality executive part ∷ [] }))

  -- What the barrier asks of the message with the computed origin, in words of the locations.
  abbrev pub MayEnter : Option Message → Type 0
  MayEnter o =
      (m : Message) × (o ≡ some m)
      × ((buys_execution m ≡ true) ⊎ ((asks_unpaid m ≡ true) × IsPrivileged (origin m)))

  admits-computed_origin_gates :
      (m : Message)
      → admits computed_origin_gates m
        ≡ (buys_execution m || (parent_or_parents_executive_plurality (origin m) && asks_unpaid m))
  unfolding computed_origin_gates
  admits-computed_origin_gates m =
      simp
        (
          api.admits-tuple_cons, api.admits-tuple_nil, api.admits-allow_top_level_paid,
          api.admits-allow_explicit_unpaid,
        )
        (ground arith)

  -- What the gate over the computed origin answers.
  let_in : Option Message → Bool
  let_in none = false
  let_in (some m) =
      buys_execution m || (parent_or_parents_executive_plurality (origin m) && asks_unpaid m)

  admits-with_computed_origin :
      (m : Message)
      → admits (api.with_computed_origin computed_origin_gates universal 8) m
        ≡ let_in (computed universal 8 m)
  unfolding let_in
  admits-with_computed_origin m = elim (Option-cases (computed universal 8 m)) [
    | inl e ↦ api.admits-with_computed_origin _ universal 8 m ∙ rw e
    | inr (m', e) ↦
        api.admits-with_computed_origin _ universal 8 m ∙ rw e (admits-computed_origin_gates m')
  ]

  admits-barrier :
      (m : Message)
      → admits barrier m ≡ (
          not (
            denies
              (api.deny_recursively api.deny_reserve_transfer_to_relay_chain)
              (without_topic m))
          && (has_weight_credit (without_topic m)
              || let_in (computed universal 8 (without_topic m))))
  unfolding barrier
  admits-barrier m =
      simp
        (
          api.admits-trailing_set_topic_as_id, api.admits-deny_then_try, api.admits-tuple_cons,
          api.admits-tuple_nil, api.admits-take_weight_credit, admits-with_computed_origin,
        )
        (ground arith)

  let_in_iff : (o : Option Message) → (let_in o ≡ true) ↔ MayEnter o
  unfolding let_in
  let_in_iff none = (λ h. cc, λ (m, e, _). cc)
  let_in_iff (some m) =
      let privileged = parent_or_parents_executive_plurality_iff (origin m) in
      (
        λ h. (m, refl, ground (arith, privileged)),
        λ (m', e, way).
            let same : m ≡ m' = cc in
            rw same (ground (arith, parent_or_parents_executive_plurality_iff (origin m'), way)),
      )

  -- A message is admitted exactly if no denier holds against it and it has credit for its weight,
  -- or, with the origin that it computes, buys its execution or asks for free execution from the
  -- parent or the parent's executive plurality.
  pub admits-barrier_iff :
      (m : Message)
      → let t = without_topic m in
        (admits barrier m ≡ true) ↔ (
          (denies (api.deny_recursively api.deny_reserve_transfer_to_relay_chain) t ≡ false)
          × ((has_weight_credit t ≡ true) ⊎ MayEnter (computed universal 8 t)))
  admits-barrier_iff m =
      let t = without_topic m in
      let enter = let_in_iff (computed universal 8 t) in
      let value = admits-barrier m in
      (
        λ h. (
          ground (arith, value),
          elim (Bool-cases (has_weight_credit t)) [
            | inl credit ↦ inl credit
            | inr poor ↦ inr (enter.0 (ground (arith, value)))
          ],
        ),
        λ (free, way). elim way [
          | inl credit ↦ ground (arith, value)
          | inr may ↦ let open_gate = enter.1 may in ground (arith, value)
        ],
      )

  -- An admitted message moves no reserve to the relay chain.
  admits-barrier_denies :
      (m : Message)
      → admits barrier m ≡ true
      → denies api.deny_reserve_transfer_to_relay_chain (without_topic m) ≡ false
  admits-barrier_denies m h = ground (
    arith,
    admits-barrier m,
    api.denies-deny_recursively api.deny_reserve_transfer_to_relay_chain (without_topic m),
  )
