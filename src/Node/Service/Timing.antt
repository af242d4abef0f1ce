-- ===== src/Node/Service/Timing.antt =====
-- The consensus task that node/src/service.rs starts, against the times that runtime/src/lib.rs has.
use nonfungible_adapter_tuto.Base.{
  ℕ, ◌*◌, ◌≡◌, refl, Option, Option-cases, inl, inr, List, [], ◌∷◌, ◌++◌, All, All-append,
  All-split, arith,
}
use nonfungible_adapter_tuto.Sdk.Numbers.{Numbers}
use nonfungible_adapter_tuto.Runtime.Units.{slot_duration, relay_chain_slot_duration_millis}
use nonfungible_adapter_tuto.Runtime.Weights.{maximum_block_weight, ref_time-maximum_block_weight}
use nonfungible_adapter_tuto.Node.Effects.{Effect, spawn_essential_aura, AuraParams}
use nonfungible_adapter_tuto.Node.Plans.{Step, perform, all_effects}
use nonfungible_adapter_tuto.Node.Service.{Configuration, Host, start_parachain_node}
use nonfungible_adapter_tuto.Node.Service.Plan.{
  start_plan, started_plan, partial_plan, offchain_plan, hardware_plan, consensus_plan, aura_params,
}
use nonfungible_adapter_tuto.Node.Service.Startup.{start_parachain_node-perform}

-- What is performed of a plan has what all of its effects have.
perform-All :
    {F E : Type 0} (P : F → Type 0) (steps : List (Step F E)) (log : List F)
    → All P (all_effects steps)
    → All P log
    → All P (perform steps log).1
unfolding perform
perform-All P [] log h l = l
perform-All P (s ∷ steps) log h l =
    let (here, later) = All-split P s.effects (all_effects steps) h in
    let done = All-append P log s.effects l here in
    elim (Option-cases s.failure) [
      | inl e ↦ rw (e, perform) (perform-All P steps (log ++ s.effects) later done)
      | inr (f, e) ↦ rw (e, perform) done
    ]

module _ (n : Numbers) (max_pov_size : ℕ) (para_id : ℕ) where
  -- The time to author a block is the time of a full block, the slots of the relay chain are those of
  -- the runtime, of the length of its own slots, and the blocks are those of the parachain.
  abbrev pub IsTimed : AuraParams → Type 0
  IsTimed p =
      (p.authoring_duration_millis * n.per_millis
        ≡ n.ref_time (maximum_block_weight n max_pov_size))
      × (p.relay_chain_slot_secs * 1000 ≡ relay_chain_slot_duration_millis)
      × (p.relay_chain_slot_secs * 1000 ≡ slot_duration)
      × (p.para_id ≡ para_id)

  abbrev pub Timed : Effect → Type 0
  Timed (spawn_essential_aura p) = IsTimed p
  Timed _ = Unit

  aura_params-IsTimed : IsTimed (aura_params para_id)
  aura_params-IsTimed = (
    omega (arith, n.per_millis_lem, ref_time-maximum_block_weight n max_pov_size),
    refl,
    refl,
    refl,
  )

  module _ {E HwBench Key : Type 0} (host : Host E HwBench Key) (config : Configuration) where
    start_plan-Timed :
        (hwbench : Option HwBench)
        → All Timed (all_effects (start_plan host config para_id hwbench))
    unfolding start_plan started_plan partial_plan offchain_plan hardware_plan consensus_plan
    start_plan-Timed hwbench = ground (arith, aura_params-IsTimed)

    -- If every consensus task in the log from before a start is timed, so is every one in its log
    -- after: it authors for the parachain that was asked for, for as long as a full block takes to
    -- execute, in slots that are those of the runtime and of the relay chain.
    pub start-Timed :
        (hwbench : Option HwBench) (log : List Effect)
        → All Timed log
        → All Timed (start_parachain_node host config para_id hwbench log).1
    start-Timed hwbench log h = rw (start_parachain_node-perform host config para_id hwbench log) (
        perform-All Timed (start_plan host config para_id hwbench) log (start_plan-Timed hwbench) h)
