-- ===== src/Node/Service/Collating.antt =====
-- When a started node authors blocks, and when starting it can panic (node/src/service.rs).
use mathlib.Core.List.{append_assoc, append-nil}
use nonfungible_adapter_tuto.Base.{
  ℕ, ◌+◌, ◌≡◌, ap, Bool, true, false, ◌&&◌, Option, none, some, List, [], ◌∷◌, ◌++◌, Result, ok,
  err, panicked, if◌then◌else◌, arith,
}
use nonfungible_adapter_tuto.Node.Effects.{Effect, spawn_essential_aura}
use nonfungible_adapter_tuto.Node.Plans.{
  perform, perform-append, perform-prefix, perform-result, all_effects, first_failure,
}
use nonfungible_adapter_tuto.Node.Service.{Configuration, Host, start_parachain_node}
use nonfungible_adapter_tuto.Node.Service.Plan.{
  start_plan, started_plan, partial_plan, offchain_plan, hardware_plan, consensus_plan,
  before_consensus, aura_params,
}
use nonfungible_adapter_tuto.Node.Service.Startup.{start_parachain_node-perform}

-- How often the consensus task was spawned.
abbrev is_aura : Effect → ℕ
is_aura (spawn_essential_aura _) = 1
is_aura _ = 0

abbrev pub count_aura : List Effect → ℕ
count_aura [] = 0
count_aura (x ∷ xs) = is_aura x + count_aura xs

pub count_aura-append :
    (xs ys : List Effect) → count_aura (xs ++ ys) ≡ count_aura xs + count_aura ys
count_aura-append [] ys = omega arith
count_aura-append (x ∷ xs) ys = omega (arith, count_aura-append xs ys)

abbrev pub succeeded : {E A : Type 0} → Result E A → Bool
succeeded (ok _) = true
succeeded (err _) = false

module _ {E HwBench Key : Type 0} (host : Host E HwBench Key) (config : Configuration) where
  module _ (para_id : ℕ) (hwbench : Option HwBench) where
    start_plan-append :
        start_plan host config para_id hwbench
        ≡ before_consensus host config para_id hwbench ++ consensus_plan host config para_id
    unfolding start_plan started_plan before_consensus
    start_plan-append = simp append_assoc

    count_aura-before_consensus :
        count_aura (all_effects (before_consensus host config para_id hwbench)) ≡ 0
    unfolding before_consensus partial_plan offchain_plan hardware_plan
    count_aura-before_consensus = ground arith

    count_aura-consensus :
        (log : List Effect)
        → let (r, t) = perform (consensus_plan host config para_id) log in
          count_aura t ≡ count_aura log + (if succeeded r && config.is_authority then 1 else 0)
    unfolding perform consensus_plan
    count_aura-consensus log = ground (
      arith,
      append-nil log,
      count_aura-append log (spawn_essential_aura (aura_params para_id) ∷ []),
    )

    -- If starting, with no consensus task spawned yet, succeeds on an authority, the consensus task
    -- has been spawned once; in every other case, an error or a panic among them, it has not been
    -- spawned.
    pub count_aura-start :
        (log : List Effect)
        → count_aura log ≡ 0
        → let (r, t) = start_parachain_node host config para_id hwbench log in
          count_aura t ≡ (if succeeded r && config.is_authority then 1 else 0)
    count_aura-start log h =
        let pre = perform (before_consensus host config para_id hwbench) log in
        let (rest, same, _) = perform-prefix (before_consensus host config para_id hwbench) log in
        let none_before : count_aura pre.1 ≡ 0 = omega (
          arith,
          ap count_aura same,
          count_aura-append pre.1 rest,
          count_aura-append log (all_effects (before_consensus host config para_id hwbench)),
          count_aura-before_consensus,
        ) in
        rw
          (
            start_parachain_node-perform host config para_id hwbench log,
            start_plan-append,
            perform-append (before_consensus host config para_id hwbench)
                (consensus_plan host config para_id) log,
          )
          (ground (arith, none_before, count_aura-consensus pre.1))

    plan_panics_only :
        first_failure (start_plan host config para_id hwbench) ≡ some panicked
        → (config.is_authority ≡ true) × (host.relay_chain_interface ≡ ok none)
    unfolding start_plan started_plan partial_plan offchain_plan hardware_plan consensus_plan
    plan_panics_only h = ground arith

    -- A start, from an empty log, panics only on an authority that got no collator key with the relay
    -- chain interface.
    pub start_panics_only :
        (start_parachain_node host config para_id hwbench []).0 ≡ err panicked
        → (config.is_authority ≡ true) × (host.relay_chain_interface ≡ ok none)
    start_panics_only h =
        let failed_by = perform-result (start_plan host config para_id hwbench) [] in
        plan_panics_only
          (ground (arith, failed_by, start_parachain_node-perform host config para_id hwbench []))
