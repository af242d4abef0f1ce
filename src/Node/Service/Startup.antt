-- ===== src/Node/Service/Startup.antt =====
-- The start of the node (node/src/service.rs) performs its plan.
use mathlib.Core.List.{append-nil}
use nonfungible_adapter_tuto.Base.{ℕ, ◌≡◌, Option, none, some, List, ok, arith}
use nonfungible_adapter_tuto.Node.Effects.{Effect, ◌>>◌, pure}
use nonfungible_adapter_tuto.Node.Plans.{perform, bind-perform, then-perform, call-perform}
use nonfungible_adapter_tuto.Node.Service.{
  Configuration, Host, start_with, start_parachain_node, new_partial, filter_endpoints,
  report_hardware, start_offchain_workers, start_validator,
}
use nonfungible_adapter_tuto.Node.Service.Plan.{
  start_plan, started_plan, partial_plan, hardware_plan, offchain_plan, consensus_plan,
}

module _ {E HwBench Key : Type 0} (host : Host E HwBench Key) (config : Configuration) where
  report_hardware-perform :
      (hwbench : Option HwBench) (log : List Effect)
      → report_hardware host config hwbench (filter_endpoints config.telemetry_endpoints) log
        ≡ perform (hardware_plan host config hwbench) log
  unfolding report_hardware filter_endpoints perform hardware_plan
  report_hardware-perform hwbench log = ground arith

  start_offchain_workers-perform :
      (log : List Effect)
      → start_offchain_workers host config config.offchain_worker_enabled log
        ≡ perform (offchain_plan host config) log
  unfolding start_offchain_workers perform offchain_plan
  start_offchain_workers-perform log = ground arith

  start_validator-perform :
      (para_id : ℕ) (key : Option Key) (log : List Effect)
      → host.relay_chain_interface ≡ ok key
      → start_validator host config config.is_authority 6 para_id key log
        ≡ perform (consensus_plan host config para_id) log
  unfolding start_validator perform consensus_plan
  start_validator-perform para_id none log h = simp h (ground (arith, append-nil log))
  start_validator-perform para_id (some key) log h = simp h (ground (arith, append-nil log))

  new_partial-perform :
      (log : List Effect)
      → new_partial host config log
        ≡ (perform (partial_plan host config) >> pure (filter_endpoints config.telemetry_endpoints))
            log
  unfolding new_partial perform partial_plan
  new_partial-perform log = ground arith

  start_with-perform :
      (para_id : ℕ) (hwbench : Option HwBench) (log : List Effect)
      → start_with host config para_id hwbench (filter_endpoints config.telemetry_endpoints) log
        ≡ perform (started_plan host config para_id hwbench) log
  unfolding start_with started_plan
  start_with-perform para_id hwbench = call-perform _ _ host.relay_chain_interface _ _ λ key e.
      call-perform _ _ host.network _ _ λ _ _.
        then-perform _ _ (offchain_plan host config) _ start_offchain_workers-perform (
          call-perform _ _ host.tasks _ _ λ _ _.
            then-perform _ _ (hardware_plan host config hwbench) _ (report_hardware-perform hwbench)
              (call-perform _ _ host.overseer_handle _ _ λ _ _.
                call-perform _ _ host.relay_chain_tasks _ _
                  λ _ _ log. start_validator-perform para_id key log e))

  -- Starting a node does what its plan says, in that order, and stops at the plan's first failure.
  pub start_parachain_node-perform :
      (para_id : ℕ) (hwbench : Option HwBench) (log : List Effect)
      → start_parachain_node host config para_id hwbench log
        ≡ perform (start_plan host config para_id hwbench) log
  unfolding start_parachain_node start_plan
  start_parachain_node-perform para_id hwbench =
      bind-perform _ (start_with host config para_id hwbench) _ (partial_plan host config) _
        new_partial-perform (start_with-perform para_id hwbench)
