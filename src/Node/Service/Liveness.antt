-- ===== src/Node/Service/Liveness.antt =====
-- When a start of node/src/service.rs gets to its end.
use mathlib.Core.List.{append-nil}
use nonfungible_adapter_tuto.Base.{
  ℕ, ◌≡◌, sym, ap, ◌∙◌, false, ◌⊎◌, Option, none, some, List, ◌++◌, ok, arith,
}
use nonfungible_adapter_tuto.Node.Effects.{Effect}
use nonfungible_adapter_tuto.Node.Plans.{
  perform, perform-prefix, perform-result, all_effects, first_failure, result_of,
}
use nonfungible_adapter_tuto.Node.Service.{Configuration, Host, start_parachain_node}
use nonfungible_adapter_tuto.Node.Service.Plan.{
  start_plan, started_plan, partial_plan, offchain_plan, hardware_plan, consensus_plan,
}
use nonfungible_adapter_tuto.Node.Service.Startup.{start_parachain_node-perform}

module _ {E HwBench Key : Type 0} (host : Host E HwBench Key) (config : Configuration) where
  -- Every call of the SDK succeeds, and a node that is an authority gets a collator key.
  pub record IsHealthy : Type 0 where
    pub telemetry_worker : host.telemetry_worker ≡ ok tt
    pub full_parts : host.full_parts ≡ ok tt
    pub relay_chain_interface :
        (key : Option Key) × (host.relay_chain_interface ≡ ok key)
        × ((config.is_authority ≡ false) ⊎ ((k : Key) × (key ≡ some k)))
    pub network : host.network ≡ ok tt
    pub offchain_workers : host.offchain_workers ≡ ok tt
    pub tasks : host.tasks ≡ ok tt
    pub overseer_handle : host.overseer_handle ≡ ok tt
    pub relay_chain_tasks : host.relay_chain_tasks ≡ ok tt

  healthy_plan :
      (para_id : ℕ) (hwbench : Option HwBench)
      → IsHealthy
      → first_failure (start_plan host config para_id hwbench) ≡ none
  unfolding start_plan started_plan partial_plan offchain_plan hardware_plan consensus_plan
  healthy_plan para_id hwbench h =
      let (key, e, held) = h.relay_chain_interface in
      ground (
        arith, h.telemetry_worker, h.full_parts, e, held, h.network, h.offchain_workers, h.tasks,
        h.overseer_handle, h.relay_chain_tasks,
      )

  -- Where every call succeeds, and an authority has its key, the start succeeds, and all
  -- the effects of its plan are done.
  pub start_healthy :
      (para_id : ℕ) (hwbench : Option HwBench) (log : List Effect)
      → IsHealthy
      → start_parachain_node host config para_id hwbench log
        ≡ (ok tt, log ++ all_effects (start_plan host config para_id hwbench))
  start_healthy para_id hwbench log h =
      let plan = start_plan host config para_id hwbench in
      let fine = healthy_plan para_id hwbench h in
      let (rest, same, done) = perform-prefix plan log in
      let all : (perform plan log).1 ≡ log ++ all_effects plan =
        sym (append-nil (perform plan log).1)
        ∙ ap (λ r. (perform plan log).1 ++ r) (sym (done fine))
        ∙ same in
      let result = perform-result plan log ∙ ap result_of fine in
      start_parachain_node-perform host config para_id hwbench log ∙ (ground (arith, all, result))
