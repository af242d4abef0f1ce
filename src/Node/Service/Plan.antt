-- ===== src/Node/Service/Plan.antt =====
-- The specification of node/src/service.rs: what starting the node does, step by step, for each
-- configuration.
use nonfungible_adapter_tuto.Base.{
  ℕ, Bool, true, false, ◌&&◌, Option, none, some, List, [], ◌∷◌, ◌++◌, Result, ok, err, Stop,
  panicked, if◌then◌else◌,
}
use mathlib.Core.Bool.{not}
use nonfungible_adapter_tuto.Node.Effects.{
  collator, full_node, telemetry, offchain_workers_runner, telemetry_hwbench, resistant, AuraParams,
  Effect, new_telemetry_worker, build_executor, new_full_parts, build_transaction_pool,
  timestamp_from_system_time, fully_verifying_import_queue, spawn, spawn_essential_aura,
  build_relay_chain_interface, build_network, new_offchain_workers, spawn_tasks, print_hwbench,
  warn_hardware, get_overseer_handle, start_relay_chain_tasks,
}
use nonfungible_adapter_tuto.Node.Plans.{Step, call, sure}
use nonfungible_adapter_tuto.Node.Service.{
  ServiceError, application, converted, Configuration, Host, heap_alloc_strategy,
}

abbrev pub when {ℓ} : {A : Type ℓ} → Bool → List A → List A
when true xs = xs
when false xs = []

-- There is an endpoint to report to.
abbrev has_endpoint : (config : Configuration) → Option (List config.Endpoint) → Bool
has_endpoint config none = false
has_endpoint config (some []) = false
has_endpoint config (some (_ ∷ _)) = true

abbrev pub uses_telemetry : Configuration → Bool
uses_telemetry config = has_endpoint config config.telemetry_endpoints

abbrev key_of : {E Key : Type 0} → Result E (Option Key) → Option Key
key_of (ok key) = key
key_of (err _) = none

-- Without a key the step fails by a panic.
abbrev need_key : {E Key : Type 0} → Option Key → Option (Stop E)
need_key none = some panicked
need_key (some _) = none

-- What consensus is run with: blocks of two seconds of authoring, in slots of six.
abbrev pub aura_params : ℕ → AuraParams
aura_params para_id = record {
  para_id = para_id;
  relay_chain_slot_secs = 6;
  authoring_duration_millis = 2000;
  reinitialize = false;
  max_pov_percentage = none;
}

module _ {E HwBench Key : Type 0} (host : Host E HwBench Key) (config : Configuration) where
  abbrev pub Steps : Type 0
  Steps = List (Step Effect (ServiceError E))

  unfoldable pub partial_plan : Steps
  partial_plan =
      when (uses_telemetry config) (call converted new_telemetry_worker host.telemetry_worker ∷ [])
      ++ (sure (build_executor (heap_alloc_strategy config.default_heap_pages))
          ∷ call converted new_full_parts host.full_parts
          ∷ (when (uses_telemetry config) (sure (spawn telemetry) ∷ [])
              ++ sure (build_transaction_pool config.is_authority)
                ∷ sure (fully_verifying_import_queue (timestamp_from_system_time ∷ []))
                ∷ []))

  unfoldable pub offchain_plan : Steps
  offchain_plan = when config.offchain_worker_enabled (
      call converted new_offchain_workers host.offchain_workers
      ∷ sure (spawn offchain_workers_runner)
      ∷ [])

  unfoldable pub hardware_plan : Option HwBench → Steps
  hardware_plan none = []
  hardware_plan (some hwbench) =
      sure print_hwbench
      ∷ (when (config.is_authority && not (host.check_hardware hwbench)) (sure warn_hardware ∷ [])
          ++ when (uses_telemetry config) (sure (spawn telemetry_hwbench) ∷ []))

  unfoldable pub consensus_plan : ℕ → Steps
  consensus_plan para_id = when config.is_authority (
      record { effects = []; failure = need_key (key_of host.relay_chain_interface) }
      ∷ sure (spawn_essential_aura (aura_params para_id))
      ∷ [])

  -- The steps after the partial components.
  unfoldable pub started_plan : ℕ → Option HwBench → Steps
  started_plan para_id hwbench =
      call application build_relay_chain_interface host.relay_chain_interface
      ∷ call converted (build_network para_id resistant) host.network
      ∷ (offchain_plan
          ++ (call converted spawn_tasks host.tasks
              ∷ (hardware_plan hwbench
                  ++ (call application get_overseer_handle host.overseer_handle
                      ∷ call converted
                          (start_relay_chain_tasks para_id
                            (if config.is_authority then collator else full_node) 6)
                          host.relay_chain_tasks
                      ∷ consensus_plan para_id))))

  unfoldable pub start_plan : ℕ → Option HwBench → Steps
  start_plan para_id hwbench = partial_plan ++ started_plan para_id hwbench

  -- The whole plan but for the last part.
  unfoldable pub before_consensus : ℕ → Option HwBench → Steps
  before_consensus para_id hwbench =
      partial_plan
      ++ (call application build_relay_chain_interface host.relay_chain_interface
          ∷ call converted (build_network para_id resistant) host.network
          ∷ (offchain_plan
              ++ (call converted spawn_tasks host.tasks
                  ∷ (hardware_plan hwbench
                      ++ (call application get_overseer_handle host.overseer_handle
                          ∷ call converted
                              (start_relay_chain_tasks para_id
                                (if config.is_authority then collator else full_node) 6)
                              host.relay_chain_tasks
                          ∷ [])))))
