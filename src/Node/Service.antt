-- ===== src/Node/Service.antt =====
-- node/src/service.rs: building the parts of the node, starting it, and starting consensus. What
-- each fallible call of the SDK returns is in the record `Host`.
pub mod Plan
pub mod Startup
pub mod Collating
pub mod Partial
pub mod Liveness
pub mod Timing
mod Tests
use nonfungible_adapter_tuto.Base.{
  ℕ, ◌%◌, Bool, true, false, Option, none, some, List, [], ◌∷◌, Result, panicked, if◌then◌else◌,
}
use mathlib.Core.Option
use nonfungible_adapter_tuto.Node.Effects.{
  HeapAllocStrategy, default_heap_alloc_strategy, static, collator, full_node, telemetry,
  offchain_workers_runner, telemetry_hwbench, Effect, new_telemetry_worker, build_executor,
  new_full_parts, build_transaction_pool, timestamp_from_system_time, fully_verifying_import_queue,
  spawn, spawn_essential_aura, build_relay_chain_interface, build_network, new_offchain_workers,
  spawn_tasks, print_hwbench, warn_hardware, get_overseer_handle, start_relay_chain_tasks,
  resistant, Run, ◌>>=◌, ◌>>◌, pure, stop, act, try_act,
}

-- `sc_service::Error`: an error of another component in a box, or one converted by `From`.
pub data ServiceError (E : Type 0) : Type 0 where
  application converted : E → ServiceError E

-- What the code reads of `Configuration`. `Role::is_authority` is what `role` is read for.
pub record Configuration : Type 1 where
  pub Endpoint : Type 0
  pub telemetry_endpoints : Option (List Endpoint)
  pub default_heap_pages : Option ℕ
  pub is_authority : Bool
  pub offchain_worker_enabled : Bool

-- The results of the calls that can fail, the key that comes with the relay chain interface, and
-- whether the measured hardware meets the reference.
pub record Host (E HwBench Key : Type 0) : Type 0 where
  pub telemetry_worker : Result E (Unit {0})
  pub full_parts : Result E (Unit {0})
  pub relay_chain_interface : Result E (Option Key)
  pub network : Result E (Unit {0})
  pub offchain_workers : Result E (Unit {0})
  pub tasks : Result E (Unit {0})
  pub overseer_handle : Result E (Unit {0})
  pub relay_chain_tasks : Result E (Unit {0})
  pub check_hardware : HwBench → Bool

-- `h as _`, from u64 to the u32 of `HeapAllocStrategy::Static`.
pub heap_alloc_strategy : Option ℕ → HeapAllocStrategy
heap_alloc_strategy none = default_heap_alloc_strategy
heap_alloc_strategy (some h) = static (h % 4_294_967_296)

-- `.filter(|x| !x.is_empty())`
pub filter_endpoints {ℓ} : {Endpoint : Type ℓ} → Option (List Endpoint) → Option (List Endpoint)
filter_endpoints none = none
filter_endpoints (some []) = none
filter_endpoints (some (x ∷ xs)) = some (x ∷ xs)

-- `Duration::from_secs(6)`
abbrev pub relay_chain_slot_secs : ℕ
relay_chain_slot_secs = 6

module _ {E HwBench Key : Type 0} (host : Host E HwBench Key) (config : Configuration) where
  open config use {Endpoint, telemetry_endpoints, default_heap_pages, is_authority}

  abbrev pub Action : Type 0 → Type 0
  Action A = Run Effect (ServiceError E) A

  -- The telemetry that a start has, by its endpoints.
  abbrev pub Telemetry : Type 0
  Telemetry = Option (List Endpoint)

  -- `.map(|endpoints| ..).transpose()?`
  connect_telemetry : Telemetry → Action Telemetry
  connect_telemetry none = pure none
  connect_telemetry (some endpoints) = do
    try_act converted new_telemetry_worker host.telemetry_worker
    pure (some endpoints)

  spawn_telemetry : Telemetry → Action (Unit {0})
  spawn_telemetry none = pure tt
  spawn_telemetry (some _) = act (spawn telemetry)

  -- A block that is imported is verified in full, against the time alone.
  build_import_queue : Action (Unit {0})
  build_import_queue = act (fully_verifying_import_queue (timestamp_from_system_time ∷ []))

  pub new_partial : Action Telemetry
  unfolding build_import_queue filter_endpoints connect_telemetry heap_alloc_strategy
      spawn_telemetry
  new_partial = do
    connected ← connect_telemetry (filter_endpoints telemetry_endpoints)
    act (build_executor (heap_alloc_strategy default_heap_pages))
    try_act converted new_full_parts host.full_parts
    spawn_telemetry connected
    act (build_transaction_pool is_authority)
    build_import_queue
    pure connected

  -- The consensus task is started with the collator's key.
  pub start_consensus : ℕ → ℕ → Key → Action (Unit {0})
  start_consensus relay_chain_slot_duration para_id collator_key = act (
      spawn_essential_aura (record {
        para_id = para_id;
        relay_chain_slot_secs = relay_chain_slot_duration;
        authoring_duration_millis = 2000;
        reinitialize = false;
        max_pov_percentage = none;
      }))

  -- `if parachain_config.offchain_worker.enabled { .. }`
  start_offchain_workers : Bool → Action (Unit {0})
  start_offchain_workers false = pure tt
  start_offchain_workers true = do
    try_act converted new_offchain_workers host.offchain_workers
    act (spawn offchain_workers_runner)

  -- `match check_hardware(..) { Err(err) if validator => warn, _ => {} }`
  judge_hardware : Bool → Bool → Action (Unit {0})
  judge_hardware false true = act warn_hardware
  judge_hardware _ _ = pure tt

  spawn_telemetry_hwbench : Telemetry → Action (Unit {0})
  spawn_telemetry_hwbench none = pure tt
  spawn_telemetry_hwbench (some _) = act (spawn telemetry_hwbench)

  -- `if let Some(hwbench) = hwbench { .. }`
  report_hardware : Option HwBench → Telemetry → Action (Unit {0})
  unfolding judge_hardware spawn_telemetry_hwbench
  report_hardware none connected = pure tt
  report_hardware (some hwbench) connected = do
    act print_hwbench
    judge_hardware (host.check_hardware hwbench) is_authority
    spawn_telemetry_hwbench connected

  -- `collator_key.expect(..)`, an argument of the call.
  expect_collator_key : Option Key → Action Key
  expect_collator_key none = stop panicked
  expect_collator_key (some key) = pure key

  -- `if validator { start_consensus(..)?; }`
  start_validator : Bool → ℕ → ℕ → Option Key → Action (Unit {0})
  unfolding expect_collator_key start_consensus
  start_validator false relay_chain_slot_duration para_id collator_key = pure tt
  start_validator true relay_chain_slot_duration para_id collator_key = do
    key ← expect_collator_key collator_key
    start_consensus relay_chain_slot_duration para_id key

  -- `start_parachain_node` from where it has the partial components.
  start_with : ℕ → Option HwBench → Telemetry → Action (Unit {0})
  start_with para_id hwbench connected = do
    collator_key ← try_act application build_relay_chain_interface host.relay_chain_interface
    try_act converted (build_network para_id resistant) host.network
    start_offchain_workers config.offchain_worker_enabled
    try_act converted spawn_tasks host.tasks
    report_hardware hwbench connected
    try_act application get_overseer_handle host.overseer_handle
    try_act converted
        (start_relay_chain_tasks para_id (if is_authority then collator else full_node)
          relay_chain_slot_secs)
        host.relay_chain_tasks
    start_validator is_authority relay_chain_slot_secs para_id collator_key

  pub start_parachain_node : ℕ → Option HwBench → Action (Unit {0})
  start_parachain_node para_id hwbench = do
    connected ← new_partial
    start_with para_id hwbench connected
