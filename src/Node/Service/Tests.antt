-- ===== src/Node/Service/Tests.antt =====
-- Starts of the node of node/src/service.rs: errors are texts, and the hardware is a score that
-- should be at least 10.
use Prim.Native.String.{String}
use nonfungible_adapter_tuto.Base.{
  ℕ, ◌≡◌, refl, inr, ◌++◌, All, ◌&&◌, true, false, none, some, [], ◌∷◌, ok, err, panicked, leb,
  if◌then◌else◌,
}
use nonfungible_adapter_tuto.Node.Effects.{
  static, collator, telemetry, new_telemetry_worker, build_executor, new_full_parts,
  build_transaction_pool, timestamp_from_system_time, fully_verifying_import_queue, spawn,
  spawn_essential_aura, build_relay_chain_interface, build_network, spawn_tasks, print_hwbench,
  warn_hardware, get_overseer_handle, resistant, telemetry_hwbench, start_relay_chain_tasks,
}
use nonfungible_adapter_tuto.Node.Plans.{perform, all_effects}
use nonfungible_adapter_tuto.Node.Service.{
  Configuration, Host, new_partial, start_with, start_parachain_node, report_hardware,
  judge_hardware, spawn_telemetry_hwbench, start_offchain_workers, start_validator,
  expect_collator_key, start_consensus, heap_alloc_strategy, filter_endpoints, connect_telemetry,
  spawn_telemetry,
}
use nonfungible_adapter_tuto.Node.Service.Plan.{start_plan, aura_params}
use nonfungible_adapter_tuto.Node.Service.Startup.{start_parachain_node-perform}
use nonfungible_adapter_tuto.Sdk.Samples.{numbers}
use nonfungible_adapter_tuto.Node.Service.Timing.{Timed, start-Timed}
use nonfungible_adapter_tuto.Node.Service.Liveness.{IsHealthy, start_healthy}
use nonfungible_adapter_tuto.Node.Service.Collating.{
  count_aura, succeeded, count_aura-start, start_panics_only,
}

-- Every call succeeds, and the relay chain gives key 4.
abbrev healthy : Host String ℕ ℕ
healthy = record {
  telemetry_worker = ok tt;
  full_parts = ok tt;
  relay_chain_interface = ok (some 4);
  network = ok tt;
  offchain_workers = ok tt;
  tasks = ok tt;
  overseer_handle = ok tt;
  relay_chain_tasks = ok tt;
  check_hardware = λ score. leb 10 score;
}

abbrev keyless : Host String ℕ ℕ
keyless = record healthy { relay_chain_interface = ok none }

abbrev no_overseer : Host String ℕ ℕ
no_overseer = record healthy { overseer_handle = err "no overseer" }

-- A collator with one telemetry endpoint; it runs no offchain workers.
abbrev authority : Configuration
authority = record {
  Endpoint = ℕ;
  telemetry_endpoints = some (1 ∷ []);
  default_heap_pages = some 4_294_967_300;
  is_authority = true;
  offchain_worker_enabled = false;
}

-- The start of a collator on slow hardware; the number of heap pages lost its upper 32 bits.
authority_starts : start_parachain_node healthy authority 1000 (some 9) [] ≡ (
  ok tt,
  new_telemetry_worker
      ∷ build_executor (static 4)
      ∷ new_full_parts
      ∷ spawn telemetry
      ∷ build_transaction_pool true
      ∷ fully_verifying_import_queue (timestamp_from_system_time ∷ [])
      ∷ build_relay_chain_interface
      ∷ build_network 1000 resistant
      ∷ spawn_tasks
      ∷ print_hwbench
      ∷ warn_hardware
      ∷ spawn telemetry_hwbench
      ∷ get_overseer_handle
      ∷ start_relay_chain_tasks 1000 collator 6
      ∷ spawn_essential_aura (aura_params 1000)
      ∷ [],
)
unfolding start_parachain_node new_partial start_with filter_endpoints connect_telemetry
    heap_alloc_strategy spawn_telemetry start_offchain_workers report_hardware judge_hardware
    spawn_telemetry_hwbench start_validator expect_collator_key start_consensus
authority_starts = refl

start_parachain_node-perform_example :
    start_parachain_node healthy authority 1000 (some 9) []
    ≡ perform (start_plan healthy authority 1000 (some 9)) []
start_parachain_node-perform_example =
    start_parachain_node-perform healthy authority 1000 (some 9) []

count_aura-start_example :
    let (r, t) = start_parachain_node no_overseer authority 1000 none [] in
    count_aura t ≡ (if succeeded r && true then 1 else 0)
count_aura-start_example = count_aura-start no_overseer authority 1000 none [] refl

keyless_panics : (start_parachain_node keyless authority 1000 none []).0 ≡ err panicked
unfolding start_parachain_node new_partial start_with filter_endpoints connect_telemetry
    heap_alloc_strategy spawn_telemetry start_offchain_workers report_hardware start_validator
    expect_collator_key
keyless_panics = refl

keyless_authority : (true ≡ true) × (keyless.relay_chain_interface ≡ ok none)
keyless_authority = start_panics_only keyless authority 1000 none keyless_panics

-- Nothing fails on this host, and it has a key.
healthy_authority : IsHealthy healthy authority
healthy_authority = record {
  telemetry_worker = refl;
  full_parts = refl;
  relay_chain_interface = (some 4, refl, inr (4, refl));
  network = refl;
  offchain_workers = refl;
  tasks = refl;
  overseer_handle = refl;
  relay_chain_tasks = refl;
}

start_healthy_example :
    start_parachain_node healthy authority 1000 (some 9) []
    ≡ (ok tt, [] ++ all_effects (start_plan healthy authority 1000 (some 9)))
start_healthy_example = start_healthy healthy authority 1000 (some 9) [] healthy_authority

start-Timed_example :
    All (Timed numbers 5_242_880 1000) (start_parachain_node healthy authority 1000 (some 9) []).1
start-Timed_example = start-Timed numbers 5_242_880 1000 healthy authority (some 9) [] tt
