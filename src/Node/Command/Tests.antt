-- ===== src/Node/Command/Tests.antt =====
-- Runs of node/src/command.rs on a host where every call succeeds, with and without a chain
-- specification that has extensions, in a build without the runtime benchmarks.
use Prim.Native.String.{String}
use nonfungible_adapter_tuto.Base.{
  ℕ, ◌≡◌, refl, inl, Bool, All, true, false, Option, none, some, List, [], ◌∷◌, ok, err, arith, leb,
}
use nonfungible_adapter_tuto.Sdk.Samples.{numbers, keyring, genesis_names}
use nonfungible_adapter_tuto.Runtime.Genesis.{Genesis, patch_of}
use nonfungible_adapter_tuto.Node.Effects.{
  Effect, create_runner, create_database_dir, gather_hwbench, create_relay_chain_configuration,
  log_collating,
}
use nonfungible_adapter_tuto.Node.Plans.{perform}
use nonfungible_adapter_tuto.Node.ChainSpec.{ChainSpec, Extensions, load_spec}
use nonfungible_adapter_tuto.Node.Cli.{export_genesis_wasm}
use nonfungible_adapter_tuto.Node.Service.{Configuration, Host, start_parachain_node}
use nonfungible_adapter_tuto.Node.Service.Plan.{
  start_plan, partial_plan, started_plan, offchain_plan, hardware_plan, consensus_plan,
}
use nonfungible_adapter_tuto.Node.Service.Startup.{start_parachain_node-perform}
use nonfungible_adapter_tuto.Node.Service.Collating.{succeeded, count_aura}
use nonfungible_adapter_tuto.Node.Command.{
  CommandHost, run_subcommand, run_node, measure, expect_para_id, from_service,
}
use nonfungible_adapter_tuto.Node.Service.Timing.{Timed}
use nonfungible_adapter_tuto.Node.Command.BuiltIn.{run_node_built_in}
use nonfungible_adapter_tuto.Node.Command.Dispatch.{
  IsOffline, run_subcommand-IsOffline, run_node-authors,
}

abbrev host : Host String ℕ ℕ
host = record {
  telemetry_worker = ok tt;
  full_parts = ok tt;
  relay_chain_interface = ok (some 4);
  network = ok tt;
  offchain_workers = ok tt;
  tasks = ok tt;
  overseer_handle = ok tt;
  relay_chain_tasks = ok tt;
  check_hardware = λ score. leb 10 score;
}

abbrev commands : CommandHost String ℕ String
commands = record {
  runtime_benchmarks = false;
  runner = ok tt;
  relay_chain_configuration = ok tt;
  display = λ e. e;
  has_database_path = true;
  hwbench = 12;
  command = ok tt;
  until_exit = ok tt;
  names = genesis_names;
  wasm_binary = some "wasm";
  from_json_file = λ path. err "not found";
}

abbrev collator_config : Configuration
collator_config = record {
  Endpoint = ℕ;
  telemetry_endpoints = none;
  default_heap_pages = none;
  is_authority = true;
  offchain_worker_enabled = true;
}

abbrev extensions : Option Extensions
extensions = some (record { relay_chain = "rococo-local"; para_id = 1000 })

run_subcommand-IsOffline_example : IsOffline (
    run_subcommand host commands collator_config extensions
      (export_genesis_wasm (some "missing.json"))
      [])
run_subcommand-IsOffline_example =
    run_subcommand-IsOffline host commands collator_config extensions
      (export_genesis_wasm (some "missing.json"))

-- The start of the node succeeds after what `run` does before it.
starts :
    (log : List Effect) → (start_parachain_node host collator_config 1000 (some 12) log).0 ≡ ok tt
unfolding start_plan partial_plan started_plan offchain_plan hardware_plan consensus_plan perform
starts log = rw (start_parachain_node-perform host collator_config 1000 (some 12) log) refl

node_runs : succeeded (run_node host commands collator_config extensions false []).0 ≡ true
unfolding run_node measure expect_para_id from_service
node_runs = ground (
  arith,
  starts (
      create_runner
      ∷ create_database_dir
      ∷ gather_hwbench
      ∷ create_relay_chain_configuration
      ∷ log_collating true
      ∷ []),
)

run_node-authors_example :
    count_aura (run_node host commands collator_config extensions false []).1 ≡ 1
run_node-authors_example = run_node-authors host commands collator_config extensions false node_runs

-- The collator on the development specification.
run_node_built_in_example :
    (spec : ChainSpec String) × (load_spec genesis_names (some "wasm") commands.from_json_file "dev"
      ≡ ok spec)
    × (g : Genesis keyring genesis_names) × (patch_of keyring genesis_names
          spec.genesis_config_preset_name
        ≡ some g)
    × (spec.extensions.relay_chain ≡ "rococo-local")
    × ((off : Bool)
        → All
            (Timed numbers 5_242_880 g.parachain_info.parachain_id)
            (run_node host commands collator_config (some spec.extensions) off []).1)
run_node_built_in_example =
    run_node_built_in host commands collator_config numbers 5_242_880 keyring "wasm" "dev" refl
      (inl refl)
