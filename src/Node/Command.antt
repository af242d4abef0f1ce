-- ===== src/Node/Command.antt =====
-- `run` of node/src/command.rs: which calls each subcommand makes, and what starting a node without
-- one does. The results of the SDK's calls are in the record `CommandHost`; the runner's
-- `sync_run`, `async_run` and `run_node_until_exit` run the closure that they are given.
pub mod Dispatch
pub mod BuiltIn
mod Tests
use Prim.Native.String.{String, ◌++◌}
use nonfungible_adapter_tuto.Base.{
  ℕ, Bool, true, false, Option, none, some, List, [], ◌∷◌, Result, ok, err, Stop, raised, panicked,
}
use nonfungible_adapter_tuto.Sdk.Keyring.{GenesisNames}
use nonfungible_adapter_tuto.Node.Effects.{
  Input, client, import_queue, backend, database, chain_spec, network, relay_chain_config,
  loaded_spec, db, storage, reference_hardware, Effect, create_runner,
  create_relay_chain_configuration, create_database_dir, gather_hwbench, run_until_exit,
  log_collating, run_command, Run, ◌>>=◌, ◌>>◌, pure, stop, act, try_act,
}
use nonfungible_adapter_tuto.Node.ChainSpec.{ChainSpec, Extensions, load_spec}
use nonfungible_adapter_tuto.Node.Cli.{
  BenchmarkCmd, pallet, block, machine, other, Subcommand, build_spec, check_block, export_blocks,
  export_state, import_blocks, revert, purge_chain, export_genesis_head, export_genesis_wasm,
  benchmark, Cli,
}
use nonfungible_adapter_tuto.Node.Service.{
  ServiceError, Configuration, Host, new_partial, start_parachain_node,
}

-- `sc_cli::Error`: its variant `Input`, which texts convert to, an error of the service, and those
-- that the SDK's own commands end with.
pub data CliError (E : Type 0) : Type 0 where
  input : String → CliError E
  service : ServiceError E → CliError E
  command_error : E → CliError E

pub record CommandHost (E HwBench Code : Type 0) : Type 0 where
  -- `cfg!(feature = "runtime-benchmarks")`
  pub runtime_benchmarks : Bool
  pub runner : Result E (Unit {0})
  pub relay_chain_configuration : Result E (Unit {0})
  -- `Display` of an error.
  pub display : E → String
  pub has_database_path : Bool
  pub hwbench : HwBench
  pub command : Result E (Unit {0})
  pub until_exit : Result E (Unit {0})
  pub names : GenesisNames
  pub wasm_binary : Option Code
  pub from_json_file : String → Result String (ChainSpec Code)

-- `unwrap_or_default` of a text.
default_text : Option String → String
default_text none = ""
default_text (some s) = s

abbrev benchmarking_not_enabled : String
benchmarking_not_enabled =
    "Benchmarking wasn't enabled when building the node. You can enable it with `--features runtime-benchmarks`."

abbrev storage_not_enabled : String
storage_not_enabled = "Compile with --features=runtime-benchmarks to enable storage benchmarks."

module _ {E HwBench Key Code : Type 0} (host : Host E HwBench Key)
    (commands : CommandHost E HwBench Code) (config : Configuration)
    (extensions : Option Extensions) where
  abbrev pub CommandAction : Type 0 → Type 0
  CommandAction A = Run Effect (CliError E) A

  -- `?` on a result of the service.
  from_service : {A : Type 0} → Run Effect (ServiceError E) A → CommandAction A
  from_service m log =
      let (r, t) = m log in
      elim r [
        | ok a ↦ (ok a, t)
        | err (raised e) ↦ (err (raised (service e)), t)
        | err panicked ↦ (err panicked, t)
      ]

  -- `cli.create_runner(..)?`, and `cmd.run(..)`.
  abbrev make_runner : CommandAction (Unit {0})
  make_runner = try_act command_error create_runner commands.runner

  abbrev finish : List Input → CommandAction (Unit {0})
  finish inputs = try_act command_error (run_command inputs) commands.command

  -- `construct_async_run!`
  construct_async_run : List Input → CommandAction (Unit {0})
  unfolding from_service
  construct_async_run inputs = do make_runner; from_service (new_partial host config); finish inputs

  -- `cli.load_spec(..)?`
  loaded : Result (Stop String) (ChainSpec Code) → CommandAction (Unit {0})
  loaded (ok _) = pure tt
  loaded (err (raised e)) = stop (raised (input e))
  loaded (err panicked) = stop panicked

  -- `SubstrateCli::create_configuration(..)` of the relay chain.
  relay_chain_configuration : CommandAction (Unit {0})
  relay_chain_configuration =
      try_act (λ e. input ("Relay chain argument error: " ++ commands.display e))
        create_relay_chain_configuration commands.relay_chain_configuration

  purge : CommandAction (Unit {0})
  unfolding relay_chain_configuration
  purge = do make_runner; relay_chain_configuration; finish (Input.config ∷ relay_chain_config ∷ [])

  genesis_wasm : Option String → CommandAction (Unit {0})
  unfolding loaded default_text
  genesis_wasm chain = do
    make_runner
    loaded
        (load_spec commands.names commands.wasm_binary commands.from_json_file (default_text chain))
    finish (loaded_spec ∷ [])

  -- The `match cmd` of a benchmark, by the feature that the node was built with.
  run_benchmark : BenchmarkCmd → Bool → CommandAction (Unit {0})
  unfolding from_service
  run_benchmark pallet true = finish (chain_spec ∷ [])
  run_benchmark pallet false = stop (raised (input benchmarking_not_enabled))
  run_benchmark block _ = do from_service (new_partial host config); finish (client ∷ [])
  run_benchmark BenchmarkCmd.storage true = do
    from_service (new_partial host config)
    finish (Input.config ∷ client ∷ db ∷ storage ∷ [])
  run_benchmark BenchmarkCmd.storage false = stop (raised (input storage_not_enabled))
  run_benchmark machine _ = finish (Input.config ∷ reference_hardware ∷ [])
  run_benchmark other _ = stop (raised (input "Benchmarking sub-command unsupported"))

  pub run_subcommand : Subcommand → CommandAction (Unit {0})
  unfolding construct_async_run purge genesis_wasm run_benchmark
  run_subcommand build_spec = do make_runner; finish (chain_spec ∷ network ∷ [])
  run_subcommand check_block = construct_async_run (client ∷ import_queue ∷ [])
  run_subcommand export_blocks = construct_async_run (client ∷ database ∷ [])
  run_subcommand export_state = construct_async_run (client ∷ chain_spec ∷ [])
  run_subcommand import_blocks = construct_async_run (client ∷ import_queue ∷ [])
  run_subcommand revert = construct_async_run (client ∷ backend ∷ [])
  run_subcommand purge_chain = purge
  run_subcommand export_genesis_head = construct_async_run (client ∷ [])
  run_subcommand (export_genesis_wasm chain) = genesis_wasm chain
  run_subcommand (benchmark cmd) = do make_runner; run_benchmark cmd commands.runtime_benchmarks

  -- Whether the hardware is measured: not if it was switched off, and not without a path.
  measure : Bool → Bool → CommandAction (Option HwBench)
  measure false true = do act create_database_dir; act gather_hwbench; pure (some commands.hwbench)
  measure _ _ = pure none

  expect_para_id : Option Extensions → CommandAction ℕ
  expect_para_id none = stop (raised (input "Could not find parachain ID in chain-spec."))
  expect_para_id (some e) = pure e.para_id

  pub run_node : Bool → CommandAction (Unit {0})
  unfolding measure expect_para_id relay_chain_configuration from_service
  run_node no_hardware_benchmarks = do
    make_runner
    hwbench ← measure no_hardware_benchmarks commands.has_database_path
    id ← expect_para_id extensions
    relay_chain_configuration
    act (log_collating config.is_authority)
    from_service (start_parachain_node host config id hwbench)
    try_act command_error run_until_exit commands.until_exit

  abbrev run_parsed : Option Subcommand → Bool → CommandAction (Unit {0})
  run_parsed (some cmd) _ = run_subcommand cmd
  run_parsed none no_hardware_benchmarks = run_node no_hardware_benchmarks

  abbrev pub run : Cli → CommandAction (Unit {0})
  run cli = run_parsed cli.subcommand cli.no_hardware_benchmarks
