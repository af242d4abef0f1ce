-- ===== src/Node/Command/Dispatch.antt =====
-- What the subcommands of node/src/command.rs do and leave out, and what a node needs to start.
use Prim.Native.String.{String}
use nonfungible_adapter_tuto.Base.{
  ◌≡◌, ◌⊎◌, Bool, true, false, Option, none, List, [], ◌∷◌, Result, arith, if◌then◌else◌,
}
use nonfungible_adapter_tuto.Node.Effects.{Input, Effect, create_runner}
use nonfungible_adapter_tuto.Node.ChainSpec.{Extensions}
use nonfungible_adapter_tuto.Node.Cli.{
  BenchmarkCmd, pallet, Subcommand, build_spec, check_block, export_blocks, export_state,
  import_blocks, revert, purge_chain, export_genesis_head, export_genesis_wasm, benchmark,
}
use nonfungible_adapter_tuto.Node.Service.{Configuration, Host}
use nonfungible_adapter_tuto.Node.Service.Collating.{
  succeeded, count_aura, count_aura-append, count_aura-start,
}
use nonfungible_adapter_tuto.Node.Service.Partial.{
  count, count-snoc, is_started, is_command, count-new_partial,
}
use nonfungible_adapter_tuto.Node.Command.{
  CommandHost, from_service, construct_async_run, loaded, purge, genesis_wasm, run_benchmark,
  run_subcommand, run_node, expect_para_id, measure,
}

-- Nothing was started, and the command ran once, or it did not run and there was an error.
abbrev pub IsOffline : {E A : Type 0} → Result E A × List Effect → Type 0
IsOffline (r, t) =
    (count is_started t ≡ 0)
    × ((count is_command t ≡ 1) ⊎ ((count is_command t ≡ 0) × (succeeded r ≡ false)))

module _ {E HwBench Key Code : Type 0} (host : Host E HwBench Key)
    (commands : CommandHost E HwBench Code) (config : Configuration)
    (extensions : Option Extensions) where
  construct_async_run-IsOffline :
      (inputs : List Input)
      → IsOffline (construct_async_run host commands config extensions inputs [])
  unfolding construct_async_run from_service
  construct_async_run-IsOffline inputs =
      grind (arith, count-snoc, count-new_partial host config (create_runner ∷ []))

  purge-IsOffline : IsOffline (purge host commands config extensions [])
  unfolding purge
  purge-IsOffline = ground arith

  genesis_wasm-IsOffline :
      (chain : Option String) → IsOffline (genesis_wasm host commands config extensions chain [])
  unfolding genesis_wasm loaded
  genesis_wasm-IsOffline chain = ground arith

  run_benchmark-IsOffline :
      (cmd : BenchmarkCmd) (enabled : Bool)
      → IsOffline (run_benchmark host commands config extensions cmd enabled (create_runner ∷ []))
  unfolding run_benchmark from_service
  run_benchmark-IsOffline cmd enabled =
      grind (arith, count-snoc, count-new_partial host config (create_runner ∷ []))

  -- From an empty log, a subcommand joins no network, follows no relay chain and authors no block;
  -- and its command has run exactly once, or it has not run and the result is an error.
  pub run_subcommand-IsOffline :
      (cmd : Subcommand) → IsOffline (run_subcommand host commands config extensions cmd [])
  unfolding run_subcommand
  run_subcommand-IsOffline build_spec = ground arith
  run_subcommand-IsOffline check_block = construct_async_run-IsOffline _
  run_subcommand-IsOffline export_blocks = construct_async_run-IsOffline _
  run_subcommand-IsOffline export_state = construct_async_run-IsOffline _
  run_subcommand-IsOffline import_blocks = construct_async_run-IsOffline _
  run_subcommand-IsOffline revert = construct_async_run-IsOffline _
  run_subcommand-IsOffline purge_chain = purge-IsOffline
  run_subcommand-IsOffline export_genesis_head = construct_async_run-IsOffline _
  run_subcommand-IsOffline (export_genesis_wasm chain) = genesis_wasm-IsOffline chain
  run_subcommand-IsOffline (benchmark cmd) =
      grind (arith, run_benchmark-IsOffline cmd commands.runtime_benchmarks)

  -- The pallet and the storage benchmarks are refused by a node that was built without the feature,
  -- before the parts of a node are built.
  run_subcommand-not_enabled :
      (cmd : BenchmarkCmd)
      → commands.runtime_benchmarks ≡ false
      → (cmd ≡ pallet) ⊎ (cmd ≡ BenchmarkCmd.storage)
      → let (r, t) = run_subcommand host commands config extensions (benchmark cmd) [] in
        (succeeded r ≡ false) × (t ≡ create_runner ∷ [])
  unfolding run_subcommand run_benchmark
  run_subcommand-not_enabled cmd off which = ground arith

  -- Without the extensions of a chain specification a node does not start: nothing is started, and
  -- the run ends with an error.
  run_node-no_para_id :
      (no_hardware_benchmarks : Bool)
      → extensions ≡ none
      → let (r, t) = run_node host commands config extensions no_hardware_benchmarks [] in
        (succeeded r ≡ false) × (count is_started t ≡ 0)
  unfolding run_node measure expect_para_id
  run_node-no_para_id no_hardware_benchmarks h = ground arith

  -- From an empty log, a node that started and ran until it exited has spawned the consensus task
  -- once if it is an authority, and not at all if it is not.
  pub run_node-authors :
      (no_hardware_benchmarks : Bool)
      → succeeded (run_node host commands config extensions no_hardware_benchmarks []).0 ≡ true
      → count_aura (run_node host commands config extensions no_hardware_benchmarks []).1
        ≡ (if config.is_authority then 1 else 0)
  unfolding run_node measure expect_para_id from_service
  run_node-authors no_hardware_benchmarks h =
      grind (arith, count_aura-append, count_aura-start host config)
