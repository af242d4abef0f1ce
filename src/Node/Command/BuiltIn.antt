-- ===== src/Node/Command/BuiltIn.antt =====
-- A node that `run` of node/src/command.rs starts, from the specification that `load_spec` gives a
-- built-in name to the consensus task of node/src/service.rs.
use Prim.Native.String.{String}
use nonfungible_adapter_tuto.Base.{
  ℕ, ◌≡◌, Bool, true, false, Option, some, List, [], Result, ok, err, raised, panicked, Stop, All,
}
use nonfungible_adapter_tuto.Sdk.Numbers.{Numbers}
use nonfungible_adapter_tuto.Sdk.Keyring.{Keyring}
use nonfungible_adapter_tuto.Runtime.Genesis.{Genesis, patch_of}
use nonfungible_adapter_tuto.Node.Effects.{
  Effect, create_runner, create_database_dir, gather_hwbench, create_relay_chain_configuration,
  log_collating, run_until_exit, Run, act, try_act, ◌>>◌,
}
use nonfungible_adapter_tuto.Node.Invariants.{Keeps, logged, act-Keeps, try_act-Keeps, bind-Keeps}
use nonfungible_adapter_tuto.Node.ChainSpec.{ChainSpec, Extensions, load_spec}
use nonfungible_adapter_tuto.Node.ChainSpec.Presets.{IsBuiltIn, load_spec_built_in}
use nonfungible_adapter_tuto.Node.Service.{ServiceError, Configuration, Host, start_parachain_node}
use nonfungible_adapter_tuto.Node.Service.Timing.{Timed, start-Timed}
use nonfungible_adapter_tuto.Node.Command.{
  CommandHost, CliError, service, command_error, from_service, measure, expect_para_id,
  relay_chain_configuration, run_node,
}

module _ {E HwBench Key Code : Type 0} (host : Host E HwBench Key)
    (commands : CommandHost E HwBench Code) (config : Configuration) (e : Extensions) where
  -- The errors of the service become errors of the command, and the log stays.
  converted :
      (P : Effect → Type 0) {A : Type 0} (r : Result (Stop (ServiceError E)) A) (t : List Effect)
      → All P t
      → let (_, u) : Result (Stop (CliError E)) A × List Effect = elim r [
        | ok a ↦ (ok a, t)
        | err (raised x) ↦ (err (raised (service x)), t)
        | err panicked ↦ (err panicked, t)
      ] in
        All P u
  converted P (ok a) t l = l
  converted P (err (raised x)) t l = l
  converted P (err panicked) t l = l

  from_service-Keeps :
      (P : Effect → Type 0) {A : Type 0} (m : Run Effect (ServiceError E) A)
      → Keeps P m
      → Keeps P (from_service host commands config (some e) m)
  unfolding from_service
  from_service-Keeps P m h = record {
    kept = λ log l. converted P (m log).0 (m log).1 (h.kept log l);
  }

  module _ (n : Numbers) (max_pov_size : ℕ) where
    abbrev Kept : {F A : Type 0} → Run Effect F A → Type 0
    Kept m = Keeps (Timed n max_pov_size e.para_id) m

    measure-Kept : (off has_path : Bool) → Kept (measure host commands config (some e) off has_path)
    unfolding measure
    measure-Kept false true = record {
      kept = λ log l.
          let P = Timed n max_pov_size e.para_id in
          logged P gather_hwbench _ tt (logged P create_database_dir log tt l);
    }
    measure-Kept false false = record { kept = λ log l. l }
    measure-Kept true _ = record { kept = λ log l. l }

    -- What `run_node` does once it has the parachain id.
    started_on-Kept :
        (hwbench : Option HwBench)
        → Kept (do
          relay_chain_configuration host commands config (some e)
          act (log_collating config.is_authority)
          from_service host commands config
              (some e)
              (start_parachain_node host config e.para_id hwbench)
          try_act command_error run_until_exit commands.until_exit)
    unfolding relay_chain_configuration
    started_on-Kept hwbench =
        let P = Timed n max_pov_size e.para_id in
        bind-Keeps P _ _ (try_act-Keeps P _ create_relay_chain_configuration _ tt) (λ _.
          bind-Keeps P _ _ (act-Keeps P (log_collating config.is_authority) tt) (λ _.
            bind-Keeps P
              (from_service host commands config (some e)
                (start_parachain_node host config e.para_id hwbench))
              _
              (from_service-Keeps P _
                (record { kept = start-Timed n max_pov_size e.para_id host config hwbench }))
              (λ _. try_act-Keeps P command_error run_until_exit commands.until_exit tt)))

    -- Every consensus task that starting the node adds to a log is timed, and authors for the
    -- parachain that the specification announces.
    run_node-Kept : (off : Bool) → Kept (run_node host commands config (some e) off)
    unfolding run_node expect_para_id
    run_node-Kept off =
        let P = Timed n max_pov_size e.para_id in
        bind-Keeps P _ _ (try_act-Keeps P _ create_runner _ tt)
          (λ _. bind-Keeps P _ _ (measure-Kept off commands.has_database_path) started_on-Kept)

module _ {E HwBench Key Code : Type 0} (host : Host E HwBench Key)
    (commands : CommandHost E HwBench Code) (config : Configuration) where
  -- In a build with the runtime's binary, each built-in name loads a specification, of a preset that
  -- the runtime has and for the relay chain rococo-local; and a node that is started on it, with the specification's extensions and
  -- from an empty log, has only consensus tasks that author for the parachain id which this
  -- preset's genesis sets, for as long as a full block takes to execute, in slots that are those
  -- of the runtime and of the relay chain.
  pub run_node_built_in :
      (n : Numbers) (max_pov_size : ℕ) (k : Keyring) (code : Code) (id : String)
      → commands.wasm_binary ≡ some code
      → IsBuiltIn id
      → (spec : ChainSpec Code) × (load_spec commands.names commands.wasm_binary
            commands.from_json_file id
          ≡ ok spec)
        × (g : Genesis k commands.names) × (patch_of k commands.names
              spec.genesis_config_preset_name
            ≡ some g)
        × (spec.extensions.relay_chain ≡ "rococo-local")
        × ((off : Bool)
            → All
                (Timed n max_pov_size g.parachain_info.parachain_id)
                (run_node host commands config (some spec.extensions) off []).1)
  run_node_built_in n max_pov_size k code id built known =
      let (spec, loaded, fits) =
        load_spec_built_in k commands.names commands.from_json_file code id known in
      let (g, preset, same_id, relay) = fits in
      (
        spec,
        rw built loaded,
        g,
        preset,
        relay,
        λ off.
            rw same_id
              ((run_node-Kept host commands config spec.extensions n max_pov_size off).kept [] tt),
      )
