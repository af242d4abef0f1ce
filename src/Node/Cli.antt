-- ===== src/Node/Cli.antt =====
-- node/src/cli.rs, and of node/src/command.rs what `RelayChainCli` answers by itself: its chain and
-- its base path. The arguments that `clap` parsed for the relay chain are the parameter `Base`.
pub mod RelayChain
pub mod Configuration
pub mod About
use Prim.Native.String.{String}
use text.Mathlib.Text.{◌==◌}
use mathlib.Core.Option
use nonfungible_adapter_tuto.Base.{ℕ, Bool, Option, none, some, Result, ok, err, if◌then◌else◌}
use nonfungible_adapter_tuto.Node.ChainSpec.{ChainSpec, Extensions}

-- The benchmark commands that the code tells apart.
pub data BenchmarkCmd : Type 0 where
  pallet block storage machine other : BenchmarkCmd

-- `enum Subcommand`; of the arguments of a subcommand the code reads one `--chain`.
pub data Subcommand : Type 0 where
  build_spec check_block export_blocks export_state import_blocks revert purge_chain : Subcommand
  export_genesis_head : Subcommand
  export_genesis_wasm : Option String → Subcommand
  benchmark : BenchmarkCmd → Subcommand

-- What the code reads of `Cli` besides the parsed arguments of the relay chain.
pub record Cli : Type 0 where
  pub subcommand : Option Subcommand
  pub no_hardware_benchmarks : Bool

pub record RelayChainCli (Base FilePath : Type 0) : Type 0 where
  pub base : Base
  pub chain_id : Option String
  pub base_path : Option FilePath

-- What is used of the arguments of `polkadot_cli::RunCmd`, of paths, and of chain specifications.
pub record RelayChainApi (E Base FilePath Code : Type 0) : Type 0 where
  pub join : FilePath → String → FilePath
  pub base_chain_id : Base → Bool → Result E String
  pub shared_base_path : Base → Result E (Option FilePath)
  pub get_extension : ChainSpec Code → Option Extensions

module _ {E Base FilePath Code : Type 0} (api : RelayChainApi E Base FilePath Code) where
  -- `Extensions::try_get`
  pub try_get : ChainSpec Code → Option Extensions
  try_get spec = api.get_extension spec

  -- `RelayChainCli::new`, given the parsed arguments.
  pub new : ChainSpec Code → FilePath → Base → RelayChainCli Base FilePath
  unfolding try_get
  new spec base_path base = record {
    base = base;
    chain_id = Option.map (λ (e : Extensions). e.relay_chain) (try_get spec);
    base_path = some (api.join base_path "polkadot");
  }

  -- `self.chain_id.clone().unwrap_or_default()`
  or_empty : Option String → String
  or_empty none = ""
  or_empty (some id) = id

  pub chain_id : RelayChainCli Base FilePath → Bool → Result E String
  unfolding or_empty
  chain_id cli is_dev = elim (api.base_chain_id cli.base is_dev) [
    | ok given ↦ ok (if given == "" then or_empty cli.chain_id else given)
    | err e ↦ err e
  ]

  or_else : Option FilePath → Option FilePath → Option FilePath
  or_else none p = p
  or_else (some p) _ = some p

  pub base_path : RelayChainCli Base FilePath → Result E (Option FilePath)
  unfolding or_else
  base_path cli = elim (api.shared_base_path cli.base) [
    | ok given ↦ ok (or_else given cli.base_path)
    | err e ↦ err e
  ]

-- `DefaultConfigurationValues for RelayChainCli`
abbrev pub p2p_listen_port : ℕ
p2p_listen_port = 30334

abbrev pub rpc_listen_port : ℕ
rpc_listen_port = 9945

abbrev pub prometheus_listen_port : ℕ
prometheus_listen_port = 9616
