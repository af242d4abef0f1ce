-- ===== src/Node/Cli/About.antt =====
-- `SubstrateCli`, which node/src/command.rs implements for `Cli` and for `RelayChainCli`: what they say
-- of themselves, and how they load a chain specification.
use Prim.Native.String.{String, ◌++◌}
use nonfungible_adapter_tuto.Base.{ℕ, Option, Result, Stop}
use nonfungible_adapter_tuto.Sdk.Keyring.{GenesisNames}
use nonfungible_adapter_tuto.Node.ChainSpec.{ChainSpec, load_spec}

pub record SubstrateCli (Code : Type 0) : Type 0 where
  pub impl_name : String
  pub impl_version : String
  pub description : String
  pub author : String
  pub support_url : String
  pub copyright_start_year : ℕ
  pub load_spec : String → Result (Stop String) (ChainSpec Code)

-- What `env!` reads of the build, the name of the program, and the specifications that
-- `polkadot_cli` loads.
pub record Build (Code : Type 0) : Type 0 where
  pub impl_version : String
  pub authors : String
  pub executable_name : String
  pub polkadot_load_spec : String → Result (Stop String) (ChainSpec Code)

module _ {Code : Type 0} (build : Build Code) where
  abbrev describe : String
  describe =
      "Parachain Collator Template\n\nThe command-line arguments provided first will be "
      ++ "passed to the parachain node, while the arguments provided after -- will be passed "
      ++ "to the relay chain node.\n\n" ++ build.executable_name
      ++ " <parachain-args> -- <relay-chain-args>"

  abbrev pub cli :
      GenesisNames → Option Code → (String → Result String (ChainSpec Code)) → SubstrateCli Code
  cli names wasm_binary from_json_file = record {
    impl_name = "Parachain Collator Template";
    impl_version = build.impl_version;
    description = describe;
    author = build.authors;
    support_url = "https://github.com/paritytech/polkadot-sdk/issues/new";
    copyright_start_year = 2020;
    load_spec = load_spec names wasm_binary from_json_file;
  }

  abbrev pub relay_chain_cli : SubstrateCli Code
  relay_chain_cli = record {
    impl_name = "Parachain Collator Template";
    impl_version = build.impl_version;
    description = describe;
    author = build.authors;
    support_url = "https://github.com/paritytech/polkadot-sdk/issues/new";
    copyright_start_year = 2020;
    load_spec = build.polkadot_load_spec;
  }
