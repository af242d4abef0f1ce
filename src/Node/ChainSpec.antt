-- ===== src/Node/ChainSpec.antt =====
-- node/src/chain_spec.rs, and `load_spec` of node/src/command.rs: the chain specifications that are
-- built in, and the choice among them and a file.
pub mod Presets
use Prim.Native.String.{String}
use text.Mathlib.Text.{◌==◌}
use nonfungible_adapter_tuto.Base.{
  ℕ, ◌||◌, Option, none, some, List, [], ◌∷◌, Result, ok, err, Stop, raised, panicked,
  if◌then◌else◌,
}
use nonfungible_adapter_tuto.Sdk.Keyring.{GenesisNames}
use nonfungible_adapter_tuto.Runtime.Genesis.{parachain_id}

-- `RELAY_CHAIN`
abbrev pub relay_chain_name : String
relay_chain_name = "rococo-local"

pub record Extensions : Type 0 where
  pub relay_chain : String
  pub para_id : ℕ

-- `sc_service::ChainType`, as far as it is used.
pub data ChainType : Type 0 where
  development local : ChainType

-- A JSON value of a property.
pub data Property : Type 0 where
  string_value : String → Property
  number_value : ℕ → Property

-- What the builder of `GenericChainSpec` is given.
pub record ChainSpec (Code : Type 0) : Type 0 where
  pub code : Code
  pub extensions : Extensions
  pub name : String
  pub id : String
  pub chain_type : ChainType
  pub genesis_config_preset_name : String
  pub protocol_id : Option String
  pub properties : List (String × Property)

abbrev properties : List (String × Property)
properties =
    ("tokenSymbol", string_value "UNIT")
    ∷ ("tokenDecimals", number_value 12)
    ∷ ("ss58Format", number_value 42)
    ∷ []

module _ {Code : Type 0} (names : GenesisNames) (wasm_binary : Option Code) where
  -- `WASM_BINARY.expect(..)`: the build may have left the binary out.
  expect_binary : Option Code → (Code → ChainSpec Code) → Result (Stop String) (ChainSpec Code)
  expect_binary none build = err panicked
  expect_binary (some code) build = ok (build code)

  pub development_chain_spec : Result (Stop String) (ChainSpec Code)
  unfolding expect_binary
  development_chain_spec = expect_binary wasm_binary λ code. record {
    code = code;
    extensions = record { relay_chain = relay_chain_name; para_id = parachain_id };
    name = "Development";
    id = "dev";
    chain_type = development;
    genesis_config_preset_name = names.dev_runtime_preset;
    protocol_id = none;
    properties = properties;
  }

  pub local_chain_spec : Result (Stop String) (ChainSpec Code)
  unfolding expect_binary
  local_chain_spec = expect_binary wasm_binary λ code. record {
    code = code;
    extensions = record { relay_chain = relay_chain_name; para_id = parachain_id };
    name = "Local Testnet";
    id = "local_testnet";
    chain_type = local;
    genesis_config_preset_name = names.local_testnet_runtime_preset;
    protocol_id = some "template-local";
    properties = properties;
  }

  module _ (from_json_file : String → Result String (ChainSpec Code)) where
    -- `ChainSpec::from_json_file(path)?`
    pub read_file : Result String (ChainSpec Code) → Result (Stop String) (ChainSpec Code)
    read_file (ok spec) = ok spec
    read_file (err e) = err (raised e)

    unfoldable pub load_spec : String → Result (Stop String) (ChainSpec Code)
    unfolding read_file
    load_spec id =
        if id == "dev"
        then development_chain_spec
        else if id == "template-rococo"
        then local_chain_spec
        else if id == "" || id == "local"
        then local_chain_spec
        else read_file (from_json_file id)
