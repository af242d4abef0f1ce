-- ===== src/Node/Cli/Configuration.antt =====
-- `CliConfiguration`, which node/src/command.rs implements for `RelayChainCli`, as a record over what
-- implements it.
use Prim.Native.String.{String}
use nonfungible_adapter_tuto.Base.{
  ℕ, ◌≡◌, ◌≢◌, ◌⊎◌, Bool, Option, none, some, List, Result, ok, err, Stop, panicked, arith,
}
use nonfungible_adapter_tuto.Node.ChainSpec.{ChainSpec}
use nonfungible_adapter_tuto.Node.Cli.{RelayChainCli, RelayChainApi, new, chain_id, base_path}

-- The types that the methods answer with.
pub record CliTypes : Type 1 where
  pub Code : Type 0
  pub FilePath : Type 0
  pub SharedParams : Type 0
  pub ImportParams : Type 0
  pub NetworkParams : Type 0
  pub KeystoreParams : Type 0
  pub RpcEndpoint : Type 0
  pub PrometheusConfig : Type 0
  pub Role : Type 0
  pub TransactionPoolOptions : Type 0
  pub RpcMethods : Type 0
  pub TelemetryEndpoints : Type 0

-- The methods that the source implements; each may fail with an `E`, and `init` can also panic.
pub record CliConfiguration (t : CliTypes) (E Self : Type 0) : Type 0 where
  pub shared_params : Self → t.SharedParams
  pub import_params : Self → Option t.ImportParams
  pub network_params : Self → Option t.NetworkParams
  pub keystore_params : Self → Option t.KeystoreParams
  pub base_path : Self → Result E (Option t.FilePath)
  pub rpc_addr : Self → ℕ → Result E (Option (List t.RpcEndpoint))
  pub prometheus_config : Self → ℕ → ChainSpec t.Code → Result E (Option t.PrometheusConfig)
  pub init : Self → Result (Stop E) (Unit {0})
  pub chain_id : Self → Bool → Result E String
  pub role : Self → Bool → Result E t.Role
  pub transaction_pool : Self → Bool → Result E t.TransactionPoolOptions
  pub trie_cache_maximum_size : Self → Result E (Option ℕ)
  pub rpc_methods : Self → Result E t.RpcMethods
  pub rpc_max_connections : Self → Result E ℕ
  pub rpc_cors : Self → Bool → Result E (Option (List String))
  pub default_heap_pages : Self → Result E (Option ℕ)
  pub force_authoring : Self → Result E Bool
  pub disable_grandpa : Self → Result E Bool
  pub max_runtime_instances : Self → Result E (Option ℕ)
  pub announce_block : Self → Result E Bool
  pub telemetry_endpoints : Self → ChainSpec t.Code → Result E (Option t.TelemetryEndpoints)
  pub node_name : Self → Result E String

module _ {t : CliTypes} {E Base : Type 0} (api : RelayChainApi E Base t.FilePath t.Code)
    (inner : CliConfiguration t E Base) where
  -- All but three methods pass on to the arguments of the relay chain's own command line.
  abbrev pub relay_chain_cli : CliConfiguration t E (RelayChainCli Base t.FilePath)
  relay_chain_cli = record {
    shared_params = λ self. inner.shared_params self.base;
    import_params = λ self. inner.import_params self.base;
    network_params = λ self. inner.network_params self.base;
    keystore_params = λ self. inner.keystore_params self.base;
    base_path = λ self. base_path api self;
    rpc_addr = λ self default_listen_port. inner.rpc_addr self.base default_listen_port;
    prometheus_config = λ self default_listen_port chain_spec.
        inner.prometheus_config self.base default_listen_port chain_spec;
    -- `unreachable!`
    init = λ self. err panicked;
    chain_id = λ self is_dev. chain_id api self is_dev;
    role = λ self is_dev. inner.role self.base is_dev;
    transaction_pool = λ self is_dev. inner.transaction_pool self.base is_dev;
    trie_cache_maximum_size = λ self. inner.trie_cache_maximum_size self.base;
    rpc_methods = λ self. inner.rpc_methods self.base;
    rpc_max_connections = λ self. inner.rpc_max_connections self.base;
    rpc_cors = λ self is_dev. inner.rpc_cors self.base is_dev;
    default_heap_pages = λ self. inner.default_heap_pages self.base;
    force_authoring = λ self. inner.force_authoring self.base;
    disable_grandpa = λ self. inner.disable_grandpa self.base;
    max_runtime_instances = λ self. inner.max_runtime_instances self.base;
    announce_block = λ self. inner.announce_block self.base;
    telemetry_endpoints = λ self chain_spec. inner.telemetry_endpoints self.base chain_spec;
    node_name = λ self. inner.node_name self.base;
  }

  -- The relay chain of a node always has a directory, unless reading the command line fails: the one
  -- that the command line gives, and otherwise the folder "polkadot" under the path of
  -- the parachain, which no path is equal to if joining always makes a new path.
  base_path-new :
      (spec : ChainSpec t.Code) (path : t.FilePath) (base : Base)
      → ((p : t.FilePath) → api.join p "polkadot" ≢ p)
      → let answer = relay_chain_cli.base_path (new api spec path base) in
        ((e : E) × (api.shared_base_path base ≡ err e) × (answer ≡ err e))
        ⊎ ((given : t.FilePath) × (api.shared_base_path base ≡ ok (some given))
            × (answer ≡ ok (some given)))
        ⊎ ((api.shared_base_path base ≡ ok none)
            × (answer ≡ ok (some (api.join path "polkadot")))
            × (answer ≢ ok (some path)))
  unfolding base_path new
  base_path-new spec path base apart = ground (arith, apart path)
