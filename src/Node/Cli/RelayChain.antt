-- ===== src/Node/Cli/RelayChain.antt =====
-- The relay chain of a node (`RelayChainCli` of node/src/cli.rs and node/src/command.rs), from the
-- chain specification of the parachain and from the command line.
use Prim.Native.String.{String}
use text.Mathlib.TextEquality.{eq_iff}
use nonfungible_adapter_tuto.Base.{
  ◌≡◌, ◌≢◌, ◌⊎◌, inl, inr, refl, ap, ◌∙◌, Bool, some, Result, ok, arith,
}
use nonfungible_adapter_tuto.Sdk.Keyring.{Keyring, GenesisNames}
use nonfungible_adapter_tuto.Node.ChainSpec.{ChainSpec, Extensions, load_spec}
use nonfungible_adapter_tuto.Node.ChainSpec.Presets.{IsBuiltIn, load_spec_built_in}
use nonfungible_adapter_tuto.Node.Cli.{RelayChainApi, new, chain_id}

module _ {E Base FilePath Code : Type 0} (api : RelayChainApi E Base FilePath Code) where
  -- The chain that the command line names wins over the relay chain of the specification's
  -- extensions, which stands in for an empty name.
  pub chain_id-new :
      (spec : ChainSpec Code) (path : FilePath) (base : Base) (is_dev : Bool) (given : String)
      (e : Extensions)
      → api.get_extension spec ≡ some e
      → api.base_chain_id base is_dev ≡ ok given
      → let answer = chain_id api (new api spec path base) is_dev in
        ((given ≢ "") × (answer ≡ ok given)) ⊎ ((given ≡ "") × (answer ≡ ok e.relay_chain))
  unfolding chain_id new
  chain_id-new spec path base is_dev given e h g = ground (arith, eq_iff given "")

  -- A node on a built-in specification, with the runtime's binary in the build, takes
  -- "rococo-local" as its relay chain where the command line names none, if the SDK finds in every
  -- specification the extensions it was built with.
  built_in_relay_chain :
      (k : Keyring) (names : GenesisNames)
      (from_json_file : String → Result String (ChainSpec Code)) (code : Code) (id : String)
      (path : FilePath) (base : Base) (is_dev : Bool)
      → ((spec : ChainSpec Code) → api.get_extension spec ≡ some spec.extensions)
      → api.base_chain_id base is_dev ≡ ok ""
      → IsBuiltIn id
      → (spec : ChainSpec Code) × (load_spec names (some code) from_json_file id ≡ ok spec)
        × (chain_id api (new api spec path base) is_dev ≡ ok "rococo-local")
  built_in_relay_chain k names from_json_file code id path base is_dev finds empty h =
      let (spec, loaded, (_, _, _, relay)) = load_spec_built_in k names from_json_file code id h in
      elim (chain_id-new spec path base is_dev "" spec.extensions (finds spec) empty) [
        | inl (named, _) ↦ absurd (named refl)
        | inr (_, default) ↦ (spec, loaded, default ∙ ap ok relay)
      ]
