-- ===== src/Node/ChainSpec/Presets.antt =====
-- The built-in chain specifications of node/src/chain_spec.rs fit the presets of the runtime.
use Prim.Native.String.{String}
use text.Mathlib.TextEquality.{eq_iff}
use nonfungible_adapter_tuto.Base.{◌≡◌, refl, ◌∙◌, ◌⊎◌, inl, inr, Option, some, Result, ok, arith}
use nonfungible_adapter_tuto.Sdk.Keyring.{Keyring, GenesisNames}
use nonfungible_adapter_tuto.Runtime.Genesis.{Genesis, patch_of}
use nonfungible_adapter_tuto.Runtime.Genesis.Lookup.{patch_of_sdk_preset}
use nonfungible_adapter_tuto.Node.ChainSpec.{
  ChainSpec, development_chain_spec, local_chain_spec, read_file, load_spec,
}

-- The names that `load_spec` knows.
abbrev pub IsBuiltIn : String → Type 0
IsBuiltIn id = (id ≡ "dev") ⊎ (id ≡ "template-rococo") ⊎ (id ≡ "") ⊎ (id ≡ "local")

module _ {Code : Type 0} (k : Keyring) (names : GenesisNames) where
  -- A built-in specification: it starts from a preset that the runtime has, that preset sets the
  -- parachain id which the specification announces, and the relay chain is rococo-local.
  abbrev pub FitsRuntime : ChainSpec Code → Type 0
  FitsRuntime spec =
      (g : Genesis k names) × (patch_of k names spec.genesis_config_preset_name ≡ some g)
      × (g.parachain_info.parachain_id ≡ spec.extensions.para_id)
      × (spec.extensions.relay_chain ≡ "rococo-local")

  development_fits :
      (code : Code)
      → (spec : ChainSpec Code) × (development_chain_spec names (some code) ≡ ok spec)
        × FitsRuntime spec
  unfolding development_chain_spec
  development_fits code =
      let (g, e, f) = patch_of_sdk_preset k names (names.dev_runtime_preset) (inl refl) in
      (_, refl, (g, e, f, refl))

  local_fits :
      (code : Code)
      → (spec : ChainSpec Code) × (local_chain_spec names (some code) ≡ ok spec) × FitsRuntime spec
  unfolding local_chain_spec
  local_fits code =
      let (g, e, f) = patch_of_sdk_preset k names (names.local_testnet_runtime_preset) (inr refl) in
      (_, refl, (g, e, f, refl))

  module _ (from_json_file : String → Result String (ChainSpec Code)) where
    load_spec-cases :
        (wasm_binary : Option Code) (id : String)
        → IsBuiltIn id
        → (load_spec names wasm_binary from_json_file id ≡ development_chain_spec names wasm_binary)
          ⊎ (load_spec names wasm_binary from_json_file id ≡ local_chain_spec names wasm_binary)
    unfolding load_spec
    load_spec-cases wasm_binary id h =
        ground
          (arith, eq_iff id "dev", eq_iff id "template-rococo", eq_iff id "", eq_iff id "local")

    -- With the runtime's binary in the build, each built-in name loads, without a look at the file
    -- system, a specification for the relay chain rococo-local whose preset the runtime has, and
    -- that preset sets the parachain id which the specification announces.
    pub load_spec_built_in :
        (code : Code) (id : String)
        → IsBuiltIn id
        → (spec : ChainSpec Code) × (load_spec names (some code) from_json_file id ≡ ok spec)
          × FitsRuntime spec
    load_spec_built_in code id h = elim (load_spec-cases (some code) id h) [
      | inl e ↦ let (spec, f, fits) = development_fits code in (spec, e ∙ f, fits)
      | inr e ↦ let (spec, f, fits) = local_fits code in (spec, e ∙ f, fits)
    ]

    -- Any other name is the path of a file, whose specification or error is the result; a build
    -- without the binary does not panic there.
    load_spec_file :
        (wasm_binary : Option Code) (path : String)
        → ¬ (IsBuiltIn path)
        → load_spec names wasm_binary from_json_file path
          ≡ read_file names wasm_binary from_json_file (from_json_file path)
    unfolding load_spec
    load_spec_file wasm_binary path h = ground (
      arith,
      eq_iff path "dev",
      eq_iff path "template-rococo",
      eq_iff path "",
      eq_iff path "local",
    )
