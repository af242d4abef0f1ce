-- ===== src/Runtime/Apis/Genesis.antt =====
-- `GenesisBuilder` of runtime/src/apis.rs: how the node gets the presets of the runtime, and has a
-- state built. The functions of `frame_support::genesis_builder_helper` are the record `GenesisSdk`.
use Prim.Native.String.{String}
use mathlib.Core.List.{Memᴰ}
use nonfungible_adapter_tuto.Base.{
  ◌≡◌, ◌≢◌, ◌∙◌, inl, inr, Option, none, some, List, Result, ok, Stop,
}
use nonfungible_adapter_tuto.Sdk.Keyring.{Keyring, GenesisNames}
use nonfungible_adapter_tuto.Runtime.Genesis
use nonfungible_adapter_tuto.Runtime.Genesis.{Genesis}
use nonfungible_adapter_tuto.Runtime.Genesis.Presets.{IsPreset}
use nonfungible_adapter_tuto.Runtime.Genesis.Lookup.{get_preset_total}

pub record GenesisSdk : Type 1 where
  pub Bytes : Type 0
  pub State : Type 0
  pub build_state : Bytes → Result String State
  -- The text of the default configuration, which is the answer where no preset is asked for.
  pub default_config : Bytes
  pub get_preset :
      Option String → (String → Result (Stop ⊥) (Option Bytes)) → Result (Stop ⊥) (Option Bytes)
  pub get_preset-none :
      (f : String → Result (Stop ⊥) (Option Bytes)) → get_preset none f ≡ ok (some default_config)
  pub get_preset-some :
      (id : String) (f : String → Result (Stop ⊥) (Option Bytes)) → get_preset (some id) f ≡ f id

module _ (sdk : GenesisSdk) (k : Keyring) (names : GenesisNames)
    (to_json : Genesis k names → Option sdk.Bytes) where
  open sdk use {Bytes, State}

  pub record GenesisBuilder : Type 0 where
    pub build_state : Bytes → Result String State
    pub get_preset : Option String → Result (Stop ⊥) (Option Bytes)
    pub preset_names : List String

  abbrev pub genesis_builder : GenesisBuilder
  genesis_builder = record {
    build_state = sdk.build_state;
    get_preset = λ id. sdk.get_preset id (Genesis.get_preset k names to_json);
    preset_names = Genesis.preset_names k names;
  }

  -- Every preset that the runtime lists, it answers with the text of a configuration that a chain can
  -- start from, if every configuration has a text.
  listed-IsPreset :
      (id : String)
      → ((g : Genesis k names) → to_json g ≢ none)
      → Memᴰ id genesis_builder.preset_names
      → (g : Genesis k names) × (text : Bytes) × (to_json g ≡ some text)
        × (genesis_builder.get_preset (some id) ≡ ok (some text))
        × IsPreset k names g
  listed-IsPreset id total m = elim (get_preset_total k names to_json total id) [
    | inl (_, g, text, e, answer, preset) ↦
        (g, text, e, sdk.get_preset-some id (Genesis.get_preset k names to_json) ∙ answer, preset)
    | inr (unlisted, _) ↦ absurd (unlisted m)
  ]
