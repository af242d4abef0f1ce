-- ===== src/Runtime/Genesis/Lookup.antt =====
-- `get_preset` against `preset_names` (runtime/src/genesis_config_presets.rs).
use Prim.Native.String.{String}
use text.Mathlib.Text.{◌==◌}
use text.Mathlib.TextEquality.{eq_iff}
use mathlib.Core.List.{Memᴰ}
use nonfungible_adapter_tuto.Base.{
  ◌≡◌, refl, ◌≢◌, ◌↔◌, ◌⊎◌, Bool-cases, inl, inr, Option, none, some, Option-cases, ok, arith,
}
use nonfungible_adapter_tuto.Sdk.Keyring.{Keyring, GenesisNames}
use nonfungible_adapter_tuto.Runtime.Genesis.{
  Genesis, parachain_id, local_testnet_genesis, development_config_genesis, parachain_a_preset,
  parachain_b_preset, patch_of, preset_names, get_preset,
}
use nonfungible_adapter_tuto.Runtime.Genesis.Presets.{IsPreset, patch_of-IsPreset}

module _ (k : Keyring) (names : GenesisNames) where
  open names use {dev_runtime_preset, local_testnet_runtime_preset}

  -- The four names, as a disjunction.
  IsListed : String → Type 0
  IsListed id =
      (id ≡ dev_runtime_preset)
      ⊎ (id ≡ local_testnet_runtime_preset)
      ⊎ (id ≡ parachain_a_preset)
      ⊎ (id ≡ parachain_b_preset)

  IsListed-of_mem : (id : String) → Memᴰ id (preset_names k names) → IsListed id
  unfolding preset_names IsListed
  IsListed-of_mem id (Memᴰ.head e) = inl e
  IsListed-of_mem id (Memᴰ.tail (Memᴰ.head e)) = inr (inl e)
  IsListed-of_mem id (Memᴰ.tail (Memᴰ.tail (Memᴰ.head e))) = inr (inr (inl e))
  IsListed-of_mem id (Memᴰ.tail (Memᴰ.tail (Memᴰ.tail (Memᴰ.head e)))) = inr (inr (inr e))
  IsListed-of_mem id (Memᴰ.tail (Memᴰ.tail (Memᴰ.tail (Memᴰ.tail m)))) = elim m [ ]

  mem_of_listed : (id : String) → IsListed id → Memᴰ id (preset_names k names)
  unfolding preset_names IsListed
  mem_of_listed id (inl e) = Memᴰ.head e
  mem_of_listed id (inr (inl e)) = Memᴰ.tail (Memᴰ.head e)
  mem_of_listed id (inr (inr (inl e))) = Memᴰ.tail (Memᴰ.tail (Memᴰ.head e))
  mem_of_listed id (inr (inr (inr e))) = Memᴰ.tail (Memᴰ.tail (Memᴰ.tail (Memᴰ.head e)))

  patch_of-none : (id : String) → (patch_of k names id ≡ none) ↔ (¬ (IsListed id))
  unfolding patch_of IsListed
  patch_of-none id = ground (
    arith,
    eq_iff id dev_runtime_preset,
    eq_iff id local_testnet_runtime_preset,
    eq_iff id parachain_a_preset,
    eq_iff id parachain_b_preset,
  )

  patch_of-mem :
      (id : String) {g : Genesis k names}
      → patch_of k names id ≡ some g
      → Memᴰ id (preset_names k names)
  unfolding patch_of IsListed
  patch_of-mem id e = mem_of_listed id (
      ground (
        arith,
        eq_iff id dev_runtime_preset,
        eq_iff id local_testnet_runtime_preset,
        eq_iff id parachain_a_preset,
        eq_iff id parachain_b_preset,
      ))

  -- If every configuration has a JSON text, then no lookup panics: a listed name gives the text of
  -- a configuration that is consistent, endows no account and gives no session key twice, has one or
  -- more collators and no more than 20, and has the id of one of the two parachains; and any other
  -- name gives nothing.
  pub get_preset_total :
      {Bytes : Type 0} (to_json : Genesis k names → Option Bytes)
      → ((g : Genesis k names) → to_json g ≢ none)
      → (id : String)
      → (Memᴰ id (preset_names k names)
          × (g : Genesis k names) × (text : Bytes) × (to_json g ≡ some text)
          × (get_preset k names to_json id ≡ ok (some text))
          × IsPreset k names g)
        ⊎ (¬ (Memᴰ id (preset_names k names)) × (get_preset k names to_json id ≡ ok none))
  unfolding get_preset
  get_preset_total to_json total id = elim (Option-cases (patch_of k names id)) [
    | inl e ↦ inr (λ m. (patch_of-none id).0 e (IsListed-of_mem id m), rw (e, get_preset))
    | inr (g, e) ↦ elim (Option-cases (to_json g)) [
      | inl f ↦ absurd (total g f)
      | inr (text, f) ↦
          inl (
            patch_of-mem id e,
            g,
            text,
            f,
            rw (e, get_preset) (rw f),
            patch_of-IsPreset k names id e,
          )
    ]
  ]

  -- The two presets of the SDK start a chain with the id of parachain A.
  pub patch_of_sdk_preset :
      (id : String)
      → (id ≡ dev_runtime_preset) ⊎ (id ≡ local_testnet_runtime_preset)
      → (g : Genesis k names) × (patch_of k names id ≡ some g)
        × (g.parachain_info.parachain_id ≡ parachain_id)
  unfolding patch_of local_testnet_genesis development_config_genesis
  patch_of_sdk_preset id h = elim (Bool-cases (id == local_testnet_runtime_preset)) [
    | inl e ↦ (local_testnet_genesis k names, rw e, refl)
    | inr e ↦ (
      development_config_genesis k names,
      rw e (ground (arith, eq_iff id dev_runtime_preset, eq_iff id local_testnet_runtime_preset)),
      refl,
    )
  ]
