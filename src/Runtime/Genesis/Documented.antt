-- ===== src/Runtime/Genesis/Documented.antt =====
-- The presets of runtime/src/genesis_config_presets.rs against the table of presets in README.md.
use Prim.Native.String.{String}
use nonfungible_adapter_tuto.Base.{ℕ, ◌≡◌, refl, some, List, [], ◌∷◌, All}
use nonfungible_adapter_tuto.Sdk.Keyring.{Keyring, GenesisNames}
use nonfungible_adapter_tuto.Runtime.Genesis.{
  Genesis, testnet_genesis, patch_of, parachain_a_genesis, parachain_b_genesis,
}

-- A row of the table: the name, the parachain id, and the key of the collator and of sudo.
abbrev pub Row : Keyring → Type 0
Row k = String × ℕ × k.Key × k.Key

abbrev pub table : (k : Keyring) → List (Row k)
table k = ("parachain-a", 1000, k.alice, k.alice) ∷ ("parachain-b", 1001, k.bob, k.bob) ∷ []

module _ (k : Keyring) (names : GenesisNames) where
  abbrev pub IsRow : Row k → Type 0
  IsRow (name, id, collator, sudo) =
      (g : Genesis k names) × (patch_of k names name ≡ some g)
      × (g.parachain_info.parachain_id ≡ id)
      × (g.collator_selection.invulnerables ≡ k.to_account_id collator ∷ [])
      × (g.sudo.key ≡ some (k.to_account_id sudo))

  -- Each row of the table of README.md is a preset, with that parachain id, that one collator and
  -- that sudo key.
  table-IsRow : All IsRow (table k)
  unfolding patch_of testnet_genesis parachain_a_genesis parachain_b_genesis
  table-IsRow = (
    (
      parachain_a_genesis k names,
      rw (names.dev_runtime_preset_lem, names.local_testnet_runtime_preset_lem) refl,
      refl,
      refl,
      refl,
    ),
    (
      (
        parachain_b_genesis k names,
        rw (names.dev_runtime_preset_lem, names.local_testnet_runtime_preset_lem) refl,
        refl,
        refl,
        refl,
      ),
      tt,
    ),
  )
