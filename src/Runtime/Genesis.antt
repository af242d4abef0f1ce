-- ===== src/Runtime/Genesis.antt =====
-- runtime/src/genesis_config_presets.rs: the genesis configuration of each preset, and the lookup
-- of a preset by its name. The JSON text that `serde_json` makes of a configuration is the
-- parameter `to_json`, whose `none` is the error that `expect` turns into a panic.
pub mod Configs
pub mod Presets
pub mod Lookup
pub mod Documented
use Prim.Native.String.{String}
use text.Mathlib.Text.{◌==◌}
use nonfungible_adapter_tuto.Base.{
  ℕ, ◌*◌, ◌^◌, Option, none, some, List, [], ◌∷◌, map, Result, ok, err, Stop, panicked,
  if◌then◌else◌,
}
use nonfungible_adapter_tuto.Sdk.Keyring.{Keyring, GenesisNames}
use nonfungible_adapter_tuto.Runtime.Units.{existential_deposit}

-- `PARACHAIN_ID`, `PARACHAIN_B_ID`, and the names of the presets of this repository.
abbrev pub parachain_id : ℕ
parachain_id = 1000

abbrev pub parachain_b_id : ℕ
parachain_b_id = 1001

abbrev pub parachain_a_preset : String
parachain_a_preset = "parachain-a"

abbrev pub parachain_b_preset : String
parachain_b_preset = "parachain-b"

pub record SessionKeys (AuraId : Type 0) : Type 0 where
  pub aura : AuraId

-- The patch of `RuntimeGenesisConfig` that `testnet_genesis` builds, pallet by pallet.
pub record BalancesConfig (AccountId : Type 0) : Type 0 where
  pub balances : List (AccountId × ℕ)

pub record ParachainInfoConfig : Type 0 where
  pub parachain_id : ℕ

pub record CollatorSelectionConfig (AccountId : Type 0) : Type 0 where
  pub invulnerables : List AccountId
  pub candidacy_bond : ℕ

pub record SessionConfig (AccountId AuraId : Type 0) : Type 0 where
  pub keys : List (AccountId × AccountId × SessionKeys AuraId)

pub record PolkadotXcmConfig : Type 0 where
  pub safe_xcm_version : Option ℕ

pub record SudoConfig (AccountId : Type 0) : Type 0 where
  pub key : Option AccountId

pub record RuntimeGenesisConfig (AccountId AuraId : Type 0) : Type 0 where
  pub balances : BalancesConfig AccountId
  pub parachain_info : ParachainInfoConfig
  pub collator_selection : CollatorSelectionConfig AccountId
  pub session : SessionConfig AccountId AuraId
  pub polkadot_xcm : PolkadotXcmConfig
  pub sudo : SudoConfig AccountId

pub template_session_keys : {AuraId : Type 0} → AuraId → SessionKeys AuraId
template_session_keys keys = record { aura = keys }

-- `1u128 << 60`
abbrev pub endowment : ℕ
endowment = 1 * 2 ^ 60

pub testnet_genesis :
    {AccountId AuraId : Type 0}
    → GenesisNames
    → List (AccountId × AuraId)
    → List AccountId
    → AccountId
    → ℕ
    → RuntimeGenesisConfig AccountId AuraId
unfolding template_session_keys
testnet_genesis names invulnerables endowed_accounts root id = record {
  balances = record { balances = map (λ k. (k, endowment)) endowed_accounts };
  parachain_info = record { parachain_id = id };
  collator_selection = record {
    invulnerables = map (λ x. x.0) invulnerables;
    candidacy_bond = existential_deposit * 16;
  };
  session = record { keys = map (λ x. (x.0, x.0, template_session_keys x.1)) invulnerables };
  polkadot_xcm = record { safe_xcm_version = some names.xcm_version };
  sudo = record { key = some root };
}

module _ (k : Keyring) (names : GenesisNames) where
  open k use {Key, AccountId, AuraId, alice, bob, well_known, to_account_id, public}
  open names use {dev_runtime_preset, local_testnet_runtime_preset}

  -- A collator of a preset, and the endowed accounts, which are the same in all of them.
  abbrev pub collator : Key → AccountId × AuraId
  collator key = (to_account_id key, public key)

  abbrev pub endowed : List AccountId
  endowed = map to_account_id well_known

  abbrev pub Genesis : Type 0
  Genesis = RuntimeGenesisConfig AccountId AuraId

  pub local_testnet_genesis : Genesis
  unfolding testnet_genesis
  local_testnet_genesis =
      testnet_genesis names (collator alice ∷ collator bob ∷ []) endowed (to_account_id alice)
        parachain_id

  pub development_config_genesis : Genesis
  unfolding testnet_genesis
  development_config_genesis =
      testnet_genesis names (collator alice ∷ collator bob ∷ []) endowed (to_account_id alice)
        parachain_id

  pub parachain_a_genesis : Genesis
  unfolding testnet_genesis
  parachain_a_genesis =
      testnet_genesis names (collator alice ∷ []) endowed (to_account_id alice) parachain_id

  pub parachain_b_genesis : Genesis
  unfolding testnet_genesis
  parachain_b_genesis =
      testnet_genesis names (collator bob ∷ []) endowed (to_account_id bob) parachain_b_id

  -- The `match` of `get_preset`.
  unfoldable pub patch_of : String → Option Genesis
  patch_of id =
      if id == local_testnet_runtime_preset
      then some local_testnet_genesis
      else if id == dev_runtime_preset
      then some development_config_genesis
      else if id == parachain_a_preset
      then some parachain_a_genesis
      else if id == parachain_b_preset
      then some parachain_b_genesis
      else none

  pub preset_names : List String
  preset_names =
      dev_runtime_preset ∷ local_testnet_runtime_preset ∷ parachain_a_preset ∷ parachain_b_preset
      ∷ []

  module _ {Bytes : Type 0} (to_json : Genesis → Option Bytes) where
    -- `expect` on the text of a configuration.
    expect_json : Option Bytes → Result (Stop ⊥) (Option Bytes)
    expect_json none = err panicked
    expect_json (some text) = ok (some text)

    pub get_preset : String → Result (Stop ⊥) (Option Bytes)
    unfolding expect_json
    get_preset id = elim (patch_of id) [ none ↦ ok none | some patch ↦ expect_json (to_json patch) ]
