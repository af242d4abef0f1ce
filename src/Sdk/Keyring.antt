-- ===== src/Sdk/Keyring.antt =====
-- `sp_keyring::Sr25519Keyring`, the development accounts, and the SDK's names and numbers that the
-- genesis presets use.
use Prim.Native.String.{String}
use mathlib.Core.List.{Memᴰ}
use nonfungible_adapter_tuto.Base.{ℕ, ◌≤◌, ◌≡◌, ◌≢◌, List, length, map, Distinct}

pub record Keyring : Type 1 where
  pub Key : Type 0
  pub AccountId : Type 0
  pub AuraId : Type 0
  pub alice : Key
  pub bob : Key
  pub well_known : List Key
  pub to_account_id : Key → AccountId
  pub public : Key → AuraId
  -- Alice and Bob are among the well known keys, of which there are a few.
  pub alice_well_known : Memᴰ alice well_known
  pub bob_well_known : Memᴰ bob well_known
  -- The well known accounts differ from each other, and so do the session keys of Alice and Bob.
  pub accounts_distinct : Distinct (map to_account_id well_known)
  pub keys_differ : public alice ≢ public bob
  pub accounts_differ : to_account_id alice ≢ to_account_id bob
  pub length-well_known : length well_known ≤ 256

-- `sp_genesis_builder::DEV_RUNTIME_PRESET` and `LOCAL_TESTNET_RUNTIME_PRESET`, and `XCM_VERSION`.
pub record GenesisNames : Type 0 where
  pub dev_runtime_preset : String
  pub local_testnet_runtime_preset : String
  pub xcm_version : ℕ
  pub dev_runtime_preset_lem : dev_runtime_preset ≡ "development"
  pub local_testnet_runtime_preset_lem : local_testnet_runtime_preset ≡ "local_testnet"
