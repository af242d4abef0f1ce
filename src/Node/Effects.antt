-- ===== src/Node/Effects.antt =====
-- What the node does to the world, as a log. Every call of the SDK that starts, builds or runs
-- something is an entry; a call that can fail takes its result from a record `Host`. The SDK's
-- objects (client, backend, pool, handles) carry no decision of this code and are left out.
use nonfungible_adapter_tuto.Base.{
  ℕ, Bool, Option, List, [], ◌∷◌, ◌++◌, Result, ok, err, Stop, raised,
}

-- `HeapAllocStrategy`: the SDK's default, or a fixed number of extra pages.
pub data HeapAllocStrategy : Type 0 where
  default_heap_alloc_strategy : HeapAllocStrategy
  static : ℕ → HeapAllocStrategy

pub data DaRecoveryProfile : Type 0 where
  collator full_node : DaRecoveryProfile

pub data CollatorSybilResistance : Type 0 where
  resistant unresistant : CollatorSybilResistance

-- What `AuraParams` holds besides the SDK's objects.
pub record AuraParams : Type 0 where
  pub para_id : ℕ
  pub relay_chain_slot_secs : ℕ
  pub authoring_duration_millis : ℕ
  pub reinitialize : Bool
  pub max_pov_percentage : Option ℕ

-- What a block is checked to have been made with: the time of the system.
pub data InherentDataProvider : Type 0 where
  timestamp_from_system_time : InherentDataProvider

-- The names of the tasks that the node spawns itself.
pub data Task : Type 0 where
  telemetry offchain_workers_runner telemetry_hwbench : Task

-- What a subcommand is run with.
pub data Input : Type 0 where
  client import_queue backend database chain_spec network config relay_chain_config : Input
  loaded_spec db storage reference_hardware : Input

pub data Effect : Type 0 where
  -- node/src/command.rs
  create_runner create_relay_chain_configuration : Effect
  create_database_dir gather_hwbench run_until_exit : Effect
  log_collating : Bool → Effect
  run_command : List Input → Effect
  -- node/src/service.rs
  new_telemetry_worker : Effect
  build_executor : HeapAllocStrategy → Effect
  new_full_parts : Effect
  build_transaction_pool : Bool → Effect
  fully_verifying_import_queue : List InherentDataProvider → Effect
  spawn : Task → Effect
  spawn_essential_aura : AuraParams → Effect
  build_network : ℕ → CollatorSybilResistance → Effect
  build_relay_chain_interface new_offchain_workers spawn_tasks : Effect
  print_hwbench warn_hardware get_overseer_handle : Effect
  start_relay_chain_tasks : ℕ → DaRecoveryProfile → ℕ → Effect

-- A run keeps a log, and ends with a value, an error or a panic.
abbrev pub Run : Type 0 → Type 0 → Type 0 → Type 0
Run F E A = List F → Result (Stop E) A × List F

module _ {F E : Type 0} where
  infixl 5 ◌>>=◌ ◌>>◌
  abbrev pub ◌>>=◌ : {A B : Type 0} → Run F E A → (A → Run F E B) → Run F E B
  ◌>>=◌ m f s = let (r, t) = m s in elim r [ ok a ↦ f a t | err e ↦ (err e, t) ]

  abbrev pub ◌>>◌ : {A B : Type 0} → Run F E A → Run F E B → Run F E B
  m >> k = m >>= λ _. k

  abbrev pub pure : {A : Type 0} → A → Run F E A
  pure a s = (ok a, s)

  abbrev pub stop : {A : Type 0} → Stop E → Run F E A
  stop e s = (err e, s)

  -- A call that cannot fail, and one that fails with an error of its own kind.
  abbrev pub act : F → Run F E (Unit {0})
  act f s = (ok tt, s ++ f ∷ [])

  abbrev pub try_act : {D A : Type 0} → (D → E) → F → Result D A → Run F E A
  try_act from f (ok a) s = (ok a, s ++ f ∷ [])
  try_act from f (err d) s = (err (raised (from d)), s ++ f ∷ [])
