-- ===== src/Runtime/Configs/Collating.antt =====
-- The `Config` implementations of runtime/src/configs/mod.rs for the pallets that have to do with
-- collators and the authors of blocks, as in Runtime/Configs.antt.
use Prim.Native.String.{String}
use nonfungible_adapter_tuto.Base.{ℕ, Bool, true, List, [], ◌∷◌}
use nonfungible_adapter_tuto.Runtime.Units.{period, offset, slot_duration}
use nonfungible_adapter_tuto.Runtime.Pallets.{
  RuntimePallet, balances, collator_selection, session, aura,
}

pub record TimestampConfig : Type 0 where
  pub on_timestamp_set : RuntimePallet
  pub minimum_period : ℕ

abbrev pub timestamp_config : TimestampConfig
timestamp_config = record { on_timestamp_set = aura; minimum_period = 0 }

-- The author is found by the session's accounts over the slots of `find_author`.
pub record AuthorshipConfig : Type 0 where
  pub find_author : RuntimePallet
  pub event_handler : List RuntimePallet

abbrev pub authorship_config : AuthorshipConfig
authorship_config = record { find_author = aura; event_handler = collator_selection ∷ [] }

-- `PeriodicSessions<Period, Offset>`, which both ends a session and says when the next one is.
pub record SessionConfig : Type 0 where
  pub period : ℕ
  pub offset : ℕ
  pub session_manager : RuntimePallet

abbrev pub session_config : SessionConfig
session_config = record { period = period; offset = offset; session_manager = collator_selection }

pub record AuraConfig : Type 0 where
  pub max_authorities : ℕ
  pub allow_multiple_blocks_per_slot : Bool
  pub slot_duration : ℕ

abbrev pub aura_config : AuraConfig
aura_config = record {
  max_authorities = 100_000;
  allow_multiple_blocks_per_slot = true;
  slot_duration = slot_duration;
}

-- `PotId`, the account that the collators are paid from.
abbrev pub pot_id : String
pot_id = "PotStake"

pub record CollatorSelectionConfig : Type 0 where
  pub currency : RuntimePallet
  pub pot_id : String
  pub max_candidates : ℕ
  pub min_eligible_collators : ℕ
  pub max_invulnerables : ℕ
  pub kick_threshold : ℕ
  pub validator_registration : RuntimePallet

abbrev pub collator_selection_config : CollatorSelectionConfig
collator_selection_config = record {
  currency = balances;
  pot_id = pot_id;
  max_candidates = 100;
  min_eligible_collators = 4;
  max_invulnerables = 20;
  kick_threshold = period;
  validator_registration = session;
}
